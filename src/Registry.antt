-- ===== src/Registry.antt =====
-- src/registry.rs: one broker for each broker id, while some client still holds it.
pub mod Laws
pub mod Threads
pub mod Served
pub mod Race
pub mod Clients
pub mod Makers
pub mod Twice
use rmem_queue.Base.{
  ℕ, ◌+◌, String, Bool, Option, none, some, List, [], ◌∷◌, ◌++◌, length, get_elem?, string_eq,
  if◌then◌else◌,
}
use rmem_queue.Base.Map
use rmem_queue.Base.Map.{Map}
use rmem_queue.Broker
use rmem_queue.Broker.{Broker}
use rmem_queue.Config
use rmem_queue.Config.{RmqClientConfig, broker_id_key}
use rmem_queue.Error.{Result, ok, err, panic}

-- A broker on the heap, by its address; `is_held` says that a client still has an `Arc` of it. A
-- `Weak` is an address.
pub record Cell : Type 0 where
  pub broker : Broker
  pub is_held : Bool

pub record Registry : Type 0 where
  pub heap : List Cell
  pub weak : Map String ℕ

abbrev pub held : Option Cell → Bool
held none = Bool.false
held (some c) = c.is_held

-- `weak.upgrade()`
unfoldable pub upgrade : Registry → ℕ → Option ℕ
upgrade r address = if held (get_elem? r.heap address) then some address else none

-- `registry.get(&broker_id)` and the upgrade.
unfoldable pub find_live : Registry → String → Option ℕ
find_live r broker_id = elim (Map.get broker_id r.weak) [
  | none ↦ none
  | some address ↦ upgrade r address
]

-- Put a new broker on the heap, and its address under the id.
unfoldable pub register : Registry → String → Broker → ℕ × Registry
register r broker_id b =
    let address = length r.heap in
    (
      address,
      record {
        heap = r.heap ++ record { broker = b; is_held = Bool.true } ∷ [];
        weak = Map.insert broker_id address r.weak;
      },
    )

-- The address of the broker. The `expect` on a missing id panics.
unfoldable pub get_or_create : Registry → RmqClientConfig → Result ℕ × Registry
get_or_create r config = elim (Config.get config broker_id_key) [
  | none ↦ (panic, r)
  | some broker_id ↦ elim (find_live r broker_id) [
    | some address ↦ (ok address, r)
    | none ↦ elim (Broker.new config) [
      | ok b ↦ let (address, r') = register r broker_id b in (ok address, r')
      | err e ↦ (err e, r)
      | panic ↦ (panic, r)
    ]
  ]
]
