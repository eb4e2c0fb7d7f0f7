-- ===== src/Registry/Threads.antt =====
-- `get_or_create` of src/registry.rs with its two locks: the lookup holds one and the insertion the
-- other, and threads take turns between them.
use rmem_queue.Base.{Bool, ℕ, String, none, some, List, [], ◌∷◌, get_elem?, set, string_eq}
use rmem_queue.Broker
use rmem_queue.Broker.{Broker}
use rmem_queue.Config
use rmem_queue.Config.{RmqClientConfig, broker_id_key}
use rmem_queue.Error.{Result, ok, err, panic}
use rmem_queue.Registry.{Registry, find_live, register}

-- A thread in `get_or_create`: before the lookup, after a lookup that found nothing, and done.
pub data Caller : Type 0 where
  starts : RmqClientConfig → Caller
  missed : RmqClientConfig → String → Caller
  returned : RmqClientConfig → Result ℕ → Caller

-- Under the read lock.
unfoldable pub look_up : Registry → RmqClientConfig → Caller
look_up r config = elim (Config.get config broker_id_key) [
  | none ↦ returned config panic
  | some broker_id ↦ elim (find_live r broker_id) [
    | some address ↦ returned config (ok address)
    | none ↦ missed config broker_id
  ]
]

-- `Broker::new`, and the insertion under the write lock.
unfoldable pub create : Registry → RmqClientConfig → String → Caller × Registry
create r config broker_id = elim (Broker.new config) [
  | ok b ↦ let (address, r') = register r broker_id b in (returned config (ok address), r')
  | err e ↦ (returned config (err e), r)
  | panic ↦ (returned config panic, r)
]

unfoldable pub call_step : Registry → Caller → Caller × Registry
unfolding look_up create
call_step r (starts config) = (look_up r config, r)
call_step r (missed config broker_id) = create r config broker_id
call_step r (returned config x) = (returned config x, r)

-- The threads and the registry that they share.
pub record System : Type 0 where
  pub registry : Registry
  pub callers : List Caller

-- A thread takes its next step, or the last client of the broker at an address lets go of it.
pub data Event : Type 0 where
  moves : ℕ → Event
  drops : ℕ → Event

-- The last `Arc` is gone, and `upgrade` finds nothing.
abbrev pub dropped : Registry → ℕ → Registry
dropped r address = elim (get_elem? r.heap address) [
  | none ↦ r
  | some cell ↦ record r { heap = set r.heap address (record cell { is_held = Bool.false }) }
]

unfoldable pub system_step : System → Event → System
unfolding call_step
system_step s (moves i) = elim (get_elem? s.callers i) [
  | none ↦ s
  | some caller ↦
      let (caller', r') = call_step s.registry caller in
      record { registry = r'; callers = set s.callers i caller' }
]
system_step s (drops address) = record s { registry = dropped s.registry address }

unfoldable pub run_system : System → List Event → System
unfolding system_step
run_system s [] = s
run_system s (e ∷ events) = run_system (system_step s e) events
