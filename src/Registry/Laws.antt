-- ===== src/Registry/Laws.antt =====
-- The registry gives out one broker for an id while that broker is held.
use rmem_queue.Base.{
  ℕ, String, ◌≡◌, refl, true, none, some, length, get_elem?-append_last, string_eq, Option-cases,
  inl, inr, arith,
}
use rmem_queue.Base.Map.{get-insert_self}
use rmem_queue.Broker
use rmem_queue.Broker.{Broker}
use rmem_queue.Config
use rmem_queue.Config.{RmqClientConfig, broker_id_key}
use rmem_queue.Error.{Result, ok, err, panic}
use rmem_queue.Registry.{Registry, upgrade, find_live, register, get_or_create}

pub register-find_live :
    (r : Registry) (id : String) (b : Broker)
    → find_live (register r id b).1 id ≡ some (register r id b).0
unfolding find_live register upgrade
register-find_live r id b = ground (
  arith,
  get-insert_self id (length r.heap) r.weak,
  get_elem?-append_last r.heap (record { broker = b; is_held = true }),
)

module _ (r : Registry) (config : RmqClientConfig) where
  found_again :
      (id : String) (address : ℕ)
      → Config.get config broker_id_key ≡ some id
      → find_live r id ≡ some address
      → get_or_create r config ≡ (ok address, r)
  unfolding get_or_create
  found_again id address e f = rw (e, get_or_create) (rw f refl)

-- When `get_or_create` gives out a broker, a second call right after, with the same configuration,
-- gives out the same one and changes nothing.
pub get_or_create_again :
    (r : Registry) (config : RmqClientConfig) (address : ℕ)
    → (get_or_create r config).0 ≡ ok address
    → get_or_create (get_or_create r config).1 config ≡ (ok address, (get_or_create r config).1)
unfolding get_or_create
get_or_create_again r config address h = elim (Option-cases (Config.get config broker_id_key)) [
  | inl e ↦ absurd (ground (arith, e, h))
  | inr (id, e) ↦ elim (Option-cases (find_live r id)) [
    | inr (a, f) ↦ ground (arith, e, f, h)
    | inl f ↦ created id e f (Broker.new config) refl
  ]
]
  where
    created :
        (id : String) (e : Config.get config broker_id_key ≡ some id) (f : find_live r id ≡ none)
        (made : Result Broker)
        → Broker.new config ≡ made
        → get_or_create (get_or_create r config).1 config ≡ (ok address, (get_or_create r config).1)
    created id e f (ok b) g = ground (arith, e, f, g, h, register-find_live r id b)
    created id e f (err x) g = absurd (ground (arith, e, f, g, h))
    created id e f panic g = absurd (ground (arith, e, f, g, h))
