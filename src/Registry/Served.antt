-- ===== src/Registry/Served.antt =====
-- Which broker an address of the registry stands for.
use rmem_queue.Base.{
  ℕ, String, ◌≡◌, sym, subst, true, false, Option, none, some, [], ◌∷◌, length, get_elem?,
  get_elem?-lt, get_elem?-append_left, get_elem?-append_last, get_elem?-set_self, get_elem?-set_ne,
  string_eq, nat_eq, ◌==◌, Bool-cases, Option-cases, inl, inr, arith,
}
use rmem_queue.Base.Map
use rmem_queue.Base.Map.{get-insert, get-insert_self}
use rmem_queue.Broker
use rmem_queue.Broker.{Broker}
use rmem_queue.Config
use rmem_queue.Config.{RmqClientConfig, BrokerConfig, broker_id_key}
use rmem_queue.Error.{ok, err, panic, bind-eq-ok}
use rmem_queue.Registry.{Registry, upgrade, find_live, register}
use rmem_queue.Registry.Threads.{Caller, starts, missed, returned, look_up, dropped}

from_config-broker_id :
    (config : RmqClientConfig) (bc : BrokerConfig)
    → Config.from_config config ≡ ok bc
    → Config.get config broker_id_key ≡ some bc.broker_id
unfolding Config.from_config
from_config-broker_id config bc h = ground (arith, h)

-- A new broker has the id of its configuration.
pub new-broker_id :
    (config : RmqClientConfig) (b : Broker)
    → Broker.new config ≡ ok b
    → Config.get config broker_id_key ≡ some b.config.broker_id
unfolding Broker.new Config.from_config
new-broker_id config b h =
    let (bc, made, e) = bind-eq-ok (Config.from_config config) _ h in
    let same : bc ≡ b.config = cc e in cc (from_config-broker_id config bc made, same)

-- What the broker at an address is called.
abbrev pub id_at : Registry → ℕ → Option String
id_at r address = elim (get_elem? r.heap address) [
  | none ↦ none
  | some cell ↦ some cell.broker.config.broker_id
]

-- The addresses in the registry are of brokers of their ids.
pub record IsRegistry (r : Registry) : Type 0 where
  pub filed :
      (id : String) (address : ℕ) → Map.get id r.weak ≡ some address → id_at r address ≡ some id

-- What holds of a thread: a broker that it was given has the id of its configuration.
abbrev pub Served : Registry → Caller → Type 0
Served r (starts config) = Unit {0}
Served r (missed config id) = Config.get config broker_id_key ≡ some id
Served r (returned config (ok address)) =
    (id : String) × (Config.get config broker_id_key ≡ some id) × (id_at r address ≡ some id)
Served r (returned config (err e)) = Unit {0}
Served r (returned config panic) = Unit {0}

-- No address changes its broker's id.
unfoldable pub Keeps : Registry → Registry → Type 0
Keeps r r' = (address : ℕ) (id : String) → id_at r address ≡ some id → id_at r' address ≡ some id

pub Served-Keeps :
    (r r' : Registry) (caller : Caller) → Keeps r r' → Served r caller → Served r' caller
unfolding Keeps
Served-Keeps r r' (starts config) k s = s
Served-Keeps r r' (missed config id) k s = s
Served-Keeps r r' (returned config (ok address)) k (id, e, f) = (id, e, k address id f)
Served-Keeps r r' (returned config (err e)) k s = s
Served-Keeps r r' (returned config panic) k s = s

pub register-Keeps : (r : Registry) (id : String) (b : Broker) → Keeps r (register r id b).1
unfolding Keeps register
register-Keeps r id b address j e = elim (Option-cases (get_elem? r.heap address)) [
  | inl f ↦ absurd (ground (arith, e, f))
  | inr (cell, f) ↦ ground (
    arith,
    e,
    f,
    get_elem?-append_left r.heap (record { broker = b; is_held = true } ∷ []) address
        (get_elem?-lt r.heap address f),
  )
]

pub register-IsRegistry :
    (r : Registry) (id : String) (b : Broker)
    → IsRegistry r
    → b.config.broker_id ≡ id
    → IsRegistry (register r id b).1
unfolding register Keeps
register-IsRegistry r id b v e = record {
  filed = λ j a f. elim (Bool-cases (id == j)) [
    | inl same ↦
        let i : id ≡ j = (string_eq.beq_iff id j).0 same in
        let at : length r.heap ≡ a = cc (get-insert id j (length r.heap) r.weak, same, f) in
        subst (λ k. id_at (register r id b).1 k ≡ some j) at
          (ground
            (arith, get_elem?-append_last r.heap (record { broker = b; is_held = true }), e, i))
    | inr other ↦
        register-Keeps r id b a j
          (v.filed j a (cc (get-insert id j (length r.heap) r.weak, other, f)))
  ];
}

pub dropped-Keeps : (r : Registry) (address : ℕ) → Keeps r (dropped r address)
unfolding Keeps
dropped-Keeps r address a id e = elim (Option-cases (get_elem? r.heap address)) [
  | inl f ↦ rw (f, dropped) e
  | inr (cell, f) ↦ elim (Bool-cases (address == a)) [
    | inl same ↦ ground (
      arith,
      f,
      e,
      get_elem?-set_self r.heap address (record cell { is_held = false })
          (get_elem?-lt r.heap address f),
    )
    | inr other ↦
        ground (arith, f, e, get_elem?-set_ne r.heap address a (record cell { is_held = false }))
  ]
]

pub find_live-get :
    (r : Registry) (id : String) (a : ℕ) → find_live r id ≡ some a → Map.get id r.weak ≡ some a
unfolding find_live upgrade
find_live-get r id a h = elim (Option-cases (Map.get id r.weak)) [
  | inl e ↦ absurd (ground (arith, e, h))
  | inr (a', e) ↦ ground (arith, e, h)
]

pub look_up-Served :
    (r : Registry) (config : RmqClientConfig) → IsRegistry r → Served r (look_up r config)
unfolding look_up
look_up-Served r config v = elim (Option-cases (Config.get config broker_id_key)) [
  | inl e ↦
      let found : look_up r config ≡ returned config panic = ground (arith, e) in
      subst (Served r) (sym found) tt
  | inr (id, e) ↦ elim (Option-cases (find_live r id)) [
    | inl f ↦
        let found : look_up r config ≡ missed config id = ground (arith, e, f) in
        subst (Served r) (sym found) e
    | inr (a, f) ↦
        let found : look_up r config ≡ returned config (ok a) = ground (arith, e, f) in
        subst (Served r) (sym found) (id, e, v.filed id a (find_live-get r id a f))
  ]
]

pub dropped-weak : (r : Registry) (address : ℕ) → (dropped r address).weak ≡ r.weak
dropped-weak r address = elim (Option-cases (get_elem? r.heap address)) [
  | inl f ↦ ground (arith, f)
  | inr (cell, f) ↦ ground (arith, f)
]
