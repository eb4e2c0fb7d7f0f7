-- ===== src/Registry/Race.antt =====
-- Threads that take turns in `get_or_create` of src/registry.rs.
use rmem_queue.Base.{
  ℕ, String, ◌≡◌, refl, ap, sym, ◌∙◌, subst, none, some, List, [], ◌∷◌, length, get_elem?,
  get_elem?-lt, get_elem?-set_self, get_elem?-set_ne, set, string_eq, nat_eq, ◌==◌, nat_beq_iff,
  Bool-cases, Option-cases, inl, inr, arith,
}
use rmem_queue.Base.Map
use rmem_queue.Base.Map.{get-insert, get-insert_self}
use rmem_queue.Broker
use rmem_queue.Broker.{Broker}
use rmem_queue.Config
use rmem_queue.Config.{RmqClientConfig, BrokerConfig, broker_id_key}
use rmem_queue.Error.{Result, ok, err, panic}
use rmem_queue.Registry.{Registry, find_live, register, get_or_create}
use rmem_queue.Registry.Threads.{
  Caller, starts, missed, returned, look_up, create, call_step, System, Event, moves, drops,
  dropped, system_step, run_system,
}
use rmem_queue.Registry.Served.{
  IsRegistry, Served, Keeps, Served-Keeps, new-broker_id, register-Keeps, register-IsRegistry,
  dropped-Keeps, dropped-weak, look_up-Served,
}

-- A thread that is not disturbed between its two steps does what `get_or_create` does as one step.
pub undisturbed :
    (r : Registry) (config : RmqClientConfig)
    → let (caller, r') = call_step r (starts config) in
      call_step r' caller ≡ (returned config (get_or_create r config).0, (get_or_create r config).1)
unfolding call_step get_or_create look_up create
undisturbed r config = elim (Option-cases (Config.get config broker_id_key)) [
  | inl e ↦ ground (arith, e)
  | inr (id, e) ↦ elim (Option-cases (find_live r id)) [
    | inr (a, f) ↦ ground (arith, e, f)
    | inl f ↦ created id e f (Broker.new config) refl
  ]
]
  where
    created :
        (id : String) (e : Config.get config broker_id_key ≡ some id) (f : find_live r id ≡ none)
        (made : Result Broker)
        → Broker.new config ≡ made
        → let (caller, r') = call_step r (starts config) in
          call_step r' caller
          ≡ (returned config (get_or_create r config).0, (get_or_create r config).1)
    created id e f (ok b) g = ground (arith, e, f, g)
    created id e f (err x) g = ground (arith, e, f, g)
    created id e f panic g = ground (arith, e, f, g)

pub record IsSystem (s : System) : Type 0 where
  pub registry : IsRegistry s.registry
  pub served :
      (i : ℕ) (caller : Caller) → get_elem? s.callers i ≡ some caller → Served s.registry caller

-- What a step leaves.
Stepped : Registry → Caller × Registry → Type 0
Stepped r (caller, r') = IsRegistry r' × Keeps r r' × Served r' caller

create-Stepped :
    (r : Registry) (config : RmqClientConfig) (id : String)
    → IsRegistry r
    → Config.get config broker_id_key ≡ some id
    → (made : Result Broker) → Broker.new config ≡ made
    → Stepped r (create r config id)
unfolding create Stepped Keeps register
create-Stepped r config id v e (ok b) g =
    let named : b.config.broker_id ≡ id = cc (new-broker_id config b g, e) in
    let made : create r config id
        ≡ (returned config (ok (register r id b).0), (register r id b).1) =
      ground (arith, g) in
    subst (Stepped r) (sym made) (
      register-IsRegistry r id b v named,
      register-Keeps r id b,
      (
        id,
        e,
        (register-IsRegistry r id b v named).filed id (length r.heap)
            (get-insert_self id (length r.heap) r.weak),
      ),
    )
create-Stepped r config id v e (err x) g =
    let made : create r config id ≡ (returned config (err x), r) = ground (arith, g) in
    subst (Stepped r) (sym made) (v, (λ a i h. h), tt)
create-Stepped r config id v e panic g =
    let made : create r config id ≡ (returned config panic, r) = ground (arith, g) in
    subst (Stepped r) (sym made) (v, (λ a i h. h), tt)

call_step-Stepped :
    (r : Registry) (caller : Caller)
    → IsRegistry r
    → Served r caller
    → Stepped r (call_step r caller)
unfolding call_step Keeps Stepped
call_step-Stepped r (starts config) v s = (v, (λ a id e. e), look_up-Served r config v)
call_step-Stepped r (missed config id) v s = create-Stepped r config id v s (Broker.new config) refl
call_step-Stepped r (returned config x) v s = (v, (λ a id e. e), s)

system_step-IsSystem : (s : System) (e : Event) → IsSystem s → IsSystem (system_step s e)
unfolding system_step Stepped Keeps
system_step-IsSystem s (moves i) v = elim (Option-cases (get_elem? s.callers i)) [
  | inl none_there ↦
      let same : system_step s (moves i) ≡ s = ground (arith, none_there) in
      subst IsSystem (sym same) v
  | inr (caller, at) ↦
      let next = call_step s.registry caller in
      let (filed, keeps, own) =
        call_step-Stepped s.registry caller v.registry (v.served i caller at) in
      let moved : system_step s (moves i)
          ≡ record { registry = next.1; callers = set s.callers i next.0 } =
        ground (arith, at) in
      subst IsSystem (sym moved) (record {
        registry = filed;
        served = λ j other h. elim (Bool-cases (i == j)) [
          | inl same ↦
              let k : i ≡ j = (nat_beq_iff i j).0 same in
              let stands : next.0 ≡ other =
                cc (get_elem?-set_self s.callers i next.0 (get_elem?-lt s.callers i at), h, k) in
              subst (Served next.1) stands own
          | inr apart ↦
              let still : get_elem? s.callers j ≡ some other =
                ground (arith, apart, h, get_elem?-set_ne s.callers i j next.0) in
              Served-Keeps s.registry next.1 other keeps (v.served j other still)
        ];
      })
]
system_step-IsSystem s (drops address) v = record {
  registry = record {
    filed = λ id a e. dropped-Keeps s.registry address a id (
        v.registry.filed id a (sym (ap (λ w. Map.get id w) (dropped-weak s.registry address)) ∙ e));
  };
  served = λ i caller at.
      Served-Keeps s.registry (dropped s.registry address) caller (dropped-Keeps s.registry address)
        (v.served i caller at);
}

-- Whatever turns the threads take and whichever brokers are let go in between, a thread that
-- `get_or_create` gives a broker gets one with the broker id of its configuration.
pub run_system-IsSystem :
    (s : System) (events : List Event) → IsSystem s → IsSystem (run_system s events)
unfolding run_system
run_system-IsSystem s [] v = v
run_system-IsSystem s (e ∷ events) v =
    run_system-IsSystem (system_step s e) events (system_step-IsSystem s e v)
