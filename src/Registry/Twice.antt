-- ===== src/Registry/Twice.antt =====
-- Two threads in `get_or_create` of src/registry.rs at once.
use rmem_queue.Base.{
  ℕ, suc, String, ◌≡◌, refl, ap, sym, ◌∙◌, true, none, some, [], ◌∷◌, length, length-append,
  get_elem?, get_elem?-lt, get_elem?-append_left, get_elem?-append_last, string_eq, nat_eq, arith,
}
use rmem_queue.Broker
use rmem_queue.Broker.{Broker}
use rmem_queue.Config
use rmem_queue.Config.{RmqClientConfig, BrokerConfig, broker_id_key}
use rmem_queue.Error.{ok}
use rmem_queue.Registry.{Registry, Cell, held, find_live, register}
use rmem_queue.Registry.Laws.{register-find_live}
use rmem_queue.Registry.Threads.{
  starts, missed, returned, look_up, create, call_step, moves, system_step, run_system,
}

create-made :
    (r : Registry) (config : RmqClientConfig) (id : String) (b : Broker)
    → Broker.new config ≡ ok b
    → create r config id ≡ (returned config (ok (length r.heap)), (register r id b).1)
unfolding create register
create-made r config id b g = ground (arith, g)

address_of : (r : Registry) (id : String) (b : Broker) → (register r id b).0 ≡ length r.heap
unfolding register
address_of r id b = refl

length-register :
    (r : Registry) (id : String) (b : Broker)
    → length (register r id b).1.heap ≡ suc (length r.heap)
unfolding register
length-register r id b =
    omega (arith, length-append r.heap (record { broker = b; is_held = true } ∷ []))

registered :
    (r : Registry) (id : String) (b : Broker)
    → get_elem? (register r id b).1.heap (length r.heap)
      ≡ some (record { broker = b; is_held = true })
unfolding register
registered r id b = get_elem?-append_last r.heap (record { broker = b; is_held = true })

still_there :
    (r : Registry) (id : String) (b : Broker) (a : ℕ) {cell : Cell}
    → get_elem? r.heap a ≡ some cell
    → get_elem? (register r id b).1.heap a ≡ some cell
unfolding register
still_there r id b a h =
    get_elem?-append_left r.heap (record { broker = b; is_held = true } ∷ []) a
      (get_elem?-lt r.heap a h)
    ∙ h

-- Two threads ask for a broker that is not there, and both look it up before either creates it: each
-- is given a broker of its own, both are held, and from then on the id stands for the second one.
pub two_brokers :
    (r : Registry) (config : RmqClientConfig) (id : String) (b : Broker)
    → Config.get config broker_id_key ≡ some id
    → find_live r id ≡ none
    → Broker.new config ≡ ok b
    → let n = length r.heap in
      let s =
        run_system
          (record { registry = r; callers = starts config ∷ starts config ∷ [] })
          (moves 0 ∷ moves 1 ∷ moves 0 ∷ moves 1 ∷ []) in
      (s.callers ≡ returned config (ok n) ∷ returned config (ok (suc n)) ∷ [])
      × (held (get_elem? s.registry.heap n) ≡ true)
      × (held (get_elem? s.registry.heap (suc n)) ≡ true)
      × (find_live s.registry id ≡ some (suc n))
unfolding run_system system_step call_step look_up
two_brokers r config id b e f g =
    let miss : look_up r config ≡ missed config id = ground (arith, e, f) in
    let r1 = (register r id b).1 in
    let r2 = (register r1 id b).1 in
    let len = length-register r id b in
    let first = still_there r1 id b (length r.heap) (registered r id b) in
    let second : get_elem? r2.heap (suc (length r.heap))
        ≡ some (record { broker = b; is_held = true }) =
      ap (get_elem? r2.heap) (sym len) ∙ registered r1 id b in
    let last : find_live r2 id ≡ some (suc (length r.heap)) =
      register-find_live r1 id b ∙ ap some (address_of r1 id b ∙ len) in
    rw (miss, create-made r config id b g, create-made r1 config id b g, len, first, second)
      (refl, refl, refl, last)
