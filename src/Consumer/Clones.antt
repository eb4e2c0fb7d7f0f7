-- ===== src/Consumer/Clones.antt =====
-- A clone of a consumer, of src/base_consumer.rs: what it reads, and the context that it shares.
use rmem_queue.Base.{
  ℕ, String, ◌<◌, ◌<◌, ◌≡◌, ◌≢◌, refl, ◌∙◌, false, some, List, [], ◌∷◌, ◌++◌, length, get_elem?,
  set, get_elem?-set_ne, get_elem?-set_self, get_elem?-lt, get_elem?-append_left,
  get_elem?-append_last, arith,
}
use rmem_queue.Broker.Valid.{IsBroker}
use rmem_queue.Config.{BrokerConfig}
use rmem_queue.Consumer as Base
use rmem_queue.Consumer.{BaseConsumer, Callback, Client, assigned}
use rmem_queue.Consumer.Shared.{World, on_consumer, base_consumer, clone_consumer}
use rmem_queue.Consumer.Subscribed.{existing, subscribed_direct}
use rmem_queue.Action.{Action}
use rmem_queue.Error.{Result, ok}
use rmem_queue.TopicPartition.{TopicPartitionList}

-- A call on a consumer is the call on it with its broker and its context.
on_consumer_lem :
    {A : Type 0} (self : ℕ) (f : Action Client A) (w : World) (c : BaseConsumer)
    (callbacks : List Callback) (r : Result A) (w' : Client)
    → get_elem? w.consumers self ≡ some c
    → get_elem? w.contexts c.context ≡ some callbacks
    → f (record { consumer = c; broker = w.broker; callbacks = callbacks }) ≡ (r, w')
    → on_consumer self f w ≡ (
      r,
      record {
        consumers = set w.consumers self w'.consumer;
        contexts = set w.contexts c.context w'.callbacks;
        broker = w'.broker;
      },
    )
on_consumer_lem self f w c callbacks r w' found known e = ground (arith, found, known, e)

-- When a consumer of a valid broker that is not shut down is cloned and the clone subscribes, then
-- the clone is assigned all partitions of the topics that exist, whatever group the consumer is of,
-- and whatever of them is assigned to the consumer; the consumer stays as it was, and the broker with
-- its groups; the context that the two share is told of the assignment.
pub clone_subscribes :
    {config : BrokerConfig} (order : List String → List String) (w : World) (self : ℕ)
    (c : BaseConsumer) (callbacks : List Callback) (new_member_id : String) (topics : List String)
    → IsBroker config w.broker
    → w.broker.shutdown ≡ false
    → w.broker.backend.shutdown ≡ false
    → get_elem? w.consumers self ≡ some c
    → get_elem? w.contexts c.context ≡ some callbacks
    → let (r, w') = clone_consumer self new_member_id w in
      let copy = length w.consumers in
      let (r', w'') = (base_consumer order).subscribe copy topics w' in
      (r ≡ ok copy)
      × (r' ≡ ok tt)
      × (w''.broker ≡ w.broker)
      × (get_elem? w''.consumers self ≡ some c)
      × ((d : BaseConsumer) × (tpl : TopicPartitionList) × (get_elem? w''.consumers copy ≡ some d)
          × (d.context ≡ c.context)
          × (d.member_id ≡ new_member_id)
          × (d.assigned_partitions ≡ tpl)
          × (tpl.elements ≡ existing w.broker.backend topics)
          × (get_elem? w''.contexts c.context ≡ some (assigned tpl ∷ callbacks)))
unfolding clone_consumer Base.clone Base.new base_consumer
clone_subscribes order w self c callbacks new_member_id topics v up backend_up found known =
    let inside = get_elem?-lt w.consumers self found in
    let open_context = get_elem?-lt w.contexts c.context known in
    let fresh = Base.clone c new_member_id in
    let copy = length w.consumers in
    let w' : World = record w { consumers = w.consumers ++ fresh ∷ [] } in
    let client : Client = record { consumer = fresh; broker = w.broker; callbacks = callbacks } in
    let tpl : TopicPartitionList = record { elements = existing w.broker.backend topics } in
    let apart : copy ≢ self = λ e. absurd (omega arith) in
    let made : clone_consumer self new_member_id w ≡ (ok copy, w') = ground (arith, found) in
    let young = get_elem?-append_last w.consumers fresh in
    let done = subscribed_direct order client topics v up backend_up refl in
    let d : BaseConsumer = record fresh { subscribed_topics = topics; assigned_partitions = tpl } in
    let final : World = record {
      consumers = set w'.consumers copy d;
      contexts = set w.contexts c.context (assigned tpl ∷ callbacks);
      broker = w.broker;
    } in
    let called : on_consumer copy (Base.subscribe order topics) w' ≡ (ok tt, final) =
      on_consumer_lem copy (Base.subscribe order topics) w' fresh callbacks (ok tt) _ young known
        done in
    let small : copy < length w'.consumers = get_elem?-lt w'.consumers copy young in
    let old =
      get_elem?-set_ne w'.consumers copy self d apart
      ∙ get_elem?-append_left w.consumers (fresh ∷ []) self inside
      ∙ found in
    let mine = get_elem?-set_self w'.consumers copy d small in
    let told = get_elem?-set_self w.contexts c.context (assigned tpl ∷ callbacks) open_context in
    rw made (rw called (refl, refl, refl, old, (d, tpl, mine, refl, refl, refl, refl, told)))
