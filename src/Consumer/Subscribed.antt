-- ===== src/Consumer/Subscribed.antt =====
-- What a subscription without a group assigns.
use rmem_queue.Base.{
  ℕ, zero, suc, ◌+◌, ℤ, pos, negsuc, String, ◌≡◌, refl, ap, sym, ◌∙◌, true, false, none, some, List,
  [], ◌∷◌, ◌++◌, length, append_assoc, append-nil, string_eq, Option-cases, inl, inr, arith,
}
use rmem_queue.Backend
use rmem_queue.Backend.{InMemoryBackend, partition_metadata, partitions_metadata, topic_metadata}
use rmem_queue.Backend.Valid.{IsBackend}
use rmem_queue.Base.Map
use rmem_queue.Broker
use rmem_queue.Broker.{Broker}
use rmem_queue.Broker.Valid.{IsBroker}
use rmem_queue.Config.{BrokerConfig}
use rmem_queue.Poll.{poll_once}
use rmem_queue.Consumer.{
  assigned, Client, add_partitions, all_partitions, assignment_for, subscribe,
}
use rmem_queue.Error.{ok, err, topic_not_found}
use rmem_queue.Metadata.{PartitionMetadata}
use rmem_queue.Partition.{watermarks, message_count}
use rmem_queue.Topic.Laws.{get_partition_cases}
use rmem_queue.Topic
use rmem_queue.Topic.{Topic}
use rmem_queue.TopicPartition.{TopicPartitionElem, TopicPartitionList, stored}
use rmem_queue.TopicPartition

-- The partitions `i..i + n` of a topic.
abbrev pub numbered : String → ℕ → ℕ → List TopicPartitionElem
numbered name i zero = []
numbered name i (suc n) =
    record { topic = name; partition = pos i; offset = stored } ∷ numbered name (i + 1) n

-- All partitions of the topics that exist, topic after topic.
abbrev pub existing : InMemoryBackend → List String → List TopicPartitionElem
existing b [] = []
existing b (topic ∷ topics) =
    (elim (Map.get topic b.topics) [ none ↦ [] | some t ↦ numbered topic 0 (length t.partitions) ])
    ++ existing b topics

partition_metadata-ok :
    (t : Topic) (i : ℤ) → (m : PartitionMetadata) × (partition_metadata t i ≡ ok m) × (m.id ≡ i)
unfolding partition_metadata Topic.watermarks Topic.get_partition
partition_metadata-ok t i = elim (get_partition_cases t i) [
  | inl (_, p, _, _, e) ↦ (
    record {
      id = i;
      oldest_offset = (watermarks p).0;
      newest_offset = (watermarks p).1;
      message_count = message_count p;
    },
    ground (arith, e),
    refl,
  )
  | inr (_, e) ↦ (
    record { id = i; oldest_offset = pos 0; newest_offset = negsuc 0; message_count = 0 },
    ground (arith, e),
    refl,
  )
]

-- The metadata of the partitions lists them all, in order.
add-partitions_metadata :
    (t : Topic) (i n : ℕ)
    → (pms : List PartitionMetadata) × (partitions_metadata t i n ≡ ok pms)
      × ((tpl : TopicPartitionList) (name : String)
          → add_partitions tpl name pms ≡ record { elements = tpl.elements ++ numbered name i n })
unfolding partitions_metadata
add-partitions_metadata t i zero =
    ([], refl, λ tpl name. ap (λ l. record { elements = l }) (sym (append-nil tpl.elements)))
add-partitions_metadata t i (suc n) =
    let (m, e, same) = partition_metadata-ok t (pos i) in
    let (ms, e', more) = add-partitions_metadata t (i + 1) n in
    (
      m ∷ ms,
      rw (e, e') refl,
      λ tpl name.
          more (TopicPartition.add_partition tpl name m.id) name
          ∙ ap
              (λ (z : ℤ). record {
                elements =
                    (tpl.elements ++ record { topic = name; partition = z; offset = stored } ∷ [])
                    ++ numbered name (i + 1) n;
              })
              same
          ∙ ap (λ l. record { elements = l })
              (append_assoc tpl.elements _ (numbered name (i + 1) n)),
    )

module _ (b : Broker) (v : IsBackend b.backend) (up : b.shutdown ≡ false)
    (backend_up : b.backend.shutdown ≡ false) where
  metadata-unknown :
      (topic : String)
      → Map.get topic b.backend.topics ≡ none
      → Broker.metadata b (some topic) ≡ err (topic_not_found topic)
  unfolding Broker.metadata Broker.check_shutdown Backend.metadata Backend.get_topic
      Backend.check_shutdown
  metadata-unknown topic e = ground (arith, up, backend_up, e)

  -- The metadata of a topic that exists names all of its partitions.
  metadata-known :
      (topic : String) (t : Topic) (pms : List PartitionMetadata)
      → Map.get topic b.backend.topics ≡ some t
      → partitions_metadata t 0 (length t.partitions) ≡ ok pms
      → Broker.metadata b (some topic)
        ≡ ok (record {
          broker_id = b.config.broker_id;
          topics = record { name = topic; partitions = pms; error = none } ∷ [];
        })
  unfolding Broker.metadata Broker.check_shutdown Backend.metadata Backend.get_topic
      Backend.check_shutdown Backend.topic_metadata
  metadata-known topic t pms e listed =
      let valid = v.topics topic t e in
      let named = valid.named in
      let counted = valid.counted in ground (arith, up, backend_up, e, named, counted, listed)

  all_partitions-existing :
      (topics : List String) (tpl : TopicPartitionList)
      → all_partitions b tpl topics
        ≡ ok (record { elements = tpl.elements ++ existing b.backend topics })
  unfolding all_partitions
  all_partitions-existing [] tpl =
      ap (λ l. ok (record { elements = l })) (sym (append-nil tpl.elements))
  all_partitions-existing (topic ∷ topics) tpl =
      elim (Option-cases (Map.get topic b.backend.topics)) [
        | inl e ↦ ground (arith, metadata-unknown topic e, e, all_partitions-existing topics tpl)
        | inr (t, e) ↦
            let (pms, listed, added) = add-partitions_metadata t 0 (length t.partitions) in
            let with_topic : TopicPartitionList = record {
              elements = tpl.elements ++ numbered topic 0 (length t.partitions);
            } in
            let whole =
              append_assoc tpl.elements (numbered topic 0 (length t.partitions))
                (existing b.backend topics) in
            ground (
              arith,
              metadata-known topic t pms e listed,
              added tpl topic,
              e,
              all_partitions-existing topics with_topic,
              whole,
            )
      ]

-- A consumer without a group that subscribes to topics of a valid broker that is not shut down is
-- assigned all partitions of those that exist, topic after topic, and nothing for the others; the
-- broker, the consumer's positions and what is paused stay.
pub subscribe_direct :
    {c : BrokerConfig} (order : List String → List String) (w : Client) (topics : List String)
    → IsBroker c w.broker
    → w.broker.shutdown ≡ false
    → w.broker.backend.shutdown ≡ false
    → w.consumer.group_id ≡ none
    → let (r, w') = subscribe order topics w in
      (r ≡ ok tt)
      × (w'.broker ≡ w.broker)
      × (w'.consumer.assigned_partitions.elements ≡ existing w.broker.backend topics)
      × (w'.consumer.subscribed_topics ≡ topics)
      × (w'.consumer.position ≡ w.consumer.position)
      × (w'.consumer.paused ≡ w.consumer.paused)
unfolding subscribe assignment_for
subscribe_direct order w topics v up backend_up alone =
    let found =
      all_partitions-existing w.broker v.backend up backend_up topics TopicPartition.new in
    rw (alone, found) (refl, refl, refl, refl, refl, refl)

-- The same, of all that a subscription leaves.
pub subscribed_direct :
    {c : BrokerConfig} (order : List String → List String) (w : Client) (topics : List String)
    → IsBroker c w.broker
    → w.broker.shutdown ≡ false
    → w.broker.backend.shutdown ≡ false
    → w.consumer.group_id ≡ none
    → let tpl : TopicPartitionList = record { elements = existing w.broker.backend topics } in
      subscribe order topics w ≡ (
        ok tt,
        record w {
          consumer = record w.consumer { subscribed_topics = topics; assigned_partitions = tpl };
          callbacks = assigned tpl ∷ w.callbacks;
        },
      )
unfolding subscribe assignment_for
subscribed_direct order w topics v up backend_up alone =
    let found =
      all_partitions-existing w.broker v.backend up backend_up topics TopicPartition.new in
    rw (alone, found) refl

all_partitions-down :
    (b : Broker) (topics : List String) (tpl : TopicPartitionList)
    → b.shutdown ≡ true
    → all_partitions b tpl topics ≡ ok tpl
unfolding all_partitions Broker.metadata Broker.check_shutdown
all_partitions-down b [] tpl down = refl
all_partitions-down b (topic ∷ topics) tpl down =
    ground (arith, down, all_partitions-down b topics tpl down)

-- At a broker that was shut down, to subscribe without a group succeeds all the same: nothing is
-- assigned, and no poll returns a message or an error, whatever broker it finds.
pub subscribe_down :
    (order : List String → List String) (w : Client) (topics : List String) (b : Broker)
    → w.broker.shutdown ≡ true
    → w.consumer.group_id ≡ none
    → let (r, w') = subscribe order topics w in
      (r ≡ ok tt)
      × (w'.consumer.subscribed_topics ≡ topics)
      × (w'.consumer.assigned_partitions.elements ≡ [])
      × (poll_once b w'.consumer ≡ (none, w'.consumer))
unfolding subscribe assignment_for poll_once
subscribe_down order w topics b down alone =
    let found = all_partitions-down w.broker topics TopicPartition.new down in
    rw (alone, found) (refl, refl, refl, refl)
