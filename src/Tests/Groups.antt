-- ===== src/Tests/Groups.antt =====
-- Groups, subscriptions and clones, at concrete inputs.
use rmem_queue.Base.{
  ℕ, ℤ, pos, String, ◌≡◌, refl, none, some, List, [], ◌∷◌, get_elem?, string_eq, true, ltb,
}
use rmem_queue.Assignor.{assign}
use rmem_queue.Assignor.Exact.{owns, assign-exact}
use rmem_queue.Assignor.Names.{names}
use rmem_queue.Assignor.Topics.{IsOrder}
use rmem_queue.Backend
use rmem_queue.Base.Map
use rmem_queue.Base.Map.{Map}
use rmem_queue.Broker.Exclusive.{HasOneReader}
use rmem_queue.Broker.Readers.{reached-HasOneReader}
use rmem_queue.Broker.Runs.{Call, joins, leaves, run}
use rmem_queue.Consumer.{assigned, BaseConsumer, Client, subscribe, unsubscribe}
use rmem_queue.Consumer.Clones.{clone_subscribes}
use rmem_queue.Consumer.Shared.{World, base_consumer, clone_consumer}
use rmem_queue.Consumer.Subscribed.{existing, subscribe_direct, subscribe_down}
use rmem_queue.Consumer.Unsubscribed.{unsubscribe-left}
use rmem_queue.ConsumerGroup
use rmem_queue.ConsumerGroup
use rmem_queue.ConsumerGroup.{ConsumerGroup, join, assignment}
use rmem_queue.ConsumerGroup.Told.{join-exact}
use rmem_queue.ConsumerGroup.Overlap.{join-overlap}
use rmem_queue.Error.{ok, Result}
use rmem_queue.Metadata.{Metadata}
use rmem_queue.Partition
use rmem_queue.Poll.{poll_once}
use rmem_queue.Topic
use rmem_queue.Tests.Fixtures.{client, filled, filled-IsBroker, new-started, reader, started}
use rmem_queue.TopicPartition.{TopicPartitionList}

abbrev as_given : List String → List String
as_given topics = topics

given-IsOrder : IsOrder as_given
given-IsOrder = record { same = λ topics t. refl }

abbrev member_topics : Map String (List String)
member_topics = ("a", "t" ∷ []) ∷ ("b", "t" ∷ "u" ∷ []) ∷ []

abbrev counts : Map String ℤ
counts = ("t", pos 3) ∷ ("u", pos 1) ∷ []

assign-exact_example :
    (a : Map String TopicPartitionList) × (assign as_given member_topics counts ≡ ok a)
    × ((m : String) (topics : List String)
        → Map.get m member_topics ≡ some topics
        → (tpl : TopicPartitionList) × (Map.get m a ≡ some tpl)
          × ((t : String) (q : ℕ) → names tpl.elements t q ≡ owns member_topics counts m t q))
assign-exact_example = assign-exact as_given member_topics counts given-IsOrder

abbrev group : ConsumerGroup
group = record {
  group_id = "g";
  state = record {
    members = ("a", record { member_id = "a"; subscribed_topics = "t" ∷ [] }) ∷ [];
    member_topics = ("a", "t" ∷ []) ∷ [];
    assignments = [];
  };
}

join-exact_example :
    ((tpl : TopicPartitionList) × ((join as_given group "b" ("t" ∷ "u" ∷ []) counts).0 ≡ ok tpl)
      × (assignment (join as_given group "b" ("t" ∷ "u" ∷ []) counts).1 "b" ≡ some tpl))
    × ((tpl : TopicPartitionList) × (assignment
            (join as_given group "b" ("t" ∷ "u" ∷ []) counts).1
            "a"
          ≡ some tpl)
        × ((t : String) (q : ℕ) → names tpl.elements t q ≡ owns member_topics counts "a" t q))
unfolding Map.get Map.insert
join-exact_example =
    join-exact as_given group "b" ("t" ∷ "u" ∷ []) counts "a" ("t" ∷ []) given-IsOrder refl

abbrev joined : Result TopicPartitionList × ConsumerGroup
joined = join as_given (ConsumerGroup.new "g") "a" ("t" ∷ []) counts

join-overlap_example :
    (tpl : TopicPartitionList) × (tpl' : TopicPartitionList) × (joined.0 ≡ ok tpl)
    × ((join as_given joined.1 "b" ("t" ∷ []) counts).0 ≡ ok tpl')
    × ((q : ℕ) → names tpl.elements "t" q ≡ ltb q 3)
    × ((q : ℕ) × (names tpl.elements "t" q ≡ true) × (names tpl'.elements "t" q ≡ true))
unfolding Map.get
join-overlap_example = join-overlap "a" "b" "t" 1 counts refl refl as_given "g" given-IsOrder

abbrev calls : List Call
calls =
    joins as_given "g" "a" ("t" ∷ [])
    ∷ joins as_given "g" "b" ("t" ∷ [])
    ∷ leaves as_given "g" "a"
    ∷ []

reached-HasOneReader_example : HasOneReader (run started calls)
reached-HasOneReader_example =
    reached-HasOneReader client started calls new-started
      (given-IsOrder, (given-IsOrder, (given-IsOrder, tt)))

abbrev grouped_reader : BaseConsumer
grouped_reader = record reader { group_id = some "g" }

abbrev world : World
world = record { consumers = grouped_reader ∷ []; contexts = [] ∷ []; broker = filled }

clone_subscribes_example :
    let (r, w') = clone_consumer 0 "m2" world in
    let (r', w'') = (base_consumer as_given).subscribe 1 ("t" ∷ []) w' in
    (r ≡ ok 1)
    × (r' ≡ ok tt)
    × (w''.broker ≡ filled)
    × (get_elem? w''.consumers 0 ≡ some grouped_reader)
    × ((d : BaseConsumer) × (tpl : TopicPartitionList) × (get_elem? w''.consumers 1 ≡ some d)
        × (d.context ≡ 0)
        × (d.member_id ≡ "m2")
        × (d.assigned_partitions ≡ tpl)
        × (tpl.elements ≡ existing filled.backend ("t" ∷ []))
        × (get_elem? w''.contexts 0 ≡ some (assigned tpl ∷ [])))
clone_subscribes_example =
    clone_subscribes as_given world 0 grouped_reader [] "m2" ("t" ∷ []) filled-IsBroker refl refl
      refl refl

abbrev alone : Client
alone = record { consumer = reader; broker = filled; callbacks = [] }

subscribe_direct_example :
    let (r, w') = subscribe as_given ("t" ∷ "u" ∷ []) alone in
    (r ≡ ok tt)
    × (w'.broker ≡ alone.broker)
    × (w'.consumer.assigned_partitions.elements ≡ existing alone.broker.backend ("t" ∷ "u" ∷ []))
    × (w'.consumer.subscribed_topics ≡ "t" ∷ "u" ∷ [])
    × (w'.consumer.position ≡ alone.consumer.position)
    × (w'.consumer.paused ≡ alone.consumer.paused)
subscribe_direct_example =
    subscribe_direct as_given alone ("t" ∷ "u" ∷ []) filled-IsBroker refl refl refl

abbrev late : Client
late = record { consumer = reader; broker = record filled { shutdown = true }; callbacks = [] }

subscribe_down_example :
    let (r, w') = subscribe as_given ("t" ∷ []) late in
    (r ≡ ok tt)
    × (w'.consumer.subscribed_topics ≡ "t" ∷ [])
    × (w'.consumer.assigned_partitions.elements ≡ [])
    × (poll_once late.broker w'.consumer ≡ (none, w'.consumer))
subscribe_down_example = subscribe_down as_given late ("t" ∷ []) late.broker refl refl

abbrev member : Client
member = record {
  consumer = record reader { group_id = some "g" };
  broker = record filled { consumer_groups = ("g", ConsumerGroup.new "g") ∷ [] };
  callbacks = [];
}

group_known : Map.get "g" member.broker.consumer_groups ≡ some (ConsumerGroup.new "g")
unfolding Map.get
group_known = refl

abbrev described : Metadata
described = record {
  broker_id = "b";
  topics =
      record {
        name = "t";
        partitions =
            record { id = pos 0; oldest_offset = pos 0; newest_offset = pos 0; message_count = 1 }
            ∷ [];
        error = none;
      }
      ∷ [];
}

readable : Backend.metadata member.broker.backend member.broker.config.broker_id none ≡ ok described
unfolding Backend.metadata Backend.check_shutdown Backend.topics_metadata Backend.topic_metadata
    Backend.partitions_metadata Backend.partition_metadata Topic.watermarks Topic.get_partition
    Partition.watermarks Partition.message_count
readable = refl

unsubscribe-left_example :
    let (r, w') = unsubscribe as_given member in
    (r ≡ ok tt)
    × ((g' : ConsumerGroup) × (Map.get "g" w'.broker.consumer_groups ≡ some g')
        × (ConsumerGroup.assignment g' "m" ≡ none))
    × (w'.consumer.subscribed_topics ≡ [])
    × (w'.consumer.position ≡ [])
    × (w'.consumer.paused ≡ [])
    × (poll_once filled w'.consumer ≡ (none, w'.consumer))
unsubscribe-left_example =
    unsubscribe-left as_given member "g" (ConsumerGroup.new "g") described filled refl refl
      group_known readable
