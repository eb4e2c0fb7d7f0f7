-- ===== src/Backend.antt =====
-- src/broker_backend.rs: the in-memory backend, a map of topics with a shutdown flag.
pub mod Valid
pub mod Notify
pub mod Laws
pub mod RoundTrip
use rmem_queue.Base.{
  ℕ, zero, suc, ◌+◌, ℤ, pos, negsuc, pos_part, String, Bool, true, false, Option, none, some, List,
  [], ◌∷◌, ◌++◌, ltb_ℤ, string_eq, nat_eq, if◌then◌else◌,
}
use rmem_queue.Base.Map
use rmem_queue.Base.Map.{Map}
use rmem_queue.Config.{BrokerConfig}
use rmem_queue.Error.{
  topic_not_found, broker_shutdown, Result, ok, err, panic, ok_or, result_or, ◌>>=◌, ◌>>◌,
}
use rmem_queue.Headers.{Bytes, OwnedHeaders}
use rmem_queue.Message.{DynAny, StoredMessage}
use rmem_queue.Metadata.{PartitionMetadata, TopicMetadata, Metadata}
use rmem_queue.Partition.{PartitionConfig, Clock, message_count, timestamp_or}
use rmem_queue.Topic
use rmem_queue.Topic.{Topic}

-- `InMemoryBackend` with its `InMemoryInner`.
pub record InMemoryBackend : Type 0 where
  pub topics : Map String Topic
  pub shutdown : Bool
  pub config : BrokerConfig

unfoldable pub new : BrokerConfig → InMemoryBackend
new config = record { topics = []; shutdown = false; config = config }

unfoldable pub check_shutdown : InMemoryBackend → Result (Unit {0})
check_shutdown b = if b.shutdown then err broker_shutdown else ok tt

unfoldable pub make_partition_config : InMemoryBackend → PartitionConfig
make_partition_config b = record {
  max_capacity = b.config.buffer_capacity;
  retention_ms = b.config.retention_ms;
  retention_capacity = b.config.retention_capacity;
}

unfoldable pub get_topic : InMemoryBackend → String → Result Topic
get_topic b topic = ok_or (Map.get topic b.topics) (topic_not_found topic)

-- The metadata of one partition of a topic.
unfoldable pub partition_metadata : Topic → ℤ → Result PartitionMetadata
partition_metadata t i = do
  marks ← result_or (Topic.watermarks t i) (pos 0, negsuc 0)
  count ← result_or (Topic.get_partition t i >>= λ p. ok (message_count p)) 0
  ok (record { id = i; oldest_offset = marks.0; newest_offset = marks.1; message_count = count })

-- The loop over `i..i + n`.
unfoldable pub partitions_metadata : Topic → ℕ → ℕ → Result (List PartitionMetadata)
partitions_metadata t i zero = ok []
partitions_metadata t i (suc n) = do
  m ← partition_metadata t (pos i)
  rest ← partitions_metadata t (i + 1) n
  ok (m ∷ rest)

-- `Vec::with_capacity` panics on the capacity that a negative count is cast to.
unfoldable pub topic_metadata : Topic → Result TopicMetadata
topic_metadata t = if ltb_ℤ t.partition_count (pos 0) then panic else do
  partitions ← partitions_metadata t 0 (pos_part t.partition_count)
  ok (record { name = t.name; partitions = partitions; error = none })

unfoldable pub topics_metadata : List Topic → Result (List TopicMetadata)
topics_metadata [] = ok []
topics_metadata (t ∷ ts) = do m ← topic_metadata t; rest ← topics_metadata ts; ok (m ∷ rest)

-- The write lock is held from the second test on, so the two tests are one.
unfoldable pub ensure_topic : InMemoryBackend → String → ℤ → Result (Unit {0}) × InMemoryBackend
ensure_topic b topic num_partitions =
    if b.shutdown then (err broker_shutdown, b) else elim (Map.get topic b.topics) [
      | some _ ↦ (ok tt, b)
      | none ↦
          let t = Topic.new topic num_partitions (make_partition_config b) in
          (ok tt, record b { topics = Map.insert topic t b.topics })
    ]

-- `get_topic` hands out the shared topic; what a call does to it is written back here.
abbrev pub with_topic :
    {A : Type 0}
    → InMemoryBackend
    → String
    → (Topic → Result A × Topic)
    → Result A × InMemoryBackend
with_topic b topic f = if b.shutdown then (err broker_shutdown, b) else elim (get_topic b topic) [
  | ok t ↦ let (r, t') = f t in (r, record b { topics = Map.insert topic t' b.topics })
  | err e ↦ (err e, b)
  | panic ↦ (panic, b)
]

abbrev stamped : ℤ → Result (ℤ × ℤ) → Result (ℤ × ℤ × ℤ)
stamped ts (ok (partition_id, offset)) = ok (partition_id, offset, ts)
stamped ts (err e) = err e
stamped ts panic = panic

-- The clock is read for the timestamp here, and not again below, where it is given.
unfoldable pub produce :
    Clock
    → InMemoryBackend
    → String
    → ℤ
    → Option Bytes
    → Option Bytes
    → Option OwnedHeaders
    → Option ℤ
    → Result (ℤ × ℤ × ℤ) × InMemoryBackend
produce clock b topic partition key payload headers timestamp =
    let ts = timestamp_or timestamp clock in
    let (r, b') =
      with_topic b topic λ t. Topic.produce clock t partition key payload headers (some ts) in
    (stamped ts r, b')

unfoldable pub produce_typed :
    Clock
    → InMemoryBackend
    → String
    → ℤ
    → DynAny
    → Option DynAny
    → Option OwnedHeaders
    → Option ℤ
    → Result (ℤ × ℤ × ℤ) × InMemoryBackend
produce_typed clock b topic partition typed_payload typed_key headers timestamp =
    let ts = timestamp_or timestamp clock in
    let (r, b') =
      with_topic b topic
        λ t. Topic.produce_typed clock t partition typed_payload typed_key headers (some ts) in
    (stamped ts r, b')

unfoldable pub fetch : InMemoryBackend → String → ℤ → ℤ → ℕ → Result (List StoredMessage)
fetch b topic partition offset max_count =
    check_shutdown b >> (get_topic b topic >>= λ t. Topic.fetch t partition offset max_count)

unfoldable pub fetch_one : InMemoryBackend → String → ℤ → ℤ → Result (Option StoredMessage)
fetch_one b topic partition offset =
    check_shutdown b >> (get_topic b topic >>= λ t. Topic.fetch_one t partition offset)

unfoldable pub watermarks : InMemoryBackend → String → ℤ → Result (ℤ × ℤ)
watermarks b topic partition =
    check_shutdown b >> (get_topic b topic >>= λ t. Topic.watermarks t partition)

-- All topics come in the order of the map, which Rust leaves open.
unfoldable pub metadata : InMemoryBackend → String → Option String → Result Metadata
metadata b broker_id topic = do
  check_shutdown b
  topics ← elim topic [
    | some name ↦ (get_topic b name >>= λ t. topic_metadata t >>= λ m. ok (m ∷ []))
    | none ↦ topics_metadata (Map.values b.topics)
  ]
  ok (record { broker_id = broker_id; topics = topics })

-- The notifications of the partitions `i..i + n` of a topic, by topic and index.
unfoldable pub topic_notifies : Topic → ℕ → ℕ → List (String × ℤ)
topic_notifies t i zero = []
topic_notifies t i (suc n) =
    let rest = topic_notifies t (i + 1) n in
    elim (Topic.get_partition_notify t (pos i)) [ ok id ↦ (t.name, id) ∷ rest | _ ↦ rest ]

unfoldable pub get_partition_notifies : InMemoryBackend → List String → List (String × ℤ)
get_partition_notifies b [] = []
get_partition_notifies b (topic ∷ topics) = elim (Map.get topic b.topics) [
  | some t ↦ topic_notifies t 0 (pos_part t.partition_count) ++ get_partition_notifies b topics
  | none ↦ get_partition_notifies b topics
]

-- The loop over several notifications. `waits` says of each wait whether the deadline had passed
-- before it, and whether it timed out.
unfoldable pub wait_loop : List (Bool × Bool) → Bool
wait_loop [] = false
wait_loop ((expired, timed_out) ∷ waits) =
    let rest = wait_loop waits in if expired then false else if timed_out then rest else true

-- `waits` has an entry for each notification, in order.
unfoldable pub wait_for_messages : List (Bool × Bool) → Bool
wait_for_messages [] = false
wait_for_messages ((expired, timed_out) ∷ []) = timed_out
wait_for_messages waits = wait_loop waits

-- `notify` on the partitions `i..i + n` of a topic.
unfoldable pub notify_partitions : Topic → ℕ → ℕ → Topic
notify_partitions t i zero = t
notify_partitions t i (suc n) = notify_partitions (Topic.notify_partition t (pos i)) (i + 1) n

abbrev pub notify_topics : Map String Topic → Map String Topic
notify_topics [] = []
notify_topics ((name, t) ∷ m) =
    (name, notify_partitions t 0 (pos_part t.partition_count)) ∷ notify_topics m

unfoldable pub shutdown : InMemoryBackend → Result (Unit {0}) × InMemoryBackend
shutdown b = (ok tt, record b { shutdown = true; topics = notify_topics b.topics })
