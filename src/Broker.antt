-- ===== src/Broker.antt =====
-- src/broker.rs: the broker with its in-memory backend, its groups and its offset store. Locks are
-- taken and released within a call, and a call is one step.
pub mod Membership
pub mod Calm
pub mod Valid
pub mod Groups
pub mod Runs
pub mod RoundTrip
pub mod Offsets
pub mod Exclusive
pub mod Readers
pub mod Custom
mod Tests
use rmem_queue.Base.{
  ℕ, ◌+◌, ℤ, pos, ◌+ℤ◌, wrap_i64, String, Bool, true, false, Option, none, some, List, [], ◌∷◌,
  length, string_eq, if◌then◌else◌,
}
use rmem_queue.Action.{Action, ◌>>=◌, ◌>>◌, pure, reads}
use rmem_queue.Backend
use rmem_queue.Backend.{InMemoryBackend}
use rmem_queue.Base.Map
use rmem_queue.Base.Map.{Map}
use rmem_queue.Config
use rmem_queue.Config.{RmqClientConfig, BrokerConfig}
use rmem_queue.ConsumerGroup
use rmem_queue.ConsumerGroup.{ConsumerGroup}
use rmem_queue.Error.{offset_out_of_range, broker_shutdown, Result, ok, err, panic}
use rmem_queue.Error
use rmem_queue.Headers.{Bytes, OwnedHeaders}
use rmem_queue.Message.{DynAny, StoredMessage}
use rmem_queue.Metadata.{TopicMetadata, Metadata}
use rmem_queue.OffsetStore
use rmem_queue.OffsetStore.{InMemoryOffsetStore}
use rmem_queue.Partition.{Clock}
use rmem_queue.Partitioner
use rmem_queue.Partitioner.{Partitioner, round_robin}

pub record RecordMetadata : Type 0 where
  pub topic : String
  pub partition : ℤ
  pub offset : ℤ
  pub timestamp : ℤ

-- `consumer_groups` and `shutdown` are the fields of `BrokerInner`. The assignor is always the
-- round-robin one.
pub record Broker : Type 0 where
  pub backend : InMemoryBackend
  pub consumer_groups : Map String ConsumerGroup
  pub shutdown : Bool
  pub config : BrokerConfig
  pub client_config : RmqClientConfig
  pub partitioner : Partitioner
  pub offset_store : InMemoryOffsetStore

abbrev pub with_config : RmqClientConfig → Partitioner → BrokerConfig → Broker
with_config config partitioner broker_config = record {
  backend = Backend.new broker_config;
  consumer_groups = [];
  shutdown = false;
  config = broker_config;
  client_config = config;
  partitioner = partitioner;
  offset_store = OffsetStore.new;
}

unfoldable pub with_partitioner : RmqClientConfig → Partitioner → Result Broker
with_partitioner config partitioner =
    Error.◌>>=◌ (Config.from_config config)
      λ broker_config. ok (with_config config partitioner broker_config)

unfoldable pub new : RmqClientConfig → Result Broker
new config =
    Error.◌>>=◌ (Config.from_config config)
      λ broker_config. ok (with_config config (round_robin (pos 0)) broker_config)

unfoldable pub check_shutdown : Broker → Result (Unit {0})
check_shutdown b = if b.shutdown then err broker_shutdown else ok tt

-- A call on the backend.
abbrev pub on_backend :
    {A : Type 0} → (InMemoryBackend → Result A × InMemoryBackend) → Action Broker A
on_backend f b = let (r, backend) = f b.backend in (r, record b { backend = backend })

unfoldable pub ensure_topic : String → ℤ → Action Broker (Unit {0})
ensure_topic topic num_partitions =
    on_backend λ backend. Backend.ensure_topic backend topic num_partitions

-- `meta.topics.first().map(|t| t.partitions.len() as i32).unwrap_or(default)`
abbrev pub first_count : ℤ → List TopicMetadata → ℤ
first_count default [] = default
first_count default (t ∷ ts) = pos (length t.partitions)

unfoldable pub num_partitions : String → Action Broker ℤ
num_partitions topic = reads λ b.
    Error.◌>>=◌ (Backend.metadata b.backend b.config.broker_id (some topic))
      λ meta. ok (first_count b.config.default_num_partitions meta.topics)

-- The partition asked for, or the partitioner's.
unfoldable pub choose : String → Option ℤ → Option Bytes → ℤ → Action Broker ℤ
choose topic (some p) key num_p b = (ok p, b)
choose topic none key num_p b =
    let (p, partitioner) = Partitioner.partition b.partitioner topic key num_p in
    (ok p, record b { partitioner = partitioner })

abbrev pub record_metadata : String → ℤ × ℤ × ℤ → RecordMetadata
record_metadata topic (partition_id, offset, ts) = record {
  topic = topic;
  partition = partition_id;
  offset = offset;
  timestamp = ts;
}

unfoldable pub produce :
    Clock
    → String
    → Option ℤ
    → Option Bytes
    → Option Bytes
    → Option OwnedHeaders
    → Option ℤ
    → Action Broker RecordMetadata
produce clock topic partition key payload headers timestamp = do
  reads check_shutdown
  (λ b. ensure_topic topic b.config.default_num_partitions b)
  num_p ← num_partitions topic
  p ← choose topic partition key num_p
  stored ← on_backend λ backend. Backend.produce clock backend topic p key payload headers timestamp
  pure (record_metadata topic stored)

unfoldable pub produce_typed :
    Clock
    → String
    → Option ℤ
    → DynAny
    → Option DynAny
    → Option OwnedHeaders
    → Option ℤ
    → Action Broker RecordMetadata
produce_typed clock topic partition typed_payload typed_key headers timestamp = do
  reads check_shutdown
  (λ b. ensure_topic topic b.config.default_num_partitions b)
  num_p ← num_partitions topic
  p ← choose topic partition none num_p
  stored ← on_backend λ backend.
      Backend.produce_typed clock backend topic p typed_payload typed_key headers timestamp
  pure (record_metadata topic stored)

unfoldable pub fetch : Broker → String → ℤ → ℤ → ℕ → Result (List StoredMessage)
fetch b topic partition offset max_count = Backend.fetch b.backend topic partition offset max_count

abbrev oldest_available : Broker → String → ℤ → Result ℤ
oldest_available b topic partition =
    Error.◌>>=◌ (Backend.watermarks b.backend topic partition) λ marks. ok marks.0

-- The offset after the committed one, or the oldest available.
abbrev after_committed : Broker → String → ℤ → Result (Option ℤ) → Result ℤ
after_committed b topic partition (ok (some committed)) = ok (wrap_i64 (committed +ℤ pos 1))
after_committed b topic partition panic = panic
after_committed b topic partition _ = oldest_available b topic partition

-- The offset from which a consumer reads on.
unfoldable pub resume_offset : Broker → String → ℤ → Option ℤ → Option String → Result ℤ
resume_offset b topic partition (some o) group_id = ok o
resume_offset b topic partition none none = oldest_available b topic partition
resume_offset b topic partition none (some gid) = elim (Map.get gid b.consumer_groups) [
  | some group ↦
      after_committed b topic partition
        (ConsumerGroup.committed_offset b.offset_store group topic partition)
  | none ↦ oldest_available b topic partition
]

-- An offset out of range is reported with the oldest available one in its place.
abbrev adjusted :
    Broker → String → ℤ → Result (Option StoredMessage) → Result (Option StoredMessage)
adjusted b topic partition (err (offset_out_of_range _ _ _)) =
    Error.◌>>=◌ (oldest_available b topic partition)
      λ oldest. err (offset_out_of_range topic partition oldest)
adjusted b topic partition r = r

unfoldable pub fetch_one_from_position :
    Broker → String → ℤ → Option ℤ → Option String → Result (Option StoredMessage)
fetch_one_from_position b topic partition position group_id = Error.◌>>◌ (check_shutdown b) (
    Error.◌>>=◌ (resume_offset b topic partition position group_id)
      λ offset. adjusted b topic partition (Backend.fetch_one b.backend topic partition offset))

unfoldable pub metadata : Broker → Option String → Result Metadata
metadata b topic =
    Error.◌>>◌ (check_shutdown b) (Backend.metadata b.backend b.config.broker_id topic)

unfoldable pub watermarks : Broker → String → ℤ → Result (ℤ × ℤ)
watermarks b topic partition = Backend.watermarks b.backend topic partition

unfoldable pub shutdown_broker : Action Broker (Unit {0})
shutdown_broker b = on_backend Backend.shutdown (record b { shutdown = true })

unfoldable pub get_partition_notifies : Broker → List String → List (String × ℤ)
get_partition_notifies b topics = Backend.get_partition_notifies b.backend topics
