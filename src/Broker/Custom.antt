-- ===== src/Broker/Custom.antt =====
-- src/broker.rs over a backend of the user's, an implementation of the trait `BrokerBackend` of
-- src/broker_backend.rs: `Broker::with_backend`, and the calls that reach the backend.
pub mod Memory
use rmem_queue.Base.{
  ℕ, ◌+◌, ℤ, pos, ◌+ℤ◌, wrap_i64, String, Bool, false, Option, none, some, List, [], string_eq,
  if◌then◌else◌,
}
use rmem_queue.Action.{Action, ◌>>=◌, ◌>>◌, pure, lift, reads}
use rmem_queue.Base.Map
use rmem_queue.Base.Map.{Map}
use rmem_queue.Broker.{RecordMetadata, record_metadata, first_count}
use rmem_queue.Config
use rmem_queue.Config.{RmqClientConfig, BrokerConfig}
use rmem_queue.ConsumerGroup
use rmem_queue.ConsumerGroup.{ConsumerGroup}
use rmem_queue.Error.{offset_out_of_range, broker_shutdown, custom, Result, ok, err, panic}
use rmem_queue.Error
use rmem_queue.Headers.{Bytes, OwnedHeaders}
use rmem_queue.Message.{StoredMessage}
use rmem_queue.Metadata.{Metadata}
use rmem_queue.OffsetStore
use rmem_queue.OffsetStore.{InMemoryOffsetStore}
use rmem_queue.Partition.{Clock}
use rmem_queue.Partitioner
use rmem_queue.Partitioner.{Partitioner, round_robin}

-- The trait, but for the two calls that wait, on a state `S`.
pub record BrokerBackend (S : Type 0) : Type 0 where
  pub ensure_topic : S → String → ℤ → Result (Unit {0}) × S
  pub produce :
      Clock
      → S
      → String
      → ℤ
      → Option Bytes
      → Option Bytes
      → Option OwnedHeaders
      → Option ℤ
      → Result (ℤ × ℤ × ℤ) × S
  pub fetch : S → String → ℤ → ℤ → ℕ → Result (List StoredMessage)
  pub fetch_one : S → String → ℤ → ℤ → Result (Option StoredMessage)
  pub watermarks : S → String → ℤ → Result (ℤ × ℤ)
  pub metadata : S → String → Option String → Result Metadata
  pub shutdown : S → Result (Unit {0}) × S

-- A broker whose field `in_memory` is `None`.
pub record CustomBroker (S : Type 0) : Type 0 where
  pub backend : S
  pub consumer_groups : Map String ConsumerGroup
  pub shutdown : Bool
  pub config : BrokerConfig
  pub client_config : RmqClientConfig
  pub partitioner : Partitioner
  pub offset_store : InMemoryOffsetStore

module _ {S : Type 0} ⦃ops : BrokerBackend S⦄ where
  unfoldable pub with_backend : RmqClientConfig → S → Result (CustomBroker S)
  with_backend config backend = Error.◌>>=◌ (Config.from_config config) λ broker_config.
      ok (record {
        backend = backend;
        consumer_groups = [];
        shutdown = false;
        config = broker_config;
        client_config = config;
        partitioner = round_robin (pos 0);
        offset_store = OffsetStore.new;
      })

  abbrev pub check_running : CustomBroker S → Result (Unit {0})
  check_running b = if b.shutdown then err broker_shutdown else ok tt

  abbrev pub on_custom : {A : Type 0} → (S → Result A × S) → Action (CustomBroker S) A
  on_custom f b = let (r, backend) = f b.backend in (r, record b { backend = backend })

  abbrev pub count_partitions : String → Action (CustomBroker S) ℤ
  count_partitions topic = reads λ b.
      Error.◌>>=◌ (ops.metadata b.backend b.config.broker_id (some topic))
        λ meta. ok (first_count b.config.default_num_partitions meta.topics)

  abbrev pub choose_partition : String → Option ℤ → Option Bytes → ℤ → Action (CustomBroker S) ℤ
  choose_partition topic (some p) key num_p b = (ok p, b)
  choose_partition topic none key num_p b =
      let (p, partitioner) = Partitioner.partition b.partitioner topic key num_p in
      (ok p, record b { partitioner = partitioner })

  unfoldable pub produce_custom :
      Clock
      → String
      → Option ℤ
      → Option Bytes
      → Option Bytes
      → Option OwnedHeaders
      → Option ℤ
      → Action (CustomBroker S) RecordMetadata
  produce_custom clock topic partition key payload headers timestamp = do
    reads check_running
    (λ b. on_custom (λ s. ops.ensure_topic s topic b.config.default_num_partitions) b)
    num_p ← count_partitions topic
    p ← choose_partition topic partition key num_p
    stored ← on_custom λ s. ops.produce clock s topic p key payload headers timestamp
    pure (record_metadata topic stored)

  -- `produce_typed` has no in-memory backend to store in.
  unfoldable pub produce_typed_custom : Action (CustomBroker S) RecordMetadata
  produce_typed_custom =
      reads check_running >> lift (err (custom "typed produce requires InMemoryBackend"))

  abbrev pub oldest_custom : CustomBroker S → String → ℤ → Result ℤ
  oldest_custom b topic partition =
      Error.◌>>=◌ (ops.watermarks b.backend topic partition) λ marks. ok marks.0

  -- The offset after the committed one, or the oldest available.
  abbrev pub after_custom : CustomBroker S → String → ℤ → Result (Option ℤ) → Result ℤ
  after_custom b topic partition (ok (some committed)) = ok (wrap_i64 (committed +ℤ pos 1))
  after_custom b topic partition panic = panic
  after_custom b topic partition _ = oldest_custom b topic partition

  abbrev pub resume_custom : CustomBroker S → String → ℤ → Option ℤ → Option String → Result ℤ
  resume_custom b topic partition (some o) group_id = ok o
  resume_custom b topic partition none none = oldest_custom b topic partition
  resume_custom b topic partition none (some gid) = elim (Map.get gid b.consumer_groups) [
    | some group ↦
        after_custom b topic partition
          (ConsumerGroup.committed_offset b.offset_store group topic partition)
    | none ↦ oldest_custom b topic partition
  ]

  abbrev pub adjusted_custom :
      CustomBroker S → String → ℤ → Result (Option StoredMessage) → Result (Option StoredMessage)
  adjusted_custom b topic partition (err (offset_out_of_range _ _ _)) =
      Error.◌>>=◌ (oldest_custom b topic partition)
        λ oldest. err (offset_out_of_range topic partition oldest)
  adjusted_custom b topic partition r = r

  unfoldable pub fetch_one_custom :
      CustomBroker S → String → ℤ → Option ℤ → Option String → Result (Option StoredMessage)
  fetch_one_custom b topic partition position group_id = Error.◌>>◌ (check_running b) (
      Error.◌>>=◌ (resume_custom b topic partition position group_id) λ offset.
        adjusted_custom b topic partition (ops.fetch_one b.backend topic partition offset))

  unfoldable pub shutdown_custom : Action (CustomBroker S) (Unit {0})
  shutdown_custom b = on_custom ops.shutdown (record b { shutdown = Bool.true })
