-- ===== src/Consumer/Trait.antt =====
-- The trait `Consumer` of src/consumer.rs: what a consumer offers, its default methods, and the macro
-- that passes the calls of a wrapper on.
use rmem_queue.Base.{ℤ, pos, ◌+ℤ◌, String, Option, List}
use rmem_queue.Action.{Action}
use rmem_queue.Broker
use rmem_queue.Broker.{Broker}
use rmem_queue.Error.{Result, ◌>>=◌}
use rmem_queue.Message.{BorrowedMessage}
use rmem_queue.Metadata.{Metadata}
use rmem_queue.TopicPartition.{Offset, offset, TopicPartitionList, add_partition_offset}
use rmem_queue.TopicPartition

pub data CommitMode : Type 0 where
  sync async : CommitMode

-- `T` is `&self`, and `S` what the consumers and their brokers stand in.
pub record Consumer (T S : Type 0) : Type 0 where
  pub broker : T → S → Result Broker
  pub subscribe : T → List String → Action S (Unit {0})
  pub unsubscribe : T → Action S (Unit {0})
  pub subscription : T → S → Result TopicPartitionList
  pub assign : T → TopicPartitionList → Action S (Unit {0})
  pub assignment : T → S → Result TopicPartitionList
  pub seek : T → String → ℤ → Offset → Action S (Unit {0})
  pub commit : T → TopicPartitionList → CommitMode → Action S (Unit {0})
  pub store_offset : T → String → ℤ → ℤ → Action S (Unit {0})
  pub committed : T → S → Result TopicPartitionList
  pub position : T → S → Result TopicPartitionList
  pub pause : T → TopicPartitionList → Action S (Unit {0})
  pub resume : T → TopicPartitionList → Action S (Unit {0})

module _ {T S : Type 0} (c : Consumer T S) where
  unfoldable pub commit_message : T → BorrowedMessage → CommitMode → Action S (Unit {0})
  commit_message self m mode =
      c.commit self
        (add_partition_offset TopicPartition.new m.inner.topic m.inner.partition
          (offset (m.inner.offset +ℤ pos 1)))
        mode

  unfoldable pub metadata : T → Option String → S → Result Metadata
  metadata self topic s = c.broker self s >>= λ b. Broker.metadata b topic

  unfoldable pub watermarks : T → String → ℤ → S → Result (ℤ × ℤ)
  watermarks self topic partition s = c.broker self s >>= λ b. Broker.watermarks b topic partition

-- `delegate_consumer!`: the default methods are not among the calls passed on.
unfoldable pub delegate_consumer : {T U S : Type 0} → (T → U) → Consumer U S → Consumer T S
delegate_consumer field c = record {
  broker = λ self. c.broker (field self);
  subscribe = λ self. c.subscribe (field self);
  unsubscribe = λ self. c.unsubscribe (field self);
  subscription = λ self. c.subscription (field self);
  assign = λ self. c.assign (field self);
  assignment = λ self. c.assignment (field self);
  seek = λ self. c.seek (field self);
  commit = λ self. c.commit (field self);
  store_offset = λ self. c.store_offset (field self);
  committed = λ self. c.committed (field self);
  position = λ self. c.position (field self);
  pause = λ self. c.pause (field self);
  resume = λ self. c.resume (field self);
}
