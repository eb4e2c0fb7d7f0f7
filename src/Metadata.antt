-- ===== src/Metadata.antt =====
-- src/metadata.rs
use rmem_queue.Base.{ℕ, ℤ, String, Option, List}
use rmem_queue.Error.{RmqError}

pub record PartitionMetadata : Type 0 where
  pub id : ℤ
  pub oldest_offset : ℤ
  pub newest_offset : ℤ
  pub message_count : ℕ

pub record TopicMetadata : Type 0 where
  pub name : String
  pub partitions : List PartitionMetadata
  pub error : Option RmqError

pub record Metadata : Type 0 where
  pub broker_id : String
  pub topics : List TopicMetadata
