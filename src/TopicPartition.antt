-- ===== src/TopicPartition.antt =====
-- src/topic_partition.rs: offsets and lists of topic-partitions.
use rmem_queue.Base.{
  ℕ, ℤ, String, Option, List, [], ◌∷◌, ◌++◌, ◌&&◌, length, find, retain, ◌==◌, int_eq, string_eq,
}

pub data Offset : Type 0 where
  beginning end stored : Offset
  offset : ℤ → Offset
  offset_tail : ℤ → Offset

pub record TopicPartitionElem : Type 0 where
  pub topic : String
  pub partition : ℤ
  pub offset : Offset

pub record TopicPartitionList : Type 0 where
  pub elements : List TopicPartitionElem

abbrev pub new : TopicPartitionList
new = record { elements = [] }

abbrev pub add_partition_offset : TopicPartitionList → String → ℤ → Offset → TopicPartitionList
add_partition_offset tpl topic partition o =
    let elem : TopicPartitionElem = record { topic = topic; partition = partition; offset = o } in
    record { elements = tpl.elements ++ elem ∷ [] }

-- Rust's `&mut` to the new element is not modelled: no caller uses it.
abbrev pub add_partition : TopicPartitionList → String → ℤ → TopicPartitionList
add_partition tpl topic partition =
    let elem : TopicPartitionElem = record {
      topic = topic;
      partition = partition;
      offset = stored;
    } in
    record { elements = tpl.elements ++ elem ∷ [] }

unfoldable pub find_partition : TopicPartitionList → String → ℤ → Option TopicPartitionElem
find_partition tpl topic partition =
    find (λ e. e.topic == topic && e.partition == partition) tpl.elements

unfoldable pub elements_for_topic : TopicPartitionList → String → List TopicPartitionElem
elements_for_topic tpl topic = retain (λ e. e.topic == topic) tpl.elements

unfoldable pub count : TopicPartitionList → ℕ
count tpl = length tpl.elements
