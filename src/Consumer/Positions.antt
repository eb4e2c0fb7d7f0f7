-- ===== src/Consumer/Positions.antt =====
-- The positions of a consumer: `seek`, `store_offset` and `position` of src/base_consumer.rs.
use rmem_queue.Base.{
  ℤ, pos, negsuc, ◌+ℤ◌, ◌-ℤ◌, ltb_ℤ, wrap_i64, String, Option, none, some, List, [], ◌∷◌, nat_eq,
  int_eq, string_eq, pair_eq, if◌then◌else◌,
}
use rmem_queue.Action.{Action, ◌>>=◌, reads}
use rmem_queue.Base.Map
use rmem_queue.Base.Map.{Map}
use rmem_queue.Broker
use rmem_queue.Broker.{Broker}
use rmem_queue.Error.{
  RmqError, topic_not_found, partition_out_of_range, offset_out_of_range, Result, ok, err, panic,
}
use rmem_queue.Error
use rmem_queue.TopicPartition.{
  Offset, beginning, end, stored, offset, offset_tail, TopicPartitionElem, TopicPartitionList,
  add_partition, add_partition_offset,
}
use rmem_queue.TopicPartition
use rmem_queue.Consumer.{BaseConsumer, Client, update}
use rmem_queue.Broker.Membership

abbrev max_zero : ℤ → ℤ
max_zero z = if ltb_ℤ z (pos 0) then pos 0 else z

abbrev committed_or_zero : Option ℤ → ℤ
committed_or_zero none = pos 0
committed_or_zero (some o) = o

-- The offset that `seek` sets the position to.
unfoldable pub seek_offset : Client → String → ℤ → Offset → Result ℤ
seek_offset w topic partition beginning =
    Error.◌>>=◌ (Broker.watermarks w.broker topic partition) λ marks. ok marks.0
seek_offset w topic partition end =
    Error.◌>>=◌ (Broker.watermarks w.broker topic partition) λ marks. ok (marks.1 +ℤ pos 1)
seek_offset w topic partition (offset o) = ok o
seek_offset w topic partition stored = elim w.consumer.group_id [
  | some gid ↦
      (Error.◌>>=◌ (Membership.committed_offset w.broker gid topic partition)
        λ o. ok (committed_or_zero o))
  | none ↦ ok (pos 0)
]
seek_offset w topic partition (offset_tail tail) =
    Error.◌>>=◌ (Broker.watermarks w.broker topic partition)
      λ marks. ok (max_zero (wrap_i64 (marks.1 +ℤ pos 1 -ℤ tail)))

abbrev pub set_position : BaseConsumer → String → ℤ → ℤ → BaseConsumer
set_position c topic partition o = record c {
  position = Map.insert (topic, partition) o c.position;
}

unfoldable pub seek : String → ℤ → Offset → Action Client (Unit {0})
seek topic partition o = do
  offset_val ← reads (λ w. seek_offset w topic partition o)
  update λ c. set_position c topic partition offset_val

unfoldable pub store_offset : BaseConsumer → String → ℤ → ℤ → BaseConsumer
store_offset c topic partition o = set_position c topic partition o

abbrev pub offset_or : ℤ → Option ℤ → ℤ
offset_or d none = d
offset_or d (some o) = o

unfoldable pub position_elements :
    BaseConsumer → TopicPartitionList → List TopicPartitionElem → TopicPartitionList
position_elements c tpl [] = tpl
position_elements c tpl (elem ∷ elems) =
    let o = offset_or (negsuc 0) (Map.get (elem.topic, elem.partition) c.position) in
    position_elements c (add_partition_offset tpl elem.topic elem.partition (offset o)) elems

unfoldable pub position_list : BaseConsumer → TopicPartitionList
position_list c = position_elements c TopicPartition.new c.assigned_partitions.elements
