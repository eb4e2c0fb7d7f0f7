-- ===== src/Consumer/Commits.antt =====
-- Committed offsets: `commit` and `committed` of src/base_consumer.rs, `commit_message` of
-- src/consumer.rs.
use rmem_queue.Base.{
  pos, negsuc, ◌+ℤ◌, String, none, some, List, [], ◌∷◌, nat_eq, int_eq, string_eq, pair_eq,
}
use rmem_queue.Action.{Action, ◌>>◌, pure}
use rmem_queue.Broker.{Broker}
use rmem_queue.Error.{
  RmqError, topic_not_found, partition_out_of_range, offset_out_of_range, Result, ok, err, panic,
}
use rmem_queue.Error
use rmem_queue.Message.{BorrowedMessage}
use rmem_queue.TopicPartition.{
  Offset, beginning, end, stored, offset, offset_tail, TopicPartitionElem, TopicPartitionList,
  add_partition, add_partition_offset,
}
use rmem_queue.TopicPartition
use rmem_queue.Consumer.{Client, committed, on_broker, calls_back}
use rmem_queue.Broker.Membership
use rmem_queue.Consumer.Positions.{offset_or}

-- Only absolute offsets are committed; the first failure stops.
unfoldable pub commit_elements : String → List TopicPartitionElem → Action Broker (Unit {0})
commit_elements gid [] = pure tt
commit_elements gid (elem ∷ elems) =
    (elim elem.offset [
      | offset o ↦ Membership.commit_offset gid elem.topic elem.partition o
      | _ ↦ pure tt
    ])
    >> commit_elements gid elems

unfoldable pub commit_for_group : TopicPartitionList → Action Client (Unit {0})
commit_for_group tpl w = elim w.consumer.group_id [
  | some gid ↦ on_broker (commit_elements gid tpl.elements) w
  | none ↦ (ok tt, w)
]

unfoldable pub commit : TopicPartitionList → Action Client (Unit {0})
commit tpl = do commit_for_group tpl; calls_back (committed tpl)

-- The default method of the trait.
unfoldable pub commit_message : BorrowedMessage → Action Client (Unit {0})
commit_message m = commit (
    add_partition_offset TopicPartition.new m.inner.topic m.inner.partition
      (offset (m.inner.offset +ℤ pos 1)))

unfoldable pub committed_elements :
    Broker → String → TopicPartitionList → List TopicPartitionElem → Result TopicPartitionList
committed_elements b gid tpl [] = ok tpl
committed_elements b gid tpl (elem ∷ elems) =
    Error.◌>>=◌ (Membership.committed_offset b gid elem.topic elem.partition) λ o.
      committed_elements b gid
        (add_partition_offset tpl elem.topic elem.partition (offset (offset_or (negsuc 0) o))) elems

unfoldable pub committed_list : Client → Result TopicPartitionList
committed_list w = elim w.consumer.group_id [
  | some gid ↦
      committed_elements w.broker gid TopicPartition.new w.consumer.assigned_partitions.elements
  | none ↦ ok TopicPartition.new
]
