-- ===== src/ConsumerGroup.antt =====
-- src/consumer_group.rs: the members of a group and their assignments. Each call holds the group's
-- write lock from its start to its end.
pub mod Join
pub mod Leave
pub mod Exclusive
pub mod Told
pub mod Overlap
use Prim.Native.String.{◌++◌ as str_append}
use rmem_queue.Base.{ℤ, String, Option, List, [], string_eq, if◌then◌else◌}
use rmem_queue.Base.Map
use rmem_queue.Base.Map.{Map}
use rmem_queue.Assignor.{assign}
use rmem_queue.Error.{custom, Result, ok, err, panic, ok_or}
use rmem_queue.OffsetStore
use rmem_queue.OffsetStore.{InMemoryOffsetStore}
use rmem_queue.Partition.{is_empty}
use rmem_queue.TopicPartition.{TopicPartitionList}

pub record GroupMember : Type 0 where
  pub member_id : String
  pub subscribed_topics : List String

pub record GroupState : Type 0 where
  pub members : Map String GroupMember
  pub member_topics : Map String (List String)
  pub assignments : Map String TopicPartitionList

-- The assignor and the offset store are shared objects, and come as arguments.
pub record ConsumerGroup : Type 0 where
  pub group_id : String
  pub state : GroupState

unfoldable pub new : String → ConsumerGroup
new group_id = record {
  group_id = group_id;
  state = record { members = []; member_topics = []; assignments = [] };
}

-- A failed assignment keeps the old one.
unfoldable pub rebalance :
    (List String → List String) → GroupState → Map String ℤ → Result GroupState
rebalance order s counts =
    if is_empty s.members
    then ok (record s { assignments = [] })
    else elim (assign order s.member_topics counts) [
      | ok assignments ↦ ok (record s { assignments = assignments })
      | err _ ↦ ok s
      | panic ↦ panic
    ]

abbrev pub registered : GroupState → String → List String → GroupState
registered s member_id topics = record s {
  members =
      Map.insert member_id (record { member_id = member_id; subscribed_topics = topics }) s.members;
  member_topics = Map.insert member_id topics s.member_topics;
}

unfoldable pub join :
    (List String → List String)
    → ConsumerGroup
    → String
    → List String
    → Map String ℤ
    → Result TopicPartitionList × ConsumerGroup
join order g member_id topics counts =
    let s = registered g.state member_id topics in
    elim (rebalance order s counts) [
      | ok s' ↦ (
        ok_or (Map.get member_id s'.assignments)
            (custom (str_append "no assignment for member " member_id)),
        record g { state = s' },
      )
      | err e ↦ (err e, record g { state = s })
      | panic ↦ (panic, record g { state = s })
    ]

abbrev pub unregistered : GroupState → String → GroupState
unregistered s member_id = record {
  members = Map.remove member_id s.members;
  member_topics = Map.remove member_id s.member_topics;
  assignments = Map.remove member_id s.assignments;
}

unfoldable pub leave :
    (List String → List String)
    → ConsumerGroup
    → String
    → Map String ℤ
    → Result (Unit {0}) × ConsumerGroup
leave order g member_id counts =
    let s = unregistered g.state member_id in
    if is_empty s.members
    then (ok tt, record g { state = s })
    else elim (rebalance order s counts) [
      | ok s' ↦ (ok tt, record g { state = s' })
      | err e ↦ (err e, record g { state = s })
      | panic ↦ (panic, record g { state = s })
    ]

unfoldable pub commit_offset :
    InMemoryOffsetStore → ConsumerGroup → String → ℤ → ℤ → Result (Unit {0}) × InMemoryOffsetStore
commit_offset store g topic partition offset =
    OffsetStore.commit store g.group_id topic partition offset

unfoldable pub committed_offset :
    InMemoryOffsetStore → ConsumerGroup → String → ℤ → Result (Option ℤ)
committed_offset store g topic partition = OffsetStore.committed store g.group_id topic partition

unfoldable pub assignment : ConsumerGroup → String → Option TopicPartitionList
assignment g member_id = Map.get member_id g.state.assignments
