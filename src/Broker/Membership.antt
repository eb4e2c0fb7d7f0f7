-- ===== src/Broker/Membership.antt =====
-- The calls of src/broker.rs on consumer groups and their offsets.
use rmem_queue.Base.{
  ℤ, pos, String, Option, none, some, List, [], ◌∷◌, length, find, ◌==◌, string_eq,
}
use rmem_queue.Action.{Action, ◌>>=◌, ◌>>◌, pure, reads}
use rmem_queue.Backend
use rmem_queue.Backend.{InMemoryBackend}
use rmem_queue.Base.Map
use rmem_queue.Base.Map.{Map}
use rmem_queue.ConsumerGroup
use rmem_queue.ConsumerGroup.{ConsumerGroup}
use rmem_queue.Error.{
  RmqError, offset_out_of_range, group_not_found, broker_shutdown, Result, ok, err, panic, ok_or,
}
use rmem_queue.Error
use rmem_queue.Metadata.{TopicMetadata}
use rmem_queue.OffsetStore.{InMemoryOffsetStore}
use rmem_queue.TopicPartition.{TopicPartitionList}
use rmem_queue.Broker.{Broker, check_shutdown, ensure_topic}

-- `for topic in topics { self.ensure_topic(…)?; }`
unfoldable pub ensure_topics : List String → Action Broker (Unit {0})
ensure_topics [] = pure tt
ensure_topics (topic ∷ topics) = do
  (λ b. ensure_topic topic b.config.default_num_partitions b)
  ensure_topics topics

-- The partition counts of the topics asked for that the metadata knows.
unfoldable pub counts_of : List TopicMetadata → List String → Map String ℤ
counts_of metas [] = []
counts_of metas (topic ∷ topics) = elim (find (λ t. t.name == topic) metas) [
  | some tm ↦ Map.insert topic (pos (length tm.partitions)) (counts_of metas topics)
  | none ↦ counts_of metas topics
]

unfoldable pub all_counts : List TopicMetadata → Map String ℤ
all_counts [] = []
all_counts (t ∷ ts) = Map.insert t.name (pos (length t.partitions)) (all_counts ts)

abbrev pub group_or_new : Broker → String → ConsumerGroup
group_or_new b group_id = elim (Map.get group_id b.consumer_groups) [
  | some g ↦ g
  | none ↦ ConsumerGroup.new group_id
]

-- A call on a group, which the map of groups shares.
abbrev pub on_group :
    {A : Type 0}
    → String
    → ConsumerGroup
    → (ConsumerGroup → Result A × ConsumerGroup)
    → Action Broker A
on_group group_id g f b =
    let (r, g') = f g in
    (r, record b { consumer_groups = Map.insert group_id g' b.consumer_groups })

unfoldable pub all_metadata : Action Broker (List TopicMetadata)
all_metadata =
    reads
      λ b. Error.◌>>=◌ (Backend.metadata b.backend b.config.broker_id none) λ meta. ok meta.topics

-- `order` is the order in which the assignor's set of topics is iterated.
unfoldable pub join_group :
    (List String → List String) → String → String → List String → Action Broker TopicPartitionList
join_group order group_id member_id topics = do
  reads check_shutdown
  ensure_topics topics
  group ← (λ b. on_group group_id (group_or_new b group_id) (λ g. (ok g, g)) b)
  metas ← all_metadata
  on_group group_id group λ g. ConsumerGroup.join order g member_id topics (counts_of metas topics)

abbrev pub find_group : Broker → String → Result ConsumerGroup
find_group b group_id = ok_or (Map.get group_id b.consumer_groups) (group_not_found group_id)

unfoldable pub leave_group :
    (List String → List String) → String → String → Action Broker (Unit {0})
leave_group order group_id member_id = do
  reads check_shutdown
  group ← reads (λ b. find_group b group_id)
  metas ← all_metadata
  on_group group_id group λ g. ConsumerGroup.leave order g member_id (all_counts metas)

abbrev pub on_store :
    {A : Type 0} → (InMemoryOffsetStore → Result A × InMemoryOffsetStore) → Action Broker A
on_store f b = let (r, store) = f b.offset_store in (r, record b { offset_store = store })

unfoldable pub commit_offset : String → String → ℤ → ℤ → Action Broker (Unit {0})
commit_offset group_id topic partition offset = do
  reads check_shutdown
  group ← reads (λ b. find_group b group_id)
  on_store λ store. ConsumerGroup.commit_offset store group topic partition offset

unfoldable pub committed_offset : Broker → String → String → ℤ → Result (Option ℤ)
committed_offset b group_id topic partition = Error.◌>>◌ (check_shutdown b) (
    Error.◌>>=◌ (find_group b group_id)
      λ group. ConsumerGroup.committed_offset b.offset_store group topic partition)
