-- ===== src/Broker/Offsets.antt =====
-- Committed offsets, and where a consumer reads on.
use rmem_queue.Base.{
  ℕ, ℤ, pos, ◌+ℤ◌, wrap_i64, String, ◌≡◌, refl, false, Option, none, some, List, ◌==◌, string_eq,
  int_eq, pair_eq, arith, if◌then◌else◌,
}
use rmem_queue.Backend
use rmem_queue.Base.Map
use rmem_queue.Base.Map.{get-insert, get-insert_self}
use rmem_queue.Broker.{
  Broker, check_shutdown, resume_offset, shutdown_broker, produce, produce_typed, fetch,
  fetch_one_from_position, metadata, watermarks,
}
use rmem_queue.Broker.Membership.{commit_offset, committed_offset, join_group, leave_group}
use rmem_queue.Broker.Valid.{IsBroker}
use rmem_queue.Config.{BrokerConfig}
use rmem_queue.ConsumerGroup
use rmem_queue.ConsumerGroup.{ConsumerGroup}
use rmem_queue.Error.{ok, err, broker_shutdown}
use rmem_queue.Headers.{Bytes, OwnedHeaders}
use rmem_queue.Message.{DynAny}
use rmem_queue.OffsetStore
use rmem_queue.OffsetStore.{Key}
use rmem_queue.Partition.{Clock}

abbrev pub key_of : String → String → ℤ → Key
key_of gid topic p = (gid, (topic, p))

-- A commit writes the store at the id of its group.
pub commit_offset_lem :
    (b : Broker) (gid topic : String) (p o : ℤ) (g : ConsumerGroup)
    → b.shutdown ≡ false
    → Map.get gid b.consumer_groups ≡ some g
    → commit_offset gid topic p o b ≡ (
      ok tt,
      record b { offset_store = (OffsetStore.commit b.offset_store g.group_id topic p o).1 },
    )
unfolding commit_offset check_shutdown ConsumerGroup.commit_offset OffsetStore.commit
commit_offset_lem b gid topic p o g up found = rw (up, found) refl

module _ {c : BrokerConfig} (b : Broker) (v : IsBroker c b) (up : b.shutdown ≡ false)
    (gid topic : String) (p o : ℤ) (g : ConsumerGroup)
    (found : Map.get gid b.consumer_groups ≡ some g) where
  -- In a valid broker that is not shut down, what is committed for a partition by a known group is
  -- what that group has committed there afterwards; other groups, topics and partitions keep theirs.
  pub committed-commit :
      (gid' topic' : String) (p' : ℤ) (g' : ConsumerGroup)
      → Map.get gid' b.consumer_groups ≡ some g'
      → committed_offset (commit_offset gid topic p o b).1 gid' topic' p' ≡ (
          if key_of gid topic p == key_of gid' topic' p'
          then ok (some o)
          else committed_offset b gid' topic' p')
  unfolding committed_offset check_shutdown ConsumerGroup.committed_offset OffsetStore.committed
      OffsetStore.commit
  committed-commit gid' topic' p' g' found' = ground (
    arith,
    commit_offset_lem b gid topic p o g up found,
    up,
    found',
    v.named gid g found,
    v.named gid' g' found',
    get-insert (key_of gid topic p) (key_of gid' topic' p') o b.offset_store.offsets,
  )

  -- Without a position a consumer of the group reads on one past the committed offset, as an `i64`.
  pub resume-commit :
      resume_offset (commit_offset gid topic p o b).1 topic p none (some gid)
      ≡ ok (wrap_i64 (o +ℤ pos 1))
  unfolding resume_offset ConsumerGroup.committed_offset OffsetStore.committed OffsetStore.commit
  resume-commit = ground (
    arith,
    commit_offset_lem b gid topic p o g up found,
    found,
    v.named gid g found,
    get-insert_self (key_of gid topic p) o b.offset_store.offsets,
  )

-- A broker that was shut down refuses every call on messages, groups and offsets, and such a call
-- changes nothing.
pub shutdown_refuses_all :
    (b : Broker) (clock : Clock) (order : List String → List String) (gid m topic : String)
    (topics : List String) (p o : ℤ) (max : ℕ) (partition position : Option ℤ)
    (key payload : Option Bytes) (x : DynAny) (y : Option DynAny) (headers : Option OwnedHeaders)
    (ts : Option ℤ) (group : Option String)
    → let down = (shutdown_broker b).1 in
      (produce clock topic partition key payload headers ts down ≡ (err broker_shutdown, down))
      × (produce_typed clock topic partition x y headers ts down ≡ (err broker_shutdown, down))
      × (fetch down topic p o max ≡ err broker_shutdown)
      × (fetch_one_from_position down topic p position group ≡ err broker_shutdown)
      × (metadata down (some topic) ≡ err broker_shutdown)
      × (watermarks down topic p ≡ err broker_shutdown)
      × (join_group order gid m topics down ≡ (err broker_shutdown, down))
      × (leave_group order gid m down ≡ (err broker_shutdown, down))
      × (commit_offset gid topic p o down ≡ (err broker_shutdown, down))
      × (committed_offset down gid topic p ≡ err broker_shutdown)
unfolding shutdown_broker Backend.shutdown produce produce_typed fetch fetch_one_from_position
    metadata watermarks join_group leave_group commit_offset committed_offset check_shutdown
    Backend.fetch Backend.watermarks Backend.check_shutdown
shutdown_refuses_all b clock order gid m topic topics p o max partition position key payload x y
      headers ts group =
    (refl, refl, refl, refl, refl, refl, refl, refl, refl, refl)
