-- ===== src/Consumer/Stored.antt =====
-- A seek to the stored offset, and where a consumer without a position reads on.
use rmem_queue.Base.{
  ℕ, ◌+◌, ◌<◌, ◌^◌, ℤ, pos, ◌+ℤ◌, wrap_i64, wrap_i64_exact, String, ◌≡◌, refl, ap, ◌∙◌, false, none,
  some, string_eq, int_eq, pair_eq, arith,
}
use rmem_queue.Base.Map
use rmem_queue.Base.Map.{get-insert_self}
use rmem_queue.Broker
use rmem_queue.Broker.{Broker}
use rmem_queue.Broker.Membership
use rmem_queue.Consumer.{Client}
use rmem_queue.Consumer.Positions.{seek, seek_offset}
use rmem_queue.ConsumerGroup
use rmem_queue.ConsumerGroup.{ConsumerGroup}
use rmem_queue.Error.{ok}
use rmem_queue.TopicPartition.{stored}

one_more : (n : ℕ) → pos n +ℤ pos 1 ≡ pos (n + 1)
one_more n = ground arith

-- When a group has committed the offset `n`, a seek to the stored offset puts a consumer of the group
-- at `n`, while without a seek and without a position it reads on at `n + 1`.
pub seek-stored :
    (w : Client) (gid : String) (g : ConsumerGroup) (topic : String) (partition : ℤ) (n : ℕ)
    → w.broker.shutdown ≡ false
    → w.consumer.group_id ≡ some gid
    → Map.get gid w.broker.consumer_groups ≡ some g
    → ConsumerGroup.committed_offset w.broker.offset_store g topic partition ≡ ok (some (pos n))
    → n + 1 < 2 ^ 63
    → ((seek topic partition stored w).0 ≡ ok tt)
      × (Map.get (topic, partition) (seek topic partition stored w).1.consumer.position
          ≡ some (pos n))
      × (Broker.resume_offset w.broker topic partition none (some gid) ≡ ok (pos (n + 1)))
unfolding seek seek_offset Membership.committed_offset Broker.check_shutdown Broker.resume_offset
seek-stored w gid g topic partition n up member known committed small =
    let at : seek_offset w topic partition stored ≡ ok (pos n) =
      rw (member, up, known, committed) refl in
    let next : wrap_i64 (pos n +ℤ pos 1) ≡ pos (n + 1) =
      ap wrap_i64 (one_more n) ∙ wrap_i64_exact (pos (n + 1)) (omega arith, omega arith) in
    (
      rw at refl,
      rw at (get-insert_self (topic, partition) (pos n) w.consumer.position),
      ground (arith, known, committed, next),
    )
