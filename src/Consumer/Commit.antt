-- ===== src/Consumer/Commit.antt =====
-- Committing a message, and where the group then reads on.
use rmem_queue.Broker.Membership
use rmem_queue.Base.{
  ℕ, ◌+◌, ◌<◌, ◌^◌, pos, ◌+ℤ◌, wrap_i64, String, ◌≡◌, refl, ap, ◌∙◌, false, none, some, string_eq,
  arith, wrap_i64_exact,
}
use rmem_queue.Base.Map
use rmem_queue.Broker
use rmem_queue.Broker.{Broker}
use rmem_queue.Broker.Offsets.{commit_offset_lem, resume-commit}
use rmem_queue.Broker.Valid.{IsBroker}
use rmem_queue.Config.{BrokerConfig}
use rmem_queue.Consumer.{Client}
use rmem_queue.Consumer.Commits.{commit_elements, commit_for_group, commit, commit_message}
use rmem_queue.ConsumerGroup.{ConsumerGroup}
use rmem_queue.Error.{ok}
use rmem_queue.Message.{BorrowedMessage}

-- Committing a message commits the offset after its own for its group.
pub commit_message_lem :
    (w : Client) (m : BorrowedMessage) (gid : String) (g : ConsumerGroup)
    → w.broker.shutdown ≡ false
    → w.consumer.group_id ≡ some gid
    → Map.get gid w.broker.consumer_groups ≡ some g
    → (commit_message m w).1.broker
      ≡ (Membership.commit_offset gid m.inner.topic m.inner.partition
          (m.inner.offset +ℤ pos 1)
          w.broker).1
unfolding commit_message commit commit_for_group commit_elements
commit_message_lem w m gid g up member found =
    rw
      (
        member,
        commit_offset_lem w.broker gid m.inner.topic m.inner.partition (m.inner.offset +ℤ pos 1) g
            up found,
      )
      refl

two_more : (n : ℕ) → pos n +ℤ pos 1 +ℤ pos 1 ≡ pos (n + 2)
two_more n = ground arith

-- After `commit_message` of the message at offset `n`, a consumer of the group without a position
-- reads on at `n + 2`: the message at `n + 1` is passed over.
pub resume-commit_message :
    {c : BrokerConfig} (w : Client) (m : BorrowedMessage) (gid : String) (g : ConsumerGroup) (n : ℕ)
    → IsBroker c w.broker
    → w.broker.shutdown ≡ false
    → w.consumer.group_id ≡ some gid
    → Map.get gid w.broker.consumer_groups ≡ some g
    → m.inner.offset ≡ pos n
    → n + 2 < 2 ^ 63
    → Broker.resume_offset
        (commit_message m w).1.broker
        m.inner.topic
        m.inner.partition
        none
        (some gid)
      ≡ ok (pos (n + 2))
resume-commit_message w m gid g n v up member found e small =
    ap (λ b. Broker.resume_offset b m.inner.topic m.inner.partition none (some gid))
      (commit_message_lem w m gid g up member found)
    ∙ resume-commit w.broker v up gid m.inner.topic m.inner.partition (m.inner.offset +ℤ pos 1) g
        found
    ∙ ap (λ z. ok (wrap_i64 (z +ℤ pos 1 +ℤ pos 1))) e
    ∙ ap (λ z. ok (wrap_i64 z)) (two_more n)
    ∙ ap ok (wrap_i64_exact (pos (n + 2)) (omega arith, omega arith))
