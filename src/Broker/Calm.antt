-- ===== src/Broker/Calm.antt =====
-- A fetch from a valid broker (src/broker.rs) does not panic.
use rmem_queue.Base.{
  ℕ, ℤ, pos, negsuc, String, ◌≡◌, ◌≢◌, refl, sym, ◌∙◌, Option, none, some, List, get_elem?,
  string_eq, int_eq, pair_eq, nat_eq, Option-cases, inl, inr, arith,
}
use rmem_queue.Backend
use rmem_queue.Backend.{InMemoryBackend}
use rmem_queue.Backend.Valid.{IsBackend}
use rmem_queue.Base.Map
use rmem_queue.Broker.{
  Broker, fetch_one_from_position, resume_offset, oldest_available, after_committed, adjusted,
  check_shutdown,
}
use rmem_queue.ConsumerGroup
use rmem_queue.OffsetStore
use rmem_queue.Error.{
  topic_not_found, partition_out_of_range, offset_out_of_range, group_not_found, already_subscribed,
  not_subscribed, broker_shutdown, buffer_full, invalid_config, custom, Result, ok, err, panic,
  ◌>>=◌,
}
use rmem_queue.Message.{StoredMessage}
use rmem_queue.Partition
use rmem_queue.Partition.{Partition}
use rmem_queue.Partition.Spec.{IsLog, read_one_refines, spec_read_one}
use rmem_queue.Topic
use rmem_queue.Topic.{Topic, get_partition}
use rmem_queue.Topic.Laws.{get_partition_cases}

bind_calm :
    {A B : Type 0} (r : Result A) (k : A → Result B)
    → r ≢ panic
    → ((a : A) → r ≡ ok a → k a ≢ panic)
    → (r >>= k) ≢ panic
bind_calm (ok a) k calm later = later a refl
bind_calm (err e) k calm later = λ h. cc
bind_calm panic k calm later = λ h. calm refl

get_partition_calm : (t : Topic) (id : ℤ) → get_partition t id ≢ panic
get_partition_calm t id h = elim (get_partition_cases t id) [
  | inl (i, p, _, _, e) ↦ cc (h, e)
  | inr (_, e) ↦ cc (h, e)
]

found_partition :
    (t : Topic) (id : ℤ) (p : Partition)
    → get_partition t id ≡ ok p
    → (i : ℕ) × (get_elem? t.partitions i ≡ some p)
found_partition t id p h = elim (get_partition_cases t id) [
  | inl (i, q, _, found, e) ↦ (i, cc (found, h, e))
  | inr (_, e) ↦ absurd (cc (h, e))
]

spec_calm :
    (p : Partition) (history : List StoredMessage) (start : ℕ) (o : ℤ)
    → spec_read_one p history start o ≢ panic
spec_calm p history start (negsuc n) h = cc
spec_calm p history start (pos o) h = ground (arith, h)

read_one_calm :
    {p : Partition} {history : List StoredMessage} {start : ℕ} (o : ℤ)
    → IsLog p history start
    → Partition.read_one p o ≢ panic
read_one_calm {p} {history} {start} o l h =
    spec_calm p history start o (sym (read_one_refines l o) ∙ h)

-- The reads of a valid backend.
module _ (b : InMemoryBackend) (v : IsBackend b) where
  check_calm : Backend.check_shutdown b ≢ panic
  unfolding Backend.check_shutdown
  check_calm h = ground (arith, h)

  get_topic_calm : (topic : String) → Backend.get_topic b topic ≢ panic
  unfolding Backend.get_topic
  get_topic_calm topic h = ground (arith, h)

  found_topic :
      (topic : String) (t : Topic)
      → Backend.get_topic b topic ≡ ok t
      → Map.get topic b.topics ≡ some t
  unfolding Backend.get_topic
  found_topic topic t h = ground (arith, h)

  watermarks_calm : (topic : String) (partition : ℤ) → Backend.watermarks b topic partition ≢ panic
  unfolding Backend.watermarks Topic.watermarks
  watermarks_calm topic partition = bind_calm (Backend.check_shutdown b) _ check_calm λ _ _.
      bind_calm (Backend.get_topic b topic) _ (get_topic_calm topic)
        λ t _. bind_calm (get_partition t partition) _ (get_partition_calm t partition) λ p _ h. cc

  fetch_one_calm :
      (topic : String) (partition o : ℤ) → Backend.fetch_one b topic partition o ≢ panic
  unfolding Backend.fetch_one Topic.fetch_one
  fetch_one_calm topic partition o = bind_calm (Backend.check_shutdown b) _ check_calm λ _ _.
      bind_calm (Backend.get_topic b topic) _ (get_topic_calm topic) λ t known.
        bind_calm (get_partition t partition) _ (get_partition_calm t partition) λ p at.
          let (i, found) = found_partition t partition p at in
          let part = (v.topics topic t (found_topic topic t known)).parts i p found in
          read_one_calm o part.valid.log

module _ (b : Broker) (v : IsBackend b.backend) where
  oldest_calm : (topic : String) (partition : ℤ) → oldest_available b topic partition ≢ panic
  oldest_calm topic partition =
      bind_calm (Backend.watermarks b.backend topic partition) _
        (watermarks_calm b.backend v topic partition) λ marks _ h. cc

  after_calm :
      (topic : String) (partition : ℤ) (committed : Option ℤ)
      → after_committed b topic partition (ok committed) ≢ panic
  after_calm topic partition none = oldest_calm topic partition
  after_calm topic partition (some o) = λ h. cc

  resume_calm :
      (topic : String) (partition : ℤ) (position : Option ℤ) (group_id : Option String)
      → resume_offset b topic partition position group_id ≢ panic
  unfolding resume_offset ConsumerGroup.committed_offset OffsetStore.committed
  resume_calm topic partition (some o) group_id = λ h. cc
  resume_calm topic partition none none = oldest_calm topic partition
  resume_calm topic partition none (some gid) =
      elim (Option-cases (Map.get gid b.consumer_groups)) [
        | inl e ↦ rw (e, resume_offset) (oldest_calm topic partition)
        | inr (g, e) ↦
            rw (e, resume_offset)
              (after_calm topic partition
                (Map.get (g.group_id, (topic, partition)) b.offset_store.offsets))
      ]

  adjusted_calm :
      (topic : String) (partition : ℤ) (r : Result (Option StoredMessage))
      → r ≢ panic
      → adjusted b topic partition r ≢ panic
  adjusted_calm topic partition (ok m) calm = λ h. cc
  adjusted_calm topic partition panic calm = λ h. calm refl
  adjusted_calm topic partition (err (offset_out_of_range _ _ _)) calm =
      bind_calm (oldest_available b topic partition) _ (oldest_calm topic partition) λ o _ h. cc
  adjusted_calm topic partition (err (topic_not_found _)) calm = λ h. cc
  adjusted_calm topic partition (err (partition_out_of_range _ _)) calm = λ h. cc
  adjusted_calm topic partition (err (group_not_found _)) calm = λ h. cc
  adjusted_calm topic partition (err (already_subscribed _)) calm = λ h. cc
  adjusted_calm topic partition (err not_subscribed) calm = λ h. cc
  adjusted_calm topic partition (err broker_shutdown) calm = λ h. cc
  adjusted_calm topic partition (err (buffer_full _ _)) calm = λ h. cc
  adjusted_calm topic partition (err (invalid_config _)) calm = λ h. cc
  adjusted_calm topic partition (err (custom _)) calm = λ h. cc

  broker_check_calm : check_shutdown b ≢ panic
  unfolding check_shutdown
  broker_check_calm h = ground (arith, h)

  -- A fetch of one message from a valid broker, at whatever position and for whatever group, does not
  -- panic.
  pub fetch_one_from_position_calm :
      (topic : String) (partition : ℤ) (position : Option ℤ) (group_id : Option String)
      → fetch_one_from_position b topic partition position group_id ≢ panic
  unfolding fetch_one_from_position
  fetch_one_from_position_calm topic partition position group_id =
      bind_calm (check_shutdown b) _ broker_check_calm λ _ _.
        bind_calm (resume_offset b topic partition position group_id) _
          (resume_calm topic partition position group_id)
          λ o _.
            adjusted_calm topic partition (Backend.fetch_one b.backend topic partition o)
              (fetch_one_calm b.backend v topic partition o)
