-- ===== src/Backend/Notify.antt =====
-- A shutdown notifies every partition and keeps the invariant of the backend.
use rmem_queue.Base.{
  ℕ, zero, suc, ◌+◌, ℤ, pos, pos_part, String, ◌≡◌, refl, some, [], ◌∷◌, ◌==◌, string_eq, inl, inr,
  Bool-cases,
}
use rmem_queue.Backend.{
  InMemoryBackend, make_partition_config, notify_topics, notify_partitions, shutdown,
}
use rmem_queue.Backend.Valid.{IsBackend}
use rmem_queue.Base.Map
use rmem_queue.Base.Map.{Map}
use rmem_queue.Error.{ok}
use rmem_queue.Partition.{Partition, PartitionConfig}
use rmem_queue.Topic.{Topic, notify_partition}
use rmem_queue.Topic.Valid.{IsTopic, IsPartitionOf, with_partition-IsTopic}

notified-IsPartitionOf :
    {config : PartitionConfig} {name : String} {i : ℕ} {p : Partition}
    → IsPartitionOf config name i p
    → IsPartitionOf config name i (record p { notified = p.notified + 1 })
notified-IsPartitionOf v = record {
  topic = v.topic;
  id = v.id;
  capacity = v.capacity;
  policies = v.policies;
  history = v.history;
  start = v.start;
  valid = record {
    log = record { within = v.valid.log.within; next = v.valid.log.next; kept = v.valid.log.kept };
    numbered = v.valid.numbered;
  };
}

module _ {config : PartitionConfig} {name : String} where
  notify_partition-IsTopic :
      (t : Topic) (id : ℤ) → IsTopic config name t → IsTopic config name (notify_partition t id)
  unfolding notify_partition
  notify_partition-IsTopic t id v =
      with_partition-IsTopic id (λ p. (ok tt, record p { notified = p.notified + 1 }))
        (λ i p w. notified-IsPartitionOf w) v

  notify_partitions-IsTopic :
      (t : Topic) (i n : ℕ) → IsTopic config name t → IsTopic config name (notify_partitions t i n)
  unfolding notify_partitions
  notify_partitions-IsTopic t i zero v = v
  notify_partitions-IsTopic t i (suc n) v =
      notify_partitions-IsTopic (notify_partition t (pos i)) (i + 1) n
        (notify_partition-IsTopic t (pos i) v)

abbrev notified : Topic → Topic
notified t = notify_partitions t 0 (pos_part t.partition_count)

get-notify_topics :
    (name : String) (m : Map String Topic) {t : Topic}
    → Map.get name (notify_topics m) ≡ some t
    → (u : Topic) × (Map.get name m ≡ some u) × (t ≡ notified u)
unfolding Map.get
get-notify_topics name [] h = cc
get-notify_topics name ((j, u) ∷ m) {t} h = elim (Bool-cases (j == name)) [
  | inl e ↦ (u, rw e refl, cc (h, e))
  | inr e ↦ let (w, found, same) = get-notify_topics name m (cc (h, e)) in (w, rw e found, same)
]

-- A shutdown keeps the topics valid.
pub shutdown-IsBackend : (b : InMemoryBackend) → IsBackend b → IsBackend (shutdown b).1
unfolding shutdown make_partition_config
shutdown-IsBackend b v = record {
  topics = λ name t e.
      let (u, found, same) = get-notify_topics name b.topics e in
      rw same (notify_partitions-IsTopic u 0 _ (v.topics name u found));
}
