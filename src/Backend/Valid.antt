-- ===== src/Backend/Valid.antt =====
-- The invariant of the backend, and that every operation keeps it.
use rmem_queue.Base.{
  ℕ, ℤ, pos, String, ◌≡◌, subst₂, Option, some, ◌==◌, string_eq, Bool-cases, Option-cases, if_both,
  inl, inr,
}
use rmem_queue.Base.Map
use rmem_queue.Base.Map.{Map, get-insert}
use rmem_queue.Backend
use rmem_queue.Backend.{
  InMemoryBackend, make_partition_config, ensure_topic, with_topic, get_topic, produce,
  produce_typed, shutdown, notify_topics, notify_partitions,
}
use rmem_queue.Config.{BrokerConfig}
use rmem_queue.Error.{Result}
use rmem_queue.Headers.{Bytes, OwnedHeaders}
use rmem_queue.Message.{DynAny}
use rmem_queue.Partition.{Clock, timestamp_or}
use rmem_queue.Topic
use rmem_queue.Topic.{Topic}
use rmem_queue.Topic.Valid.{
  IsTopic, new-IsTopic, with_partition-IsTopic, append-IsPartitionOf, append_typed-IsPartitionOf,
}

pub record IsBackend (b : InMemoryBackend) : Type 0 where
  pub topics :
      (name : String) (t : Topic)
      → Map.get name b.topics ≡ some t
      → IsTopic (make_partition_config b) name t

pub new-IsBackend : (config : BrokerConfig) → IsBackend (Backend.new config)
unfolding Backend.new Map.get
new-IsBackend config = record { topics = λ name t e. cc }

insert-IsBackend :
    (b : InMemoryBackend) (name : String) (t : Topic)
    → IsBackend b
    → IsTopic (make_partition_config b) name t
    → IsBackend (record b { topics = Map.insert name t b.topics })
unfolding make_partition_config
insert-IsBackend b name t v w = record {
  topics = λ j u e. elim (Bool-cases (name == j)) [
    | inl same ↦
        let k : name ≡ j = (string_eq.beq_iff name j).0 same in
        let found : t ≡ u = cc (get-insert name j t b.topics, same) in
        subst₂ (IsTopic (make_partition_config b)) k found w
    | inr other ↦ v.topics j u (cc (get-insert name j t b.topics, other))
  ];
}

-- Creating a topic with a count that is not negative keeps the invariant.
pub ensure_topic-IsBackend :
    (b : InMemoryBackend) (topic : String) (n : ℕ)
    → IsBackend b
    → IsBackend (ensure_topic b topic (pos n)).1
unfolding ensure_topic
ensure_topic-IsBackend b topic n v =
    if_both (λ (r : Result (Unit {0}) × InMemoryBackend). IsBackend r.1) b.shutdown v
      (elim (Option-cases (Map.get topic b.topics)) [
        | inl e ↦
            rw (e, ensure_topic)
              (insert-IsBackend b topic _ v (new-IsTopic (make_partition_config b) topic n))
        | inr (t, e) ↦ rw (e, ensure_topic) v
      ])

with_topic-IsBackend :
    {A : Type 0} (b : InMemoryBackend) (topic : String) (f : Topic → Result A × Topic)
    → ((t : Topic)
        → IsTopic (make_partition_config b) topic t
        → IsTopic (make_partition_config b) topic (f t).1)
    → IsBackend b
    → IsBackend (with_topic b topic f).1
unfolding get_topic
with_topic-IsBackend {A} b topic f keeps v =
    if_both (λ (r : Result A × InMemoryBackend). IsBackend r.1) b.shutdown v
      (elim (Option-cases (Map.get topic b.topics)) [
        | inl e ↦ rw (e, get_topic) v
        | inr (t, e) ↦
            rw (e, get_topic) (insert-IsBackend b topic (f t).1 v (keeps t (v.topics topic t e)))
      ])

pub produce-IsBackend :
    (clock : Clock) (b : InMemoryBackend) (topic : String) (partition : ℤ)
    (key payload : Option Bytes) (headers : Option OwnedHeaders) (ts : Option ℤ)
    → IsBackend b
    → IsBackend (produce clock b topic partition key payload headers ts).1
unfolding produce Topic.produce
produce-IsBackend clock b topic partition key payload headers ts v =
    with_topic-IsBackend b topic _
      (λ t w.
        with_partition-IsTopic partition _
          (λ i p h. append-IsPartitionOf clock key payload headers (some (timestamp_or ts clock)) h)
          w)
      v

pub produce_typed-IsBackend :
    (clock : Clock) (b : InMemoryBackend) (topic : String) (partition : ℤ) (payload : DynAny)
    (key : Option DynAny) (headers : Option OwnedHeaders) (ts : Option ℤ)
    → IsBackend b
    → IsBackend (produce_typed clock b topic partition payload key headers ts).1
unfolding produce_typed Topic.produce_typed
produce_typed-IsBackend clock b topic partition payload key headers ts v =
    with_topic-IsBackend b topic _
      (λ t w.
        with_partition-IsTopic partition _
          (λ i p h.
            append_typed-IsPartitionOf clock payload key headers (some (timestamp_or ts clock)) h)
          w)
      v
