-- ===== src/Topic/Valid.antt =====
-- The invariant of a topic: its partitions are numbered, carry its name and are logs.
use rmem_queue.Base.{
  ℕ, ◌+◌, ◌<◌, ℤ, pos, String, ◌≡◌, refl, sym, ap, ◌∙◌, subst, subst₂, Option, some, List, [],
  length, get_elem?, ◌==◌, nat_eq, nat_beq_iff, Bool-cases, inl, inr, arith, length-set,
  get_elem?-lt,
}
use rmem_queue.Error.{Result}
use rmem_queue.Headers.{Bytes, OwnedHeaders}
use rmem_queue.Message.{DynAny, StoredMessage}
use rmem_queue.Partition
use rmem_queue.Partition.{
  Partition, PartitionConfig, Clock, build_policies, append, append_typed, store,
}
use rmem_queue.Partition.Append.{IsPartition}
use rmem_queue.Partition.Runs.{Op, appends, appends_typed, step, step-Stepped, new-IsPartition}
use rmem_queue.Topic.{Topic, new, with_partition}
use rmem_queue.Topic.Laws.{
  get_partition_cases, replaced, get_elem?-replaced, length-new_partitions,
  get_elem?-new_partitions,
}

pub record IsPartitionOf (config : PartitionConfig) (name : String) (i : ℕ) (p : Partition)
    : Type 0 where
  pub topic : p.topic_name ≡ name
  pub id : p.partition_id ≡ pos i
  pub capacity : p.buffer.max_capacity ≡ config.max_capacity
  pub policies : p.buffer.policies ≡ build_policies config
  pub history : List StoredMessage
  pub start : ℕ
  pub valid : IsPartition p history start

pub record IsTopic (config : PartitionConfig) (name : String) (t : Topic) : Type 0 where
  pub named : t.name ≡ name
  pub counted : t.partition_count ≡ pos (length t.partitions)
  pub parts :
      (i : ℕ) (p : Partition) → get_elem? t.partitions i ≡ some p → IsPartitionOf config name i p

step-IsPartitionOf :
    {config : PartitionConfig} {name : String} {i : ℕ} {p : Partition} (op : Op)
    → IsPartitionOf config name i p
    → (step p op).buffer.max_capacity ≡ p.buffer.max_capacity
    → (step p op).buffer.policies ≡ p.buffer.policies
    → IsPartitionOf config name i (step p op)
step-IsPartitionOf op v c q =
    let s = step-Stepped op v.valid in
    record {
      topic = s.topic ∙ v.topic;
      id = s.id ∙ v.id;
      capacity = c ∙ v.capacity;
      policies = q ∙ v.policies;
      history = _;
      start = s.start';
      valid = s.valid;
    }

pub append-IsPartitionOf :
    {config : PartitionConfig} {name : String} {i : ℕ} {p : Partition} (clock : Clock)
    (key payload : Option Bytes) (headers : Option OwnedHeaders) (ts : Option ℤ)
    → IsPartitionOf config name i p
    → IsPartitionOf config name i (append clock p key payload headers ts).1
unfolding step append store Partition.evict_buffer Partition.push_message
append-IsPartitionOf clock key payload headers ts v =
    step-IsPartitionOf (appends clock key payload headers ts) v refl refl

pub append_typed-IsPartitionOf :
    {config : PartitionConfig} {name : String} {i : ℕ} {p : Partition} (clock : Clock)
    (payload : DynAny) (key : Option DynAny) (headers : Option OwnedHeaders) (ts : Option ℤ)
    → IsPartitionOf config name i p
    → IsPartitionOf config name i (append_typed clock p payload key headers ts).1
unfolding step append_typed store Partition.evict_buffer Partition.push_message
append_typed-IsPartitionOf clock payload key headers ts v =
    step-IsPartitionOf (appends_typed clock payload key headers ts) v refl refl

new-IsPartitionOf :
    (config : PartitionConfig) (name : String) (i j : ℕ)
    → j ≡ i
    → IsPartitionOf config name i (Partition.new name (pos j) config)
unfolding Partition.new
new-IsPartitionOf config name i j e = record {
  topic = refl;
  id = ap pos e;
  capacity = refl;
  policies = refl;
  history = [];
  start = 0;
  valid = new-IsPartition name (pos j) config;
}

pub new-IsTopic :
    (config : PartitionConfig) (name : String) (n : ℕ)
    → IsTopic config name (new name (pos n) config)
unfolding new
new-IsTopic config name n = record {
  named = refl;
  counted = ap pos (sym (length-new_partitions name config 0 n));
  parts = λ i p e.
      let small : i < n =
        omega (arith, get_elem?-lt _ i e, length-new_partitions name config 0 n) in
      let q : Partition.new name (pos (i + 0)) config ≡ p =
        cc (get_elem?-new_partitions name config 0 n i small) in
      subst (IsPartitionOf config name i) q (new-IsPartitionOf config name i (i + 0) (omega arith));
}

replaced-IsTopic :
    {config : PartitionConfig} {name : String} (t : Topic) (i : ℕ) (p q : Partition)
    → get_elem? t.partitions i ≡ some p
    → IsTopic config name t
    → IsPartitionOf config name i q
    → IsTopic config name (replaced t i q)
replaced-IsTopic {config} {name} t i p q found v w = record {
  named = v.named;
  counted = v.counted ∙ ap pos (sym (length-set t.partitions i q));
  parts = λ j r e. elim (Bool-cases (i == j)) [
    | inl same ↦
        let k : i ≡ j = (nat_beq_iff i j).0 same in
        let found' : q ≡ r = cc (get_elem?-replaced t i p q j found, same) in
        subst₂ (IsPartitionOf config name) k found' w
    | inr other ↦ v.parts j r (cc (get_elem?-replaced t i p q j found, other))
  ];
}

module _ {A : Type 0} {config : PartitionConfig} {name : String} {t : Topic} (id : ℤ)
    (f : Partition → Result A × Partition)
    (keeps : (i : ℕ) (p : Partition)
      → IsPartitionOf config name i p
      → IsPartitionOf config name i (f p).1)
    (v : IsTopic config name t) where
  pub with_partition-IsTopic : IsTopic config name (with_partition t id f).1
  with_partition-IsTopic = elim (get_partition_cases t id) [
    | inl (i, p, e, found, g) ↦
        rw (g, with_partition)
          (rw e (replaced-IsTopic t i p (f p).1 found v (keeps i p (v.parts i p found))))
    | inr (_, g) ↦ rw (g, with_partition) v
  ]
