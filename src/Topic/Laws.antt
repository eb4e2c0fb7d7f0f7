-- ===== src/Topic/Laws.antt =====
-- A call on a topic is a call on one of its partitions, and leaves the others alone.
use rmem_queue.Base.{
  ℕ, zero, suc, ◌+◌, ◌≤◌, ◌<◌, ℤ, pos, negsuc, String, ◌≡◌, refl, ap, ◌∙◌, ◌⊎◌, inl, inr, some,
  length, get_elem?, set, ◌==◌, nat_eq, ltb, Bool-cases, arith, get_elem?-set_self,
  get_elem?-set_ne, get_elem?-lt, get_elem?_found, if◌then◌else◌,
}
use rmem_queue.Error.{partition_out_of_range, Result, ok, err, or_panic}
use rmem_queue.Partition
use rmem_queue.Partition.{Partition, PartitionConfig, Clock}
use rmem_queue.Topic.{Topic, new, new_partitions, get_partition, with_partition}

pub length-new_partitions :
    (name : String) (config : PartitionConfig) (id n : ℕ)
    → length (new_partitions name config id n) ≡ n
unfolding new_partitions
length-new_partitions name config id zero = refl
length-new_partitions name config id (suc n) = ap suc (length-new_partitions name config (id + 1) n)

pub get_elem?-new_partitions :
    (name : String) (config : PartitionConfig) (id n i : ℕ)
    → i < n
    → get_elem? (new_partitions name config id n) i
      ≡ some (Partition.new name (pos (i + id)) config)
unfolding new_partitions
get_elem?-new_partitions name config id zero i h = elim h [ ]
get_elem?-new_partitions name config id (suc n) zero h =
    ap (λ k. some (Partition.new name (pos k) config)) (omega arith)
get_elem?-new_partitions name config id (suc n) (suc i) h =
    get_elem?-new_partitions name config (id + 1) n i (omega arith)
    ∙ ap (λ k. some (Partition.new name (pos k) config)) (omega arith)

pub get_partition_in :
    (t : Topic) (i : ℕ)
    → i < length t.partitions
    → get_partition t (pos i) ≡ or_panic (get_elem? t.partitions i)
unfolding get_partition
get_partition_in t i h = ground arith

-- A partition index is accepted exactly if it is one of the topic's; no index panics.
pub get_partition_cases :
    (t : Topic) (id : ℤ)
    → ((i : ℕ) × (p : Partition) × (id ≡ pos i)
        × (get_elem? t.partitions i ≡ some p)
        × (get_partition t id ≡ ok p))
      ⊎ (((i : ℕ) → id ≡ pos i → length t.partitions ≤ i)
          × (get_partition t id ≡ err (partition_out_of_range t.name id)))
unfolding get_partition
get_partition_cases t (negsuc n) = inr (λ i e. cc, ground arith)
get_partition_cases t (pos i) = elim (Bool-cases (ltb i (length t.partitions))) [
  | inl inside ↦
      let (p, e) = get_elem?_found t.partitions i (ground arith) in
      inl (i, p, refl, e, ground arith)
  | inr outside ↦ inr (λ j e. ground arith, ground arith)
]

-- A new topic has the partitions `0` to `n - 1`, each new; other indices are refused.
pub get_partition-new :
    (name : String) (n : ℕ) (config : PartitionConfig) (i : ℕ)
    → i < n
    → get_partition (new name (pos n) config) (pos i) ≡ ok (Partition.new name (pos i) config)
unfolding new
get_partition-new name n config i h =
    get_partition_in (new name (pos n) config) i
      (omega (arith, length-new_partitions name config 0 n))
    ∙ ap or_panic (get_elem?-new_partitions name config 0 n i h)
    ∙ ap (λ k. ok (Partition.new name (pos k) config)) (omega arith)

abbrev pub replaced : Topic → ℕ → Partition → Topic
replaced t i p = record t { partitions = set t.partitions i p }

pub get_partition_found :
    (t : Topic) (i : ℕ) (p : Partition)
    → get_elem? t.partitions i ≡ some p
    → get_partition t (pos i) ≡ ok p
get_partition_found t i p found =
    get_partition_in t i (get_elem?-lt t.partitions i found) ∙ ap or_panic found

-- A call on a partition of the topic returns what the partition returns, and writes it back.
pub with_partition_lem :
    {A : Type 0} (t : Topic) (i : ℕ) (p : Partition) (f : Partition → Result A × Partition)
    → get_elem? t.partitions i ≡ some p
    → with_partition t (pos i) f ≡ ((f p).0, replaced t i (f p).1)
with_partition_lem t i p f found = rw (get_partition_found t i p found, with_partition)

pub get_elem?-replaced :
    (t : Topic) (i : ℕ) (p q : Partition) (j : ℕ)
    → get_elem? t.partitions i ≡ some p
    → get_elem? (replaced t i q).partitions j
      ≡ (if i == j then some q else get_elem? t.partitions j)
get_elem?-replaced t i p q j found = ground (
  arith,
  get_elem?-set_self t.partitions i q (get_elem?-lt t.partitions i found),
  get_elem?-set_ne t.partitions i j q,
)
