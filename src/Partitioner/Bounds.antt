-- ===== src/Partitioner/Bounds.antt =====
-- The partitions that the crate's partitioners choose.
use rmem_queue.Base.{
  ℕ, suc, true, ◌+◌, ◌-◌, ◌%◌, ◌^◌, ◌≤◌, ◌<◌, ℤ, pos, negsuc, ◌+ℤ◌, ltb_ℤ, String, ◌≡◌, refl, ap,
  ◌∙◌, Option, none, some, arith,
}
use rmem_queue.Headers.{Bytes}
use rmem_queue.Partitioner.{
  consistent, round_robin, random, partition, normalise, round_robin_partition,
  consistent_partition, random_partition, fnv1a_32,
}
use rmem_queue.Partitioner.Words.{wrap_i32, rem_i32, abs_i32, wrap_i32_exact}

abbrev pub IsIndex : ℕ → ℤ → Type 0
IsIndex n p = (i : ℕ) × (p ≡ pos i) × (i < n)

rem_pos : (a n : ℕ) → 0 < n → IsIndex n (rem_i32 (pos a) (pos n))
unfolding rem_i32
rem_pos a n h = (a % n, refl, omega arith)

shifted : (x : ℤ) (n : ℕ) → 0 < n → (k : ℕ) × (rem_i32 x (pos n) +ℤ pos n ≡ pos k) × (k < n + n)
unfolding rem_i32
shifted (pos a) n h = (a % n + n, ground arith, omega arith)
shifted (negsuc a) n h = (n - suc a % n, ground arith, omega arith)

pub normalise-IsIndex : (x : ℤ) (n : ℕ) → 0 < n → n ≤ 2 ^ 30 → IsIndex n (normalise x (pos n))
unfolding normalise
normalise-IsIndex x n h small =
    let (k, e, bound) = shifted x n h in
    let exact : wrap_i32 (rem_i32 x (pos n) +ℤ pos n) ≡ pos k =
      ap wrap_i32 e ∙ wrap_i32_exact (pos k) (omega arith, omega arith) in
    rw exact (rem_pos k n h)

positive : (n : ℕ) → 0 < n → ltb_ℤ (pos 0) (pos n) ≡ true
positive n h = ground arith

round_robin-IsIndex :
    (s : ℤ) (n : ℕ) → 0 < n → n ≤ 2 ^ 30 → IsIndex n (round_robin_partition s (pos n)).0
unfolding round_robin_partition
round_robin-IsIndex s n h small = rw (positive n h) (normalise-IsIndex s n h small)

random-IsIndex : (s : ℤ) (n : ℕ) → 0 < n → n ≤ 2 ^ 30 → IsIndex n (random_partition s (pos n)).0
unfolding random_partition
random-IsIndex s n h small = rw (positive n h) (normalise-IsIndex (abs_i32 s) n h small)

consistent-IsIndex :
    (s : ℤ) (key : Option Bytes) (n : ℕ)
    → 0 < n
    → n ≤ 2 ^ 30
    → IsIndex n (consistent_partition s key (pos n)).0
unfolding consistent_partition rem_i32
consistent-IsIndex s none n h small = rw (positive n h) (round_robin-IsIndex s n h small)
consistent-IsIndex s (some k) n h small = rw (positive n h) (rem_pos (fnv1a_32 k) n h)

-- Between 1 and 2^30 partitions, each of the crate's partitioners chooses one of them.
pub partition-IsIndex :
    (s : ℤ) (topic : String) (key : Option Bytes) (n : ℕ)
    → 0 < n
    → n ≤ 2 ^ 30
    → IsIndex n (partition (consistent s) topic key (pos n)).0
      × IsIndex n (partition (round_robin s) topic key (pos n)).0
      × IsIndex n (partition (random s) topic key (pos n)).0
unfolding partition
partition-IsIndex s topic key n h small = (
  consistent-IsIndex s key n h small,
  round_robin-IsIndex s n h small,
  random-IsIndex s n h small,
)

-- A key goes to the same partition, whatever was routed before and however the counter stands.
pub consistent_key :
    (s s' : ℤ) (topic topic' : String) (k : Bytes) (n : ℤ)
    → (partition (consistent s) topic (some k) n).0
      ≡ (partition (consistent s') topic' (some k) n).0
unfolding partition consistent_partition
consistent_key s s' topic topic' k n = ground arith
