-- ===== src/Partitioner.antt =====
-- src/partitioner.rs: how a message without a partition is routed. `i32` is an integer in its range;
-- operations that Rust checks in debug builds wrap here, as in release builds.
pub mod Words
pub mod Bounds
pub mod Turns
use rmem_queue.Base.{
  ℕ, ◌+◌, ◌*◌, ◌%◌, ◌^◌, ℤ, pos, ◌+ℤ◌, ltb_ℤ, String, Option, none, some, [], ◌∷◌, bit_xor,
  pos_part, if◌then◌else◌,
}
use rmem_queue.Headers.{Bytes}
use Words.{wrap_i32, u32_of, i32_of, rem_i32, abs_i32}

-- One round of the loop of `fnv1a_32`: xor, then `wrapping_mul`.
unfoldable pub fnv_round : ℕ → ℕ → ℕ
fnv_round hash byte = bit_xor hash byte * 16777619 % 2 ^ 32

unfoldable pub fnv_loop : ℕ → Bytes → ℕ
fnv_loop hash [] = hash
fnv_loop hash (byte ∷ rest) = fnv_loop (fnv_round hash byte) rest

unfoldable pub fnv1a_32 : Bytes → ℕ
fnv1a_32 key = fnv_loop 2166136261 key

-- `((x % n) + n) % n`
unfoldable pub normalise : ℤ → ℤ → ℤ
normalise x n = rem_i32 (wrap_i32 (rem_i32 x n +ℤ n)) n

-- `RoundRobinPartitioner::partition`: the partition and the counter after `fetch_add`, which wraps.
unfoldable pub round_robin_partition : ℤ → ℤ → ℤ × ℤ
round_robin_partition counter num_partitions =
    if ltb_ℤ (pos 0) num_partitions
    then (normalise counter num_partitions, wrap_i32 (counter +ℤ pos 1))
    else (pos 0, counter)

-- `ConsistentPartitioner::partition`, with the counter of its fallback.
unfoldable pub consistent_partition : ℤ → Option Bytes → ℤ → ℤ × ℤ
consistent_partition counter key num_partitions =
    if ltb_ℤ (pos 0) num_partitions
    then elim key [
      | some k ↦ (pos (fnv1a_32 k % pos_part num_partitions), counter)
      | none ↦ round_robin_partition counter num_partitions
    ]
    else (pos 0, counter)

-- `x.wrapping_mul(1103515245).wrapping_add(12345)`
unfoldable pub next_random : ℤ → ℤ
next_random x = i32_of ((u32_of x * 1103515245 + 12345) % 2 ^ 32)

-- `RandomPartitioner::partition`
unfoldable pub random_partition : ℤ → ℤ → ℤ × ℤ
random_partition state num_partitions =
    if ltb_ℤ (pos 0) num_partitions
    then (normalise (abs_i32 state) num_partitions, next_random state)
    else (pos 0, state)

-- `Arc<dyn Partitioner>`: the three of the crate with their atomic state, and one of a user's, given
-- by its answers to the calls in turn.
pub data Partitioner : Type 0 where
  consistent round_robin random : ℤ → Partitioner
  custom : (ℕ → String → Option Bytes → ℤ → ℤ) → ℕ → Partitioner

abbrev with_state : (ℤ → Partitioner) → ℤ × ℤ → ℤ × Partitioner
with_state f (p, s) = (p, f s)

unfoldable pub partition : Partitioner → String → Option Bytes → ℤ → ℤ × Partitioner
partition (consistent s) topic key n = with_state consistent (consistent_partition s key n)
partition (round_robin s) topic key n = with_state round_robin (round_robin_partition s n)
partition (random s) topic key n = with_state random (random_partition s n)
partition (custom f calls) topic key n = (f calls topic key n, custom f (calls + 1))
