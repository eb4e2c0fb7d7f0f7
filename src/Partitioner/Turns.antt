-- ===== src/Partitioner/Turns.antt =====
-- The constructors of the partitioners, and where consecutive messages go.
use rmem_queue.Base.{
  ℕ, zero, suc, ◌+◌, ◌*◌, ◌%◌, ◌^◌, ◌≤◌, ◌<◌, ℤ, pos, ◌+ℤ◌, ltb_ℤ, String, ◌≡◌, refl, ap, ◌∙◌,
  Option, some, List, [], ◌∷◌, length, get_elem?, true, ◌==◌, int_eq, if◌then◌else◌, arith,
}
use native.Mathlib.Nat.{add-mod_right, mod-mod, mod-lt}
use rmem_queue.Headers.{Bytes}
use rmem_queue.Partitioner.{
  Partitioner, consistent, round_robin, random, partition, normalise, round_robin_partition,
}
use rmem_queue.Partitioner.Words.{wrap_i32, rem_i32, wrap_i32_exact, i32_of, u32_mod}

-- `RoundRobinPartitioner::new`
unfoldable pub new_round_robin : Partitioner
new_round_robin = round_robin (pos 0)

-- `ConsistentPartitioner::new`
unfoldable pub new_consistent : Partitioner
new_consistent = consistent (pos 0)

-- `(base as i32).wrapping_mul(1103515245).wrapping_add(nanos)`, with the number of random partitioners
-- made before and the low 32 bits of the clock's nanoseconds.
unfoldable pub random_seed : ℕ → ℕ → ℤ
random_seed base nanos = i32_of ((base % u32_mod * 1103515245 + nanos) % u32_mod)

-- `RandomPartitioner::new`
unfoldable pub new_random : ℕ → ℕ → Partitioner
new_random base nanos =
    let seed = random_seed base nanos in random (if seed == pos 0 then pos 1 else seed)

-- The partitions that consecutive messages of a topic go to, by their keys.
unfoldable pub routes : Partitioner → String → List (Option Bytes) → ℤ → List ℤ
routes p topic [] n = []
routes p topic (key ∷ keys) n = let (i, p') = partition p topic key n in i ∷ routes p' topic keys n

plus : (a b : ℕ) → pos a +ℤ pos b ≡ pos (a + b)
plus a b = ground arith

normalise_turn : (c n : ℕ) → 0 < n → n + n ≤ 2 ^ 31 → normalise (pos c) (pos n) ≡ pos (c % n)
unfolding normalise rem_i32
normalise_turn c n h small =
    let exact : wrap_i32 (pos (c % n) +ℤ pos n) ≡ pos (c % n + n) =
      ap wrap_i32 (plus (c % n) n)
      ∙ wrap_i32_exact (pos (c % n + n)) (omega (arith, mod-lt c h), omega arith) in
    ap (λ z. rem_i32 z (pos n)) exact ∙ ap pos (add-mod_right (c % n) n ∙ mod-mod c n)

turn :
    (c n : ℕ)
    → 0 < n
    → n + n ≤ 2 ^ 31
    → c + 1 < 2 ^ 31
    → round_robin_partition (pos c) (pos n) ≡ (pos (c % n), pos (c + 1))
unfolding round_robin_partition
turn c n h small count =
    let positive : ltb_ℤ (pos 0) (pos n) ≡ true = ground arith in
    let next : wrap_i32 (pos c +ℤ pos 1) ≡ pos (c + 1) =
      ap wrap_i32 (plus c 1) ∙ wrap_i32_exact (pos (c + 1)) (omega arith, omega arith) in
    rw positive (rw (normalise_turn c n h small, next) refl)

-- Of consecutive messages the one with index `i` goes to partition `(c + i) % n`, where `c` is the
-- counter of the round robin partitioner before the first of them: so any `n` consecutive messages go
-- to `n` different partitions. This holds for up to 2^30 partitions while the counter stays below 2^31.
pub routes_turns :
    (topic : String) (keys : List (Option Bytes)) (c n i : ℕ)
    → 0 < n
    → n ≤ 2 ^ 30
    → c + length keys < 2 ^ 31
    → i < length keys
    → get_elem? (routes (round_robin (pos c)) topic keys (pos n)) i ≡ some (pos ((c + i) % n))
unfolding routes partition
routes_turns topic [] c n i h small count inside = elim inside [ ]
routes_turns topic (key ∷ keys) c n zero h small count inside =
    rw (turn c n h (omega arith) (omega arith)) (ap (λ x. some (pos (x % n))) (omega arith))
routes_turns topic (key ∷ keys) c n (suc i) h small count inside =
    rw (turn c n h (omega arith) (omega arith)) (
      routes_turns topic keys (c + 1) n i h small (omega arith) (omega arith)
      ∙ ap (λ x. some (pos (x % n))) (omega arith))
