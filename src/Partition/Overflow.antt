-- ===== src/Partition/Overflow.antt =====
-- A read whose count overflows.
use native.Mathlib.Nat.{mod-eq_of_lt, add-mod_right}
use rmem_queue.Base.{
  ℕ, ◌+◌, ◌-◌, ◌^◌, ◌%◌, ◌≤◌, ◌<◌, pos, ◌≡◌, ap, ◌∙◌, arith, length, min, nat_eq, List,
}
use rmem_queue.Error.{panic}
use rmem_queue.Message.{StoredMessage}
use rmem_queue.Partition.{Partition, read, range}
use rmem_queue.Partition.Spec.{IsLog, IsLog-length, locate_lem}

wrapped :
    (start count : ℕ)
    → start < 2 ^ 64
    → count < 2 ^ 64
    → 2 ^ 64 ≤ start + count
    → (start + count) % 2 ^ 64 < start
wrapped start count s c h =
    let split : start + count ≡ (start + count - 2 ^ 64) + 2 ^ 64 = omega arith in
    let rest =
      ap (λ n. n % 2 ^ 64) split
      ∙ add-mod_right (start + count - 2 ^ 64) (2 ^ 64)
      ∙ mod-eq_of_lt {n = start + count - 2 ^ 64} {m = 2 ^ 64} (omega arith) in
    omega (arith, rest)

range_panics :
    (log : List StoredMessage) (start end : ℕ) → end < start → range log start end ≡ panic
range_panics log start end h = ground arith

-- A read of `max_count` messages, a `usize`, from a retained offset panics when the index of the first
-- one and the count sum to 2^64 or more, as they do for `usize::MAX` at every offset but the oldest.
pub read_overflow :
    {p : Partition} {history : List StoredMessage} {start : ℕ} (o max_count : ℕ)
    → IsLog p history start
    → start ≤ o
    → o < length history
    → o < 2 ^ 63
    → max_count < 2 ^ 64
    → 2 ^ 64 ≤ o - start + max_count
    → read p (pos o) max_count ≡ panic
unfolding read
read_overflow {p} {history} {start} o max_count l h k i64 usize over =
    let low = wrapped (o - start) max_count (omega arith) usize over in
    rw (locate_lem p start (pos o) (IsLog-length l)) (
      ground (
        arith,
        l.next,
        range_panics p.buffer.log (o - start)
            (min ((o - start + max_count) % 2 ^ 64) (length p.buffer.log)) (omega (arith, low)),
      ))
