-- ===== src/Partition/Watermarks.antt =====
-- Watermarks against what can be read.
use rmem_queue.Base.{
  ℕ, ◌+◌, ◌-◌, ◌≤◌, ◌<◌, ◌≡◌, ◌≢◌, ◌∙◌, ℤ, pos, negsuc, ◌-ℤ◌, some, List, ◌↔◌, arith, length,
  get_elem?_found,
}
use rmem_queue.Error.{ok}
use rmem_queue.Message.{StoredMessage}
use rmem_queue.Partition.{Partition, watermarks, read_one, message_count}
use rmem_queue.Partition.Spec.{IsLog, IsLog-length, read_one_refines, is_empty-length}

module _ {p : Partition} {history : List StoredMessage} {start : ℕ}
    (l : IsLog p history start) where
  -- While the log holds messages, the watermarks are the first and the last offset that can be
  -- read, and the count is the number of offsets from one to the other.
  pub watermarks_exact :
      start < length history
      → (watermarks p ≡ (pos start, pos (length history - 1)))
        × (message_count p + start ≡ length history)
        × ((o : ℕ)
            → ((start ≤ o) × (o ≤ length history - 1))
              ↔ ((m : StoredMessage) × (read_one p (pos o) ≡ ok (some m))))
  unfolding watermarks message_count
  watermarks_exact h = (
    rw (is_empty-length p.buffer.log) (ground (arith, IsLog-length l, l.next)),
    omega (arith, IsLog-length l, l.next),
    λ o. (
      (λ b.
          let (m, e) = get_elem?_found history o (omega arith) in
          (m, read_one_refines l (pos o) ∙ ground arith)),
      (λ r. ground (arith, read_one_refines l (pos o), r.1)),
    ),
  )

  unreadable : start ≡ length history → (o : ℤ) (m : StoredMessage) → read_one p o ≢ ok (some m)
  unreadable h (pos o) m e = ground (arith, read_one_refines l (pos o))
  unreadable h (negsuc n) m e = cc (read_one_refines l (negsuc n))

  -- Once everything has been evicted the watermarks still run from 0 to the last offset given out,
  -- though nothing can be read.
  pub watermarks_empty :
      start ≡ length history
      → (watermarks p ≡ (pos 0, pos (length history) -ℤ pos 1))
        × ((o : ℤ) (m : StoredMessage) → read_one p o ≢ ok (some m))
  unfolding watermarks
  watermarks_empty h =
      (rw (is_empty-length p.buffer.log) (ground (arith, IsLog-length l, l.next)), unreadable h)
