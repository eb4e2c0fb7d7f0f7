-- ===== src/Partition/Spec.antt =====
-- What a partition promises: every message ever appended keeps its offset, and a reader sees those
-- from `start` on. `IsLog p history start` says that `p` stands for such a log.
use rmem_queue.Base.{
  ℕ, ◌+◌, ◌-◌, ◌≤◌, ◌<◌, ℤ, pos, negsuc, ◌≡◌, refl, ap, ◌∙◌, ◌&&◌, Option, none, some, List, [],
  ◌∷◌, arith, ltb, leb, ◌==◌, nat_eq, int_eq, if◌then◌else◌, length, get_elem?, drop, length-drop,
  get_elem?-drop, get_elem?_found, take-min, ◌^◌, drop-drop, take, min,
}
use rmem_queue.Error.{Result, ok, err}
use rmem_queue.Message.{StoredMessage}
use rmem_queue.Partition.{Partition, is_empty, out_of_range, locate, read_one, read, range}

pub record IsLog (p : Partition) (history : List StoredMessage) (start : ℕ) : Type 0 where
  pub within : start ≤ length history
  pub next : p.buffer.next_offset ≡ length history
  pub kept : p.buffer.log ≡ drop start history

-- What a read at an offset returns, told from the history.
abbrev pub spec_read_one : Partition → List StoredMessage → ℕ → ℤ → Result (Option StoredMessage)
spec_read_one p history start (negsuc n) = err (out_of_range p (negsuc n))
spec_read_one p history start (pos o) =
    if leb start o && ltb o (length history)
    then ok (get_elem? history o)
    else if o == length history
    then ok none
    else if o == 0 && start == length history
    then ok none
    else err (out_of_range p (pos o))

pub is_empty-length : (xs : List StoredMessage) → is_empty xs ≡ (length xs == 0)
is_empty-length [] = refl
is_empty-length (x ∷ xs) = ground arith

-- `locate`, told from the first retained offset.
abbrev spec_locate : Partition → ℕ → ℤ → Result (Option ℕ)
spec_locate p start (negsuc n) = err (out_of_range p (negsuc n))
spec_locate p start (pos o) =
    if leb start o && ltb o p.buffer.next_offset
    then ok (some (o - start))
    else if o == p.buffer.next_offset
    then ok none
    else if o == 0 && start == p.buffer.next_offset
    then ok none
    else err (out_of_range p (pos o))

pub locate_lem :
    (p : Partition) (start : ℕ) (o : ℤ)
    → length p.buffer.log + start ≡ p.buffer.next_offset
    → locate p o ≡ spec_locate p start o
locate_lem p start (pos o) h = rw (is_empty-length p.buffer.log) (ground arith)
locate_lem p start (negsuc n) h = rw (is_empty-length p.buffer.log) (ground arith)

module _ {p : Partition} {history : List StoredMessage} {start : ℕ}
    (l : IsLog p history start) where
  pub IsLog-length : length p.buffer.log + start ≡ p.buffer.next_offset
  IsLog-length = omega (arith, ap length l.kept, length-drop start history, l.within, l.next)

  pub get_elem?_kept :
      (o : ℕ) → start ≤ o → get_elem? p.buffer.log (o - start) ≡ get_elem? history o
  get_elem?_kept o h =
      let e : o - start + start ≡ o = omega arith in
      ap (λ xs. get_elem? xs (o - start)) l.kept
      ∙ get_elem?-drop start history (o - start)
      ∙ ap (get_elem? history) e

  -- `read_one` meets its specification at every offset, those that it refuses included.
  pub read_one_refines : (o : ℤ) → read_one p o ≡ spec_read_one p history start o
  unfolding read_one
  read_one_refines (negsuc n) = rw (locate_lem p start (negsuc n) IsLog-length)
  read_one_refines (pos o) =
      rw (locate_lem p start (pos o) IsLog-length)
        (ground (arith, l.next, get_elem?_kept o, get_elem?_found history o))

  suffix_kept : (o : ℕ) → start ≤ o → drop (o - start) p.buffer.log ≡ drop o history
  suffix_kept o h =
      let e : o - start + start ≡ o = omega arith in
      ap (drop (o - start)) l.kept
      ∙ drop-drop (o - start) start history
      ∙ ap (λ n. drop n history) e

  -- The messages that `range` picks, told from the history.
  range_refines :
      (o max_count end : ℕ)
      → start ≤ o
      → o ≤ length history
      → end ≡ min (o - start + max_count) (length p.buffer.log)
      → range p.buffer.log (o - start) end ≡ ok (take max_count (drop o history))
  range_refines o max_count end h k e =
      let n : end - (o - start) ≡ min max_count (length (drop (o - start) p.buffer.log)) =
        omega (arith, length-drop (o - start) p.buffer.log, IsLog-length, l.next) in
      let found : take (end - (o - start)) (drop (o - start) p.buffer.log)
          ≡ take max_count (drop o history) =
        ap (λ i. take i (drop (o - start) p.buffer.log)) n
        ∙ take-min max_count (drop (o - start) p.buffer.log)
        ∙ ap (take max_count) (suffix_kept o h) in
      ground (arith, IsLog-length, l.next)

  -- A read from a retained offset returns the messages of the history from there on, as many as asked
  -- for and as there are, if the index of the first in the log and the count sum below 2^64.
  pub read_refines :
      (o max_count : ℕ)
      → start ≤ o
      → o < length history
      → o - start + max_count < 2 ^ 64
      → read p (pos o) max_count ≡ ok (take max_count (drop o history))
  unfolding read
  read_refines o max_count h k fits =
      rw (locate_lem p start (pos o) IsLog-length)
        (ground (arith, l.next, range_refines o max_count _ h (omega arith) refl))
