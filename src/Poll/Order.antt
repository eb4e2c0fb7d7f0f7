-- ===== src/Poll/Order.antt =====
-- What a consumer of one partition gets from poll to poll.
use native.Mathlib.Nat.{mod-lt}
use rmem_queue.Base.{
  ℕ, zero, suc, ◌+◌, ◌%◌, ◌≤◌, ◌<◌, ℤ, pos, ◌+ℤ◌, String, ◌≡◌, refl, ap, sym, ◌∙◌, false, Option,
  none, some, List, [], ◌∷◌, ◌++◌, map, length, get_elem?, get_elem?-lt, get_elem?_found,
  get_elem?-none, drop, drop_at, drop_all, subst, string_eq, int_eq, pair_eq, nat_eq, arith,
}
use rmem_queue.Base.Map
use rmem_queue.Base.Map.{get-insert_self}
use rmem_queue.Broker
use rmem_queue.Broker.{Broker}
use rmem_queue.Consumer.{BaseConsumer}
use rmem_queue.Consumer.Positions.{set_position}
use rmem_queue.Error.{Result, ok}
use rmem_queue.Message.{StoredMessage, BorrowedMessage}
use rmem_queue.Poll.{
  Round, skip, return, is_paused, answered, fetch_for, poll_round, poll_loop, poll_once,
}
use rmem_queue.TopicPartition.{TopicPartitionElem}

-- The results of `n` polls, one after the other.
unfoldable pub polls : Broker → BaseConsumer → ℕ → List (Option (Result BorrowedMessage))
polls b c zero = []
polls b c (suc n) = let (r, c') = poll_once b c in r ∷ polls b c' n

-- A consumer that reads one partition from an offset on.
pub record Reads (elem : TopicPartitionElem) (c : BaseConsumer) (o : ℕ) : Type 0 where
  pub only : c.assigned_partitions.elements ≡ elem ∷ []
  pub running : is_paused c elem ≡ false
  pub position : Map.get (elem.topic, elem.partition) c.position ≡ some (pos o)

moved : BaseConsumer → TopicPartitionElem → ℤ → BaseConsumer
moved c elem o = record (set_position c elem.topic elem.partition o) { poll_start = 1 }

after_round : Round → Option (Result BorrowedMessage) × BaseConsumer
after_round (skip c') = (none, c')
after_round (return r c') = (some r, c')

one_round :
    (b : Broker) (c : BaseConsumer) (elem : TopicPartitionElem) (o : ℕ)
    → Reads elem c o
    → poll_round b c 0 ≡ answered c 0 elem (fetch_for b c elem)
unfolding poll_round
one_round b c elem o r = rw (ap (λ l. get_elem? l 0) r.only, poll_round) (rw r.running refl)

-- A poll is the one round.
poll_once-single :
    (b : Broker) (c : BaseConsumer) (elem : TopicPartitionElem) (o : ℕ)
    → Reads elem c o
    → poll_once b c ≡ after_round (poll_round b c 0)
unfolding poll_once poll_loop after_round
poll_once-single b c elem o r =
    let len : length c.assigned_partitions.elements ≡ 1 = ap length r.only in
    let start : (c.poll_start % 1 + 0) % 1 ≡ 0 =
      omega (arith, mod-lt (c.poll_start % 1 + 0) {m = 1} (omega arith)) in
    rw len (ap (λ i. after_round (poll_round b c i)) start)

abbrev pub found : StoredMessage → Option (Result BorrowedMessage)
found m = some (ok (record { inner = m }))

next_pos : (o : ℕ) → pos o +ℤ pos 1 ≡ pos (suc o)
next_pos o = ground arith

-- The polls of a consumer at an unchanged broker, up to the first that finds nothing.
pub data Drains (b : Broker) : BaseConsumer → List StoredMessage → Type 0 where
  done : {c : BaseConsumer} → poll_once b c ≡ (none, c) → Drains b c []
  more :
      {c c' : BaseConsumer} {m : StoredMessage} {ms : List StoredMessage}
      → poll_once b c ≡ (found m, c')
      → Drains b c' ms
      → Drains b c (m ∷ ms)

pub polls-Drains :
    {b : Broker} {c : BaseConsumer} {ms : List StoredMessage}
    → Drains b c ms
    → polls b c (suc (length ms)) ≡ map found ms ++ none ∷ []
unfolding polls
polls-Drains (done e) = rw e refl
polls-Drains (more {m = m} e d) = rw e (ap (λ l. found m ∷ l) (polls-Drains d))

module _ (b : Broker) (elem : TopicPartitionElem) (history : List StoredMessage)
    (numbered : (i : ℕ) (m : StoredMessage) → get_elem? history i ≡ some m → m.offset ≡ pos i) where
  -- Every read from `o` on finds what the history has there.
  abbrev Readable : ℕ → Type 0
  Readable o =
      (i : ℕ) (g : Option String)
      → o ≤ i
      → i ≤ length history
      → Broker.fetch_one_from_position b elem.topic elem.partition (some (pos i)) g
        ≡ ok (get_elem? history i)

  fetched_at :
      (c : BaseConsumer) (o : ℕ)
      → Reads elem c o
      → o ≤ length history
      → Readable o
      → fetch_for b c elem ≡ ok (get_elem? history o)
  unfolding fetch_for
  fetched_at c o r h readable = rw r.position (readable o c.group_id (omega arith) h)

  -- The poll at the offset `o`, with what the history has there.
  poll_at :
      (c : BaseConsumer) (o : ℕ) {x : Option StoredMessage}
      → Reads elem c o
      → o ≤ length history
      → Readable o
      → get_elem? history o ≡ x
      → poll_once b c ≡ after_round (answered c 0 elem (ok x))
  poll_at c o r h readable e =
      poll_once-single b c elem o r
      ∙ ap after_round
          (one_round b c elem o r ∙ ap (answered c 0 elem) (fetched_at c o r h readable ∙ ap ok e))

  poll-last :
      (c : BaseConsumer)
      → Reads elem c (length history)
      → Readable (length history)
      → poll_once b c ≡ (none, c)
  unfolding after_round
  poll-last c r readable =
      poll_at c (length history) r (omega arith) readable
        (get_elem?-none history (length history) (omega arith))

  poll-next :
      (c : BaseConsumer) (o : ℕ) (m : StoredMessage)
      → Reads elem c o
      → get_elem? history o ≡ some m
      → Readable o
      → poll_once b c ≡ (found m, moved c elem (pos (suc o)))
  unfolding after_round moved
  poll-next c o m r at readable =
      let h : o < length history = get_elem?-lt history o at in
      poll_at c o r (omega arith) readable at
      ∙ ap (λ p. (found m, moved c elem p)) (ap (λ p. p +ℤ pos 1) (numbered o m at) ∙ next_pos o)

  moved-Reads :
      (c : BaseConsumer) (o : ℕ) → Reads elem c o → Reads elem (moved c elem (pos (suc o))) (suc o)
  unfolding moved
  moved-Reads c o r = record {
    only = r.only;
    running = r.running;
    position = get-insert_self (elem.topic, elem.partition) (pos (suc o)) c.position;
  }

  pub reads-Drains :
      (n o : ℕ) (c : BaseConsumer)
      → n + o ≡ length history
      → Reads elem c o
      → Readable o
      → Drains b c (drop o history)
  reads-Drains zero o c e r readable =
      let here : o ≡ length history = omega (arith, e) in
      let last =
        poll-last c (subst (Reads elem c) here r)
          (λ i g h k. readable i g (omega (arith, here)) k) in
      let nothing : drop o history ≡ [] = ap (λ k. drop k history) here ∙ drop_all history in
      subst (Drains b c) (sym nothing) (done last)
  reads-Drains (suc n) o c e r readable =
      let (m, at) = get_elem?_found history o (omega (arith, e)) in
      let rest =
        reads-Drains n (suc o) (moved c elem (pos (suc o))) (omega (arith, e)) (moved-Reads c o r)
          (λ i g h k. readable i g (omega arith) k) in
      subst (Drains b c) (sym (drop_at history o at)) (more (poll-next c o m r at readable) rest)
