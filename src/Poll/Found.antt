-- ===== src/Poll/Found.antt =====
-- Where a polled message comes from, and what polling it changes.
use rmem_queue.Base.{
  ℕ, zero, suc, ◌+◌, ◌%◌, ℤ, pos, String, ◌+ℤ◌, ◌≡◌, refl, ◌∙◌, true, false, Option, none, some,
  length, get_elem?, ◌==◌, nat_eq, int_eq, string_eq, pair_eq, Option-cases, ◌⊎◌, inl, inr, arith,
  if_both,
}
use rmem_queue.Base.Map
use rmem_queue.Broker.{Broker}
use rmem_queue.Consumer.{BaseConsumer}
use rmem_queue.Consumer.Positions.{set_position}
use rmem_queue.Error.{
  RmqError, topic_not_found, partition_out_of_range, offset_out_of_range, group_not_found,
  already_subscribed, not_subscribed, broker_shutdown, buffer_full, invalid_config, custom, Result,
  ok, err, panic,
}
use rmem_queue.Message.{StoredMessage, BorrowedMessage}
use rmem_queue.Poll.{
  Round, skip, return, is_paused, answered, fetch_for, poll_round, poll_loop, poll_once,
}
use rmem_queue.TopicPartition.{TopicPartitionElem}

-- Two states of a consumer that differ in its positions at most.
pub record Same (c d : BaseConsumer) : Type 0 where
  pub assigned : c.assigned_partitions ≡ d.assigned_partitions
  pub paused : c.paused ≡ d.paused
  pub subscribed : c.subscribed_topics ≡ d.subscribed_topics

-- What the rounds before a decision do: `d` is `c`, but for each partition that is assigned, not
-- paused and whose position was out of range, which is moved to the oldest offset that the broker
-- named.
pub data Skips (b : Broker) (c : BaseConsumer) : BaseConsumer → Type 0 where
  stays : Skips b c c
  moves :
      {d : BaseConsumer} (idx : ℕ) (elem : TopicPartitionElem) (topic : String)
      (partition oldest : ℤ)
      → Skips b c d
      → get_elem? d.assigned_partitions.elements idx ≡ some elem
      → Map.get (elem.topic, elem.partition) d.paused ≡ none
      → fetch_for b d elem ≡ err (offset_out_of_range topic partition oldest)
      → Skips b c (set_position d elem.topic elem.partition oldest)

-- After the rounds that led from `c` to `before`, the broker gave `x` for an element of the
-- assignment that is not paused.
pub record Answers (b : Broker) (c before : BaseConsumer) (idx : ℕ) (elem : TopicPartitionElem)
    (x : Result (Option StoredMessage)) : Type 0 where
  pub skipped : Skips b c before
  pub same : Same before c
  pub assigned : get_elem? c.assigned_partitions.elements idx ≡ some elem
  pub not_paused : Map.get (elem.topic, elem.partition) c.paused ≡ none
  pub fetched : fetch_for b before elem ≡ x

-- The message `m` was found at the index `idx` of the assignment of `c`, and `c'` is left.
pub record Found (b : Broker) (c : BaseConsumer) (m : BorrowedMessage) (c' : BaseConsumer)
    : Type 0 where
  pub idx : ℕ
  pub elem : TopicPartitionElem
  pub before : BaseConsumer
  pub answers : Answers b c before idx elem (ok (some m.inner))
  pub left : c' ≡ record (set_position before elem.topic elem.partition (m.inner.offset +ℤ pos 1)) {
    poll_start = idx + 1;
  }

-- The broker failed with `x`, and the consumer is left as that round found it.
pub record Failed (b : Broker) (c : BaseConsumer) (x : Result (Option StoredMessage))
    (c' : BaseConsumer) : Type 0 where
  pub idx : ℕ
  pub elem : TopicPartitionElem
  pub answers : Answers b c c' idx elem x

-- Nothing was decided.
pub record Passed (b : Broker) (c c' : BaseConsumer) : Type 0 where
  pub skipped : Skips b c c'
  pub same : Same c' c

-- What one round tells.
abbrev Told : Broker → BaseConsumer → Round → Type 0
Told b c (skip c') = Passed b c c'
Told b c (return (ok m) c') = Found b c m c'
Told b c (return (err e) c') = Failed b c (err e) c'
Told b c (return panic c') = Failed b c panic c'

Same-self : (c : BaseConsumer) → Same c c
Same-self c = record { assigned = refl; paused = refl; subscribed = refl }

Passed-self : (b : Broker) (c : BaseConsumer) → Passed b c c
Passed-self b c = record { skipped = stays; same = Same-self c }

-- A round at an element of the assignment that is not paused, which the broker answers with `x`.
module _ (b : Broker) (c : BaseConsumer) (idx : ℕ) (elem : TopicPartitionElem)
    (at : get_elem? c.assigned_partitions.elements idx ≡ some elem)
    (up : Map.get (elem.topic, elem.partition) c.paused ≡ none) where
  now : (x : Result (Option StoredMessage)) → fetch_for b c elem ≡ x → Answers b c c idx elem x
  now x e = record {
    skipped = stays;
    same = Same-self c;
    assigned = at;
    not_paused = up;
    fetched = e;
  }

  fails : (x : Result (Option StoredMessage)) → fetch_for b c elem ≡ x → Failed b c x c
  fails x e = record { idx = idx; elem = elem; answers = now x e }

  failed-Told : (x : RmqError) → fetch_for b c elem ≡ err x → Told b c (answered c idx elem (err x))
  failed-Told (topic_not_found _) e = Passed-self b c
  failed-Told (partition_out_of_range _ _) e = Passed-self b c
  failed-Told (offset_out_of_range t p o) e = record {
    skipped = moves idx elem t p o stays at up e;
    same = record { assigned = refl; paused = refl; subscribed = refl };
  }
  failed-Told (group_not_found g) e = fails (err (group_not_found g)) e
  failed-Told (already_subscribed t) e = fails (err (already_subscribed t)) e
  failed-Told not_subscribed e = fails (err not_subscribed) e
  failed-Told broker_shutdown e = fails (err broker_shutdown) e
  failed-Told (buffer_full t p) e = fails (err (buffer_full t p)) e
  failed-Told (invalid_config m) e = fails (err (invalid_config m)) e
  failed-Told (custom m) e = fails (err (custom m)) e

  answered-Told :
      (r : Result (Option StoredMessage))
      → fetch_for b c elem ≡ r
      → Told b c (answered c idx elem r)
  answered-Told (ok (some msg)) e = record {
    idx = idx;
    elem = elem;
    before = c;
    answers = now (ok (some msg)) e;
    left = refl;
  }
  answered-Told (ok none) e = Passed-self b c
  answered-Told panic e = fails panic e
  answered-Told (err x) e = failed-Told x e

paused_cases :
    (c : BaseConsumer) (elem : TopicPartitionElem)
    → ((is_paused c elem ≡ false) × (Map.get (elem.topic, elem.partition) c.paused ≡ none))
      ⊎ (is_paused c elem ≡ true)
paused_cases c elem = ground arith

poll_round-Told : (b : Broker) (c : BaseConsumer) (idx : ℕ) → Told b c (poll_round b c idx)
unfolding poll_round
poll_round-Told b c idx = elim (Option-cases (get_elem? c.assigned_partitions.elements idx)) [
  | inl nothing ↦ rw (nothing, poll_round) (Passed-self b c)
  | inr (elem, at) ↦ elim (paused_cases c elem) [
    | inl (test, up) ↦
        rw (at, poll_round) (rw test (answered-Told b c idx elem at up (fetch_for b c elem) refl))
    | inr down ↦ rw (at, poll_round) (rw down (Passed-self b c))
  ]
]

Same-trans : {c d e : BaseConsumer} → Same c d → Same d e → Same c e
Same-trans p q = record {
  assigned = p.assigned ∙ q.assigned;
  paused = p.paused ∙ q.paused;
  subscribed = p.subscribed ∙ q.subscribed;
}

Skips-trans : {b : Broker} {c d e : BaseConsumer} → Skips b c d → Skips b d e → Skips b c e
Skips-trans first stays = first
Skips-trans first (moves idx elem t p o later at up f) =
    moves idx elem t p o (Skips-trans first later) at up f

-- A round that decided nothing comes before.
module _ {b : Broker} {c d : BaseConsumer} (first : Passed b c d) where
  Answers-later :
      {before : BaseConsumer} {idx : ℕ} {elem : TopicPartitionElem}
      {x : Result (Option StoredMessage)}
      → Answers b d before idx elem x
      → Answers b c before idx elem x
  Answers-later a = record {
    skipped = Skips-trans first.skipped a.skipped;
    same = Same-trans a.same first.same;
    assigned = cc (first.same.assigned, a.assigned);
    not_paused = cc (first.same.paused, a.not_paused);
    fetched = a.fetched;
  }

  Failed-later :
      {x : Result (Option StoredMessage)} {c' : BaseConsumer} → Failed b d x c' → Failed b c x c'
  Failed-later f = record { idx = f.idx; elem = f.elem; answers = Answers-later f.answers }

  Found-later : {m : BorrowedMessage} {c' : BaseConsumer} → Found b d m c' → Found b c m c'
  Found-later f = record {
    idx = f.idx;
    elem = f.elem;
    before = f.before;
    answers = Answers-later f.answers;
    left = f.left;
  }

  Passed-later : {c' : BaseConsumer} → Passed b d c' → Passed b c c'
  Passed-later p = record {
    skipped = Skips-trans first.skipped p.skipped;
    same = Same-trans p.same first.same;
  }

-- What a poll tells.
abbrev pub Polled : Broker → BaseConsumer → Option (Result BorrowedMessage) × BaseConsumer → Type 0
Polled b c (some (ok m), c') = Found b c m c'
Polled b c (some (err e), c') = Failed b c (err e) c'
Polled b c (some panic, c') = Failed b c panic c'
Polled b c (none, c') = Passed b c c'

Polled-later :
    (b : Broker) {c d : BaseConsumer} (r : Option (Result BorrowedMessage) × BaseConsumer)
    → Passed b c d
    → Polled b d r
    → Polled b c r
Polled-later b (some (ok m), c') s p = Found-later s p
Polled-later b (some (err e), c') s p = Failed-later s p
Polled-later b (some panic, c') s p = Failed-later s p
Polled-later b (none, c') s p = Passed-later s p

-- A round, and the rounds after it if it decides nothing.
round-Polled :
    (b : Broker) (c : BaseConsumer) (r : Round)
    (later : BaseConsumer → Option (Result BorrowedMessage) × BaseConsumer)
    → ((d : BaseConsumer) → Polled b d (later d))
    → Told b c r
    → Polled b c (elim r [ skip d ↦ later d | return x d ↦ (some x, d) ])
round-Polled b c (skip d) later k t = Polled-later b (later d) t (k d)
round-Polled b c (return (ok m) d) later k t = t
round-Polled b c (return (err e) d) later k t = t
round-Polled b c (return panic d) later k t = t

poll_loop-Polled :
    (b : Broker) (start len : ℕ) (c : BaseConsumer) (i n : ℕ)
    → Polled b c (poll_loop b start len c i n)
unfolding poll_loop
poll_loop-Polled b start len c i zero = Passed-self b c
poll_loop-Polled b start len c i (suc n) =
    round-Polled b c (poll_round b c ((start + i) % len)) (λ d. poll_loop b start len d (i + 1) n)
      (λ d. poll_loop-Polled b start len d (i + 1) n) (poll_round-Told b c ((start + i) % len))

-- A message that `poll_once` returns comes from a partition of the assignment that is not paused,
-- and is what the broker gives at the consumer's position there; the position then is the offset
-- after the message, and the next poll starts at the element after. An error or a panic is what the
-- broker gave for such a partition. The positions are those before the poll, but for assigned
-- partitions whose position was out of range, which are moved to the oldest offset that the broker
-- named. Nothing else of the consumer changes; in particular a poll changes neither the assignment
-- nor the subscription nor what is paused.
pub poll_once-Polled : (b : Broker) (c : BaseConsumer) → Polled b c (poll_once b c)
unfolding poll_once
poll_once-Polled b c =
    let len = length c.assigned_partitions.elements in
    if_both (Polled b c) (len == 0) (Passed-self b c)
      (poll_loop-Polled b (c.poll_start % len) len c 0 len)
