-- ===== src/Poll/Progress.antt =====
-- When a poll of src/base_consumer.rs returns something.
use native.Mathlib.Nat.{mod-eq_of_lt, add-mod_right, mod-lt}
use rmem_queue.Base.{
  ℕ, zero, suc, ◌+◌, ◌-◌, ◌%◌, ◌≤◌, ◌<◌, ℤ, pos, ◌+ℤ◌, String, ◌≡◌, ◌≢◌, ◌⊎◌, refl, ap, ◌∙◌, false,
  Option, none, some, length, get_elem?, get_elem?-lt, ◌==◌, nat_eq, int_eq, string_eq, pair_eq,
  Bool-cases, Option-cases, inl, inr, arith, ltb,
}
use rmem_queue.Base.Map
use rmem_queue.Base.Map.{get-insert}
use rmem_queue.Broker.{Broker}
use rmem_queue.Broker.Calm.{fetch_one_from_position_calm}
use rmem_queue.Broker.Valid.{IsBroker}
use rmem_queue.Config.{BrokerConfig}
use rmem_queue.Poll.Found.{Found, Failed, Polled, poll_once-Polled}
use rmem_queue.Consumer.{BaseConsumer, PartitionKey}
use rmem_queue.Consumer.Positions.{set_position}
use rmem_queue.Error.{
  RmqError, topic_not_found, partition_out_of_range, offset_out_of_range, group_not_found,
  already_subscribed, not_subscribed, broker_shutdown, buffer_full, invalid_config, custom, Result,
  ok, err, panic,
}
use rmem_queue.Message.{StoredMessage, BorrowedMessage}
use rmem_queue.Poll.{
  Round, skip, return, is_paused, answered, fetch_for, poll_round, poll_loop, poll_once,
}
use rmem_queue.TopicPartition.{TopicPartitionElem}

-- The broker has a message at the consumer's position in a partition that is not paused.
pub record IsReady (b : Broker) (c : BaseConsumer) (elem : TopicPartitionElem) : Type 0 where
  pub message : StoredMessage
  pub running : is_paused c elem ≡ false
  pub fetched : fetch_for b c elem ≡ ok (some message)

-- A round that decides nothing.
pub record Skipped (b : Broker) (c c' : BaseConsumer) : Type 0 where
  pub assigned : c'.assigned_partitions ≡ c.assigned_partitions
  pub ready : (elem : TopicPartitionElem) → IsReady b c elem → IsReady b c' elem

Skipped-self : (b : Broker) (c : BaseConsumer) → Skipped b c c
Skipped-self b c = record { assigned = refl; ready = λ elem r. r }

abbrev key_of : TopicPartitionElem → PartitionKey
key_of elem = (elem.topic, elem.partition)

-- Another partition's position is moved.
moved-IsReady :
    (b : Broker) (c : BaseConsumer) (moved elem : TopicPartitionElem) (o : ℤ)
    → (key_of moved == key_of elem) ≡ false
    → IsReady b c elem
    → IsReady b (set_position c moved.topic moved.partition o) elem
unfolding fetch_for
moved-IsReady b c moved elem o other r = record {
  message = r.message;
  running = r.running;
  fetched = rw (get-insert (key_of moved) (key_of elem) o c.position, other) r.fetched;
}

-- A partition that is ready is not the one whose offset is out of range.
out_of_range-other :
    (b : Broker) (c : BaseConsumer) (moved elem : TopicPartitionElem) (t : String) (p o : ℤ)
    → fetch_for b c moved ≡ err (offset_out_of_range t p o)
    → IsReady b c elem
    → (key_of moved == key_of elem) ≡ false
unfolding fetch_for
out_of_range-other b c moved elem t p o e r = elim (Bool-cases (key_of moved == key_of elem)) [
  | inl same ↦
      let k : key_of moved ≡ key_of elem = ((pair_eq {A = String} {B = ℤ}).beq_iff _ _).0 same in
      absurd (cc (r.fetched, e, k))
  | inr other ↦ other
]

abbrev IsSkip : Broker → BaseConsumer → Round → Type 0
IsSkip b c (skip c') = Skipped b c c'
IsSkip b c (return r c') = Unit {0}

failed-IsSkip :
    (b : Broker) (c : BaseConsumer) (idx : ℕ) (elem : TopicPartitionElem) (x : RmqError)
    → fetch_for b c elem ≡ err x
    → IsSkip b c (answered c idx elem (err x))
failed-IsSkip b c idx elem (topic_not_found _) e = Skipped-self b c
failed-IsSkip b c idx elem (partition_out_of_range _ _) e = Skipped-self b c
failed-IsSkip b c idx elem (offset_out_of_range t p o) e = record {
  assigned = refl;
  ready = λ other r. moved-IsReady b c elem other o (out_of_range-other b c elem other t p o e r) r;
}
failed-IsSkip b c idx elem (group_not_found _) e = tt
failed-IsSkip b c idx elem (already_subscribed _) e = tt
failed-IsSkip b c idx elem not_subscribed e = tt
failed-IsSkip b c idx elem broker_shutdown e = tt
failed-IsSkip b c idx elem (buffer_full _ _) e = tt
failed-IsSkip b c idx elem (invalid_config _) e = tt
failed-IsSkip b c idx elem (custom _) e = tt

answered-IsSkip :
    (b : Broker) (c : BaseConsumer) (idx : ℕ) (elem : TopicPartitionElem)
    (r : Result (Option StoredMessage))
    → fetch_for b c elem ≡ r
    → IsSkip b c (answered c idx elem r)
answered-IsSkip b c idx elem (ok none) e = Skipped-self b c
answered-IsSkip b c idx elem (ok (some m)) e = tt
answered-IsSkip b c idx elem (err x) e = failed-IsSkip b c idx elem x e
answered-IsSkip b c idx elem panic e = tt

poll_round-IsSkip : (b : Broker) (c : BaseConsumer) (idx : ℕ) → IsSkip b c (poll_round b c idx)
unfolding poll_round
poll_round-IsSkip b c idx = elim (Option-cases (get_elem? c.assigned_partitions.elements idx)) [
  | inl nothing ↦ rw (nothing, poll_round) (Skipped-self b c)
  | inr (elem, at) ↦ elim (Bool-cases (is_paused c elem)) [
    | inl down ↦ rw (at, poll_round) (rw down (Skipped-self b c))
    | inr up ↦ rw (at, poll_round) (rw up (answered-IsSkip b c idx elem (fetch_for b c elem) refl))
  ]
]

-- The round at a partition that is ready returns its message.
poll_round-return :
    (b : Broker) (c : BaseConsumer) (idx : ℕ) (elem : TopicPartitionElem)
    → get_elem? c.assigned_partitions.elements idx ≡ some elem
    → (ready : IsReady b c elem)
    → (c' : BaseConsumer) × (poll_round b c idx ≡ return (ok (record { inner = ready.message })) c')
unfolding poll_round
poll_round-return b c idx elem at ready = (
  record (set_position c elem.topic elem.partition (ready.message.offset +ℤ pos 1)) {
    poll_start = idx + 1;
  },
  rw (at, poll_round) (rw ready.running (rw ready.fetched refl)),
)

abbrev pub Returns : Option (Result BorrowedMessage) × BaseConsumer → Type 0
Returns x = (r : Result BorrowedMessage) × (x.0 ≡ some r)

module _ (b : Broker) (start len : ℕ) (elem : TopicPartitionElem) where
  -- A round, and the rounds after it if it decides nothing.
  round-Returns :
      (c : BaseConsumer) (r : Round)
      (later : BaseConsumer → Option (Result BorrowedMessage) × BaseConsumer)
      → IsSkip b c r
      → ((d : BaseConsumer) → Skipped b c d → Returns (later d))
      → Returns (elim r [ skip d ↦ later d | return x d ↦ (some x, d) ])
  round-Returns c (skip d) later s k = k d s
  round-Returns c (return x d) later s k = (x, refl)

  poll_loop-Returns :
      (c : BaseConsumer) (i n k : ℕ)
      → i ≤ k
      → k < i + n
      → get_elem? c.assigned_partitions.elements ((start + k) % len) ≡ some elem
      → IsReady b c elem
      → Returns (poll_loop b start len c i n)
  unfolding poll_loop
  poll_loop-Returns c i zero k low high at ready = absurd (omega arith)
  poll_loop-Returns c i (suc n) k low high at ready = elim (Bool-cases (i == k)) [
    | inl same ↦
        let e : i ≡ k = ground arith in
        let (c', now) =
          poll_round-return b c ((start + i) % len) elem
            (ap (λ j. get_elem? c.assigned_partitions.elements ((start + j) % len)) e ∙ at) ready in
        (ok (record { inner = ready.message }), rw (now, poll_loop) refl)
    | inr other ↦
        round-Returns c (poll_round b c ((start + i) % len))
          (λ d. poll_loop b start len d (i + 1) n) (poll_round-IsSkip b c ((start + i) % len))
          λ d s.
            poll_loop-Returns d (i + 1) n k (ground arith) (omega arith)
              (ap (λ (l : _). get_elem? l.elements ((start + k) % len)) s.assigned ∙ at)
              (s.ready elem ready)
  ]

-- The round in which a loop from `start` comes to an index.
turn :
    (start idx len : ℕ) → start < len → idx < len → (k : ℕ) × (k < len) × ((start + k) % len ≡ idx)
turn start idx len s h = elim (Bool-cases (ltb idx start)) [
  | inl before ↦
      let e : start + (idx + len - start) ≡ idx + len = ground arith in
      (
        idx + len - start,
        ground arith,
        ap (λ n. n % len) e ∙ add-mod_right idx len ∙ mod-eq_of_lt h,
      )
  | inr after ↦
      let e : start + (idx - start) ≡ idx = ground arith in
      (idx - start, omega arith, ap (λ n. n % len) e ∙ mod-eq_of_lt h)
]

-- A poll with a partition that is ready does not report that there is nothing.
pub poll_once-some :
    (b : Broker) (c : BaseConsumer) (idx : ℕ) (elem : TopicPartitionElem)
    → get_elem? c.assigned_partitions.elements idx ≡ some elem
    → IsReady b c elem
    → Returns (poll_once b c)
unfolding poll_once
poll_once-some b c idx elem at ready =
    let len = length c.assigned_partitions.elements in
    let inside : idx < len = get_elem?-lt c.assigned_partitions.elements idx at in
    let some_left : (len == 0) ≡ false = ground (arith, inside) in
    let start = c.poll_start % len in
    let (k, small, lands) = turn start idx len (mod-lt c.poll_start (omega arith)) inside in
    rw some_left (
      poll_loop-Returns b start len elem c 0 len k (omega arith) (omega arith)
        (ap (get_elem? c.assigned_partitions.elements) lands ∙ at) ready)

-- A poll that returns a message that it found, or an error of the broker.
abbrev pub Tells : Broker → BaseConsumer → Option (Result BorrowedMessage) × BaseConsumer → Type 0
Tells b c x =
    ((m : BorrowedMessage) × (x.0 ≡ some (ok m)) × Found b c m x.1)
    ⊎ ((e : RmqError) × (x.0 ≡ some (err e)) × Failed b c (err e) x.1)

returned :
    (b : Broker) (c : BaseConsumer) (x : Option (Result BorrowedMessage) × BaseConsumer)
    → ((d : BaseConsumer) (elem : TopicPartitionElem) → fetch_for b d elem ≢ panic)
    → Returns x
    → Polled b c x
    → Tells b c x
returned b c (none, d) calm r p = absurd (cc (r.1))
returned b c (some (ok m), d) calm r p = inl (m, refl, p)
returned b c (some (err e), d) calm r p = inr (e, refl, p)
returned b c (some panic, d) calm r p = absurd (calm d p.elem p.answers.fetched)

-- If a valid broker has a message at the consumer's position in a partition that is assigned and not
-- paused, `poll_once` returns a message that it found in an assigned partition that is not paused, or
-- an error that the broker gave for one, wherever it starts and whatever the other partitions hold:
-- it does not report that there is nothing, and it does not panic.
pub poll_once-Returns :
    {config : BrokerConfig} (b : Broker) (c : BaseConsumer) (idx : ℕ) (elem : TopicPartitionElem)
    → IsBroker config b
    → get_elem? c.assigned_partitions.elements idx ≡ some elem
    → IsReady b c elem
    → Tells b c (poll_once b c)
unfolding fetch_for
poll_once-Returns b c idx elem v at ready =
    returned b c (poll_once b c)
      (λ d e.
        fetch_one_from_position_calm b v.backend e.topic e.partition
          (Map.get (e.topic, e.partition) d.position) d.group_id)
      (poll_once-some b c idx elem at ready) (poll_once-Polled b c)
