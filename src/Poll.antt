-- ===== src/Poll.antt =====
-- `poll_once` and `poll` of src/base_consumer.rs. The deadline and the waits are the environment's:
-- it decides how often `poll` tries.
pub mod Found
pub mod Progress
pub mod Order
pub mod Drain
pub mod Iterate
pub mod Seek
use rmem_queue.Base.{
  ℕ, zero, suc, ◌+◌, ◌%◌, pos, ◌+ℤ◌, Bool, true, false, Option, none, some, List, [], ◌∷◌, length,
  get_elem?, ◌==◌, nat_eq, int_eq, string_eq, pair_eq, if◌then◌else◌,
}
use rmem_queue.Base.Map
use rmem_queue.Broker
use rmem_queue.Broker.{Broker}
use rmem_queue.Consumer.{BaseConsumer}
use rmem_queue.Consumer.Positions.{set_position}
use rmem_queue.Error.{
  topic_not_found, partition_out_of_range, offset_out_of_range, Result, ok, err, panic,
}
use rmem_queue.Message.{StoredMessage, BorrowedMessage}
use rmem_queue.TopicPartition.{TopicPartitionElem}

-- What one round of the loop of `poll_once` decides.
pub data Round : Type 0 where
  skip : BaseConsumer → Round
  return : Result BorrowedMessage → BaseConsumer → Round

abbrev pub is_paused : BaseConsumer → TopicPartitionElem → Bool
is_paused c elem = elim (Map.get (elem.topic, elem.partition) c.paused) [
  | some _ ↦ true
  | none ↦ false
]

-- The `match` on the broker's answer.
abbrev pub answered : BaseConsumer → ℕ → TopicPartitionElem → Result (Option StoredMessage) → Round
answered c idx elem (ok (some msg)) =
    return (ok (record { inner = msg }))
      (record (set_position c elem.topic elem.partition (msg.offset +ℤ pos 1)) {
        poll_start = idx + 1;
      })
answered c idx elem (ok none) = skip c
answered c idx elem (err (offset_out_of_range _ _ o)) =
    skip (set_position c elem.topic elem.partition o)
answered c idx elem (err (topic_not_found _)) = skip c
answered c idx elem (err (partition_out_of_range _ _)) = skip c
answered c idx elem (err e) = return (err e) c
answered c idx elem panic = return panic c

unfoldable pub fetch_for :
    Broker → BaseConsumer → TopicPartitionElem → Result (Option StoredMessage)
fetch_for b c elem =
    Broker.fetch_one_from_position b elem.topic elem.partition
      (Map.get (elem.topic, elem.partition) c.position) c.group_id

-- One round, at the element with index `idx`.
unfoldable pub poll_round : Broker → BaseConsumer → ℕ → Round
poll_round b c idx = elim (get_elem? c.assigned_partitions.elements idx) [
  | none ↦ skip c
  | some elem ↦ if is_paused c elem then skip c else answered c idx elem (fetch_for b c elem)
]

-- The rounds `i..i + n` over `len` elements.
unfoldable pub poll_loop :
    Broker → ℕ → ℕ → BaseConsumer → ℕ → ℕ → Option (Result BorrowedMessage) × BaseConsumer
poll_loop b start len c i zero = (none, c)
poll_loop b start len c i (suc n) = elim (poll_round b c ((start + i) % len)) [
  | skip c' ↦ poll_loop b start len c' (i + 1) n
  | return r c' ↦ (some r, c')
]

unfoldable pub poll_once : Broker → BaseConsumer → Option (Result BorrowedMessage) × BaseConsumer
poll_once b c =
    let len = length c.assigned_partitions.elements in
    if len == 0 then (none, c) else poll_loop b (c.poll_start % len) len c 0 len

-- The attempts after the first.
abbrev pub until_found :
    Option (Result BorrowedMessage) × BaseConsumer
    → (BaseConsumer → Option (Result BorrowedMessage) × BaseConsumer)
    → Option (Result BorrowedMessage) × BaseConsumer
until_found (some r, c) again = (some r, c)
until_found (none, c) again = again c

-- `poll` with the broker as each attempt before the deadline finds it. There is at least one
-- attempt; the waits between them change nothing in the consumer.
unfoldable pub poll :
    Broker → List Broker → BaseConsumer → Option (Result BorrowedMessage) × BaseConsumer
poll b [] c = poll_once b c
poll b (b' ∷ later) c = until_found (poll_once b c) (poll b' later)
