-- ===== src/Partition.antt =====
-- src/partition.rs: a bounded log of messages with eviction. Locks are held for a whole operation,
-- so an operation is one step. `now` is the monotonic clock, read once for an eviction pass.
pub mod Spec
pub mod Overflow
pub mod Append
pub mod Evict
pub mod Runs
pub mod Capacity
pub mod Watermarks
mod Tests
use rmem_queue.Base.{
  ℕ, suc, ◌+◌, ◌-◌, ◌/◌, ◌%◌, ◌^◌, ℤ, pos, pos_part, ◌-ℤ◌, ltb_ℤ, String, Bool, true, false, ◌&&◌,
  ◌||◌, Option, none, some, List, [], ◌∷◌, ◌++◌, length, get_elem?, any, take, drop, min, ltb, leb,
  ◌==◌, nat_eq, int_eq, if◌then◌else◌,
}
use rmem_queue.Error.{RmqError, offset_out_of_range, Result, ok, err, panic, or_panic, ◌>>=◌}
use rmem_queue.Headers.{Bytes, OwnedHeaders}
use rmem_queue.Message.{DynAny, StoredMessage}
use rmem_queue.Message

-- `Box<dyn EvictionPolicy>`: the crate boxes these two only.
pub data EvictionPolicy : Type 0 where
  time_eviction : ℕ → EvictionPolicy
  capacity_eviction : ℕ → EvictionPolicy

-- `created_at().elapsed().as_millis() as u64`, from readings in nanoseconds.
unfoldable pub elapsed_millis : ℕ → ℕ → ℕ
elapsed_millis now created_at = (now - created_at) / 1000000 % 2 ^ 64

unfoldable pub should_evict : EvictionPolicy → ℕ → ℕ → StoredMessage → Bool
should_evict (time_eviction retention_ms) now buffer_len front =
    ltb retention_ms (elapsed_millis now front.created_at)
should_evict (capacity_eviction retention_capacity) now buffer_len front =
    ltb retention_capacity buffer_len

pub record PartitionConfig : Type 0 where
  pub max_capacity : ℕ
  pub retention_ms : Option ℕ
  pub retention_capacity : Option ℕ

-- `if let Some(x) = o { policies.push(f(x)) }`
abbrev pub policy_of : (ℕ → EvictionPolicy) → Option ℕ → List EvictionPolicy
policy_of f none = []
policy_of f (some x) = f x ∷ []

unfoldable pub build_policies : PartitionConfig → List EvictionPolicy
build_policies c =
    policy_of time_eviction c.retention_ms ++ policy_of capacity_eviction c.retention_capacity

pub record PartitionBuffer : Type 0 where
  pub log : List StoredMessage
  pub next_offset : ℕ
  pub max_capacity : ℕ
  pub policies : List EvictionPolicy

-- `notified` counts the calls of `PartitionNotify::notify`.
pub record Partition : Type 0 where
  pub topic_name : String
  pub partition_id : ℤ
  pub buffer : PartitionBuffer
  pub notified : ℕ

unfoldable pub new : String → ℤ → PartitionConfig → Partition
new topic_name partition_id config = record {
  topic_name = topic_name;
  partition_id = partition_id;
  buffer = record {
    log = [];
    next_offset = 0;
    max_capacity = config.max_capacity;
    policies = build_policies config;
  };
  notified = 0;
}

-- The clock readings of one call: `SystemTime::now` in milliseconds, `Instant::now` when the message
-- is made, and when the front of the log is examined.
pub record Clock : Type 0 where
  pub wall : ℤ
  pub created : ℕ
  pub checked : ℕ

-- The loop of `evict_buffer`, on the log.
unfoldable pub evict_log : List EvictionPolicy → ℕ → List StoredMessage → List StoredMessage
evict_log policies now [] = []
evict_log policies now (front ∷ rest) =
    elim (any (λ p. should_evict p now (suc (length rest)) front) policies) [
      | true ↦ evict_log policies now rest
      | false ↦ front ∷ rest
    ]

unfoldable pub evict_buffer : ℕ → PartitionBuffer → PartitionBuffer
evict_buffer now buf = record buf { log = evict_log buf.policies now buf.log }

unfoldable pub evict : ℕ → Partition → Partition
evict now p = record p { buffer = evict_buffer now p.buffer }

-- `buf.log.push_back(msg)` and the capacity check.
unfoldable pub push_message : PartitionBuffer → StoredMessage → PartitionBuffer
push_message buf msg =
    let log = buf.log ++ msg ∷ [] in
    record buf {
      log = if ltb 0 buf.max_capacity && leb buf.max_capacity (length log) then drop 1 log else log;
      next_offset = buf.next_offset + 1;
    }

abbrev pub timestamp_or : Option ℤ → Clock → ℤ
timestamp_or none clock = clock.wall
timestamp_or (some ts) clock = ts

-- What `append` and `append_typed` do with the message that they made.
unfoldable pub store : Clock → Partition → StoredMessage → Partition
store clock p msg = record p {
  buffer = evict_buffer clock.checked (push_message p.buffer msg);
  notified = p.notified + 1;
}

unfoldable pub append :
    Clock
    → Partition
    → Option Bytes
    → Option Bytes
    → Option OwnedHeaders
    → Option ℤ
    → Result (ℤ × ℤ) × Partition
append clock p key payload headers timestamp =
    let ts = timestamp_or timestamp clock in
    let offset = pos p.buffer.next_offset in
    let msg = Message.new key payload p.topic_name p.partition_id offset ts headers clock.created in
    (ok (p.partition_id, offset), store clock p msg)

unfoldable pub append_typed :
    Clock
    → Partition
    → DynAny
    → Option DynAny
    → Option OwnedHeaders
    → Option ℤ
    → Result (ℤ × ℤ) × Partition
append_typed clock p typed_payload typed_key headers timestamp =
    let ts = timestamp_or timestamp clock in
    let offset = pos p.buffer.next_offset in
    let msg =
      Message.new_typed typed_payload typed_key p.topic_name p.partition_id offset ts headers
        clock.created in
    (ok (p.partition_id, offset), store clock p msg)

abbrev pub is_empty {ℓ} : {A : Type ℓ} → List A → Bool
is_empty [] = true
is_empty (x ∷ xs) = false

-- `next_offset - log.len() as i64`
abbrev pub oldest_offset : PartitionBuffer → ℤ
oldest_offset b = pos b.next_offset -ℤ pos (length b.log)

abbrev pub out_of_range : Partition → ℤ → RmqError
out_of_range p offset = offset_out_of_range p.topic_name p.partition_id offset

-- The tests that `read_one` and `read` share: `none` where there is nothing to read yet, and the
-- index of the offset in the log.
abbrev pub locate : Partition → ℤ → Result (Option ℕ)
locate p offset =
    let b = p.buffer in
    let oldest = oldest_offset b in
    if is_empty b.log
    then (if offset == pos 0 || offset == pos b.next_offset
        then ok none
        else err (out_of_range p offset))
    else if ltb_ℤ offset oldest || ltb_ℤ (pos b.next_offset) offset
    then err (out_of_range p offset)
    else if offset == pos b.next_offset
    then ok none
    else ok (some (pos_part (offset -ℤ oldest)))

unfoldable pub read_one : Partition → ℤ → Result (Option StoredMessage)
read_one p offset = locate p offset >>= λ found. elim found [
  | none ↦ ok none
  | some idx ↦ or_panic (get_elem? p.buffer.log idx) >>= λ m. ok (some m)
]

-- `log.range(start..end).cloned().collect()`, which panics if the range is not within the log.
abbrev pub range : List StoredMessage → ℕ → ℕ → Result (List StoredMessage)
range log start end =
    if leb start end && leb end (length log)
    then ok (take (end - start) (drop start log))
    else panic

-- `start + max_count` is an addition of `usize`, which wraps.
unfoldable pub read : Partition → ℤ → ℕ → Result (List StoredMessage)
read p offset max_count = locate p offset >>= λ found. elim found [
  | none ↦ ok []
  | some start ↦
      let end = min ((start + max_count) % 2 ^ 64) (length p.buffer.log) in
      range p.buffer.log start end
]

unfoldable pub watermarks : Partition → ℤ × ℤ
watermarks p =
    let b = p.buffer in
    let newest = pos b.next_offset -ℤ pos 1 in
    let oldest = if is_empty b.log then pos 0 else oldest_offset b in (oldest, newest)

unfoldable pub message_count : Partition → ℕ
message_count p = length p.buffer.log
