-- ===== src/Partition/Capacity.antt =====
-- How many messages a partition keeps, and which of them can be read.
use rmem_queue.Base.{
  ℕ, ◌+◌, ◌≤◌, ◌<◌, ◌≡◌, ◌≢◌, refl, ap, ◌∙◌, ◌&&◌, ℤ, pos, Option, some, List, [], ◌∷◌, ◌++◌, arith,
  ltb, leb, length, length-drop, if◌then◌else◌, length-append, get_elem?-append_last, String,
}
use rmem_queue.Error.{Result, ok}
use rmem_queue.Headers.{Bytes, OwnedHeaders}
use rmem_queue.Message.{StoredMessage, DynAny}
use rmem_queue.Message
use rmem_queue.Partition
use rmem_queue.Partition.{
  Partition, PartitionBuffer, PartitionConfig, Clock, evict_log, evict_buffer, evict, push_message,
  store, append, append_typed, timestamp_or, read_one, build_policies, out_of_range,
}
use rmem_queue.Partition.Spec.{IsLog-length, read_one_refines}
use rmem_queue.Partition.Evict.{evict_log_least, evict_log_capacity}
use rmem_queue.Partition.Append.{IsPartition, store-IsPartition}
use rmem_queue.Partition.Runs.{Op, appends, appends_typed, evicts, step, run}

evict_log_none : (now : ℕ) (log : List StoredMessage) → evict_log [] now log ≡ log
unfolding evict_log
evict_log_none now [] = refl
evict_log_none now (m ∷ ms) = refl

evict_log-le : (p : PartitionBuffer) (now : ℕ) → length (evict_buffer now p).log ≤ length p.log
unfolding evict_buffer
evict_log-le b now =
    let (k, d) = evict_log_least b.policies now b.log in
    omega (arith, ap length d.result, length-drop k b.log)

push_message-length :
    (b : PartitionBuffer) (msg : StoredMessage)
    → length (push_message b msg).log ≡ (
        if ltb 0 b.max_capacity && leb b.max_capacity (length b.log + 1)
        then length b.log
        else length b.log + 1)
unfolding push_message
push_message-length b msg =
    ground (arith, length-append b.log (msg ∷ []), length-drop 1 (b.log ++ msg ∷ []))

abbrev pub IsWithin : ℕ → Partition → Type 0
IsWithin cap p = (p.buffer.max_capacity ≡ cap) × (length p.buffer.log + 1 ≤ cap)

kept_capacity :
    (clock : Clock) (p : Partition) (msg : StoredMessage)
    → (evict_buffer clock.checked (push_message p.buffer msg)).max_capacity ≡ p.buffer.max_capacity
unfolding evict_buffer push_message
kept_capacity clock p msg = refl

evict-IsWithin : (cap now : ℕ) (p : Partition) → IsWithin cap p → IsWithin cap (evict now p)
unfolding evict evict_buffer
evict-IsWithin cap now p (e, h) =
    let (k, d) = evict_log_least p.buffer.policies now p.buffer.log in
    (e, omega (arith, ap length d.result, length-drop k p.buffer.log))

store-IsWithin :
    (cap : ℕ) (clock : Clock) (p : Partition) (msg : StoredMessage)
    → IsWithin cap p
    → IsWithin cap (store clock p msg)
unfolding store
store-IsWithin cap clock p msg (e, h) =
    let shorter : length (evict_buffer clock.checked (push_message p.buffer msg)).log
        ≤ length (push_message p.buffer msg).log =
      evict_log-le (push_message p.buffer msg) clock.checked in
    (kept_capacity clock p msg ∙ e, ground (arith, shorter, push_message-length p.buffer msg))

step-IsWithin : (cap : ℕ) (op : Op) (p : Partition) → IsWithin cap p → IsWithin cap (step p op)
unfolding step append append_typed
step-IsWithin cap (appends clock key payload headers ts) p h = store-IsWithin cap clock p _ h
step-IsWithin cap (appends_typed clock payload key headers ts) p h = store-IsWithin cap clock p _ h
step-IsWithin cap (evicts now) p h = evict-IsWithin cap now p h

run-IsWithin : (cap : ℕ) (ops : List Op) (p : Partition) → IsWithin cap p → IsWithin cap (run p ops)
unfolding run
run-IsWithin cap [] p h = h
run-IsWithin cap (op ∷ ops) p h = run-IsWithin cap ops (step p op) (step-IsWithin cap op p h)

-- A partition with `max_capacity` set never holds that many messages: one fewer is the most.
pub capacity_bound :
    (topic : String) (id : ℤ) (config : PartitionConfig) (ops : List Op)
    → 0 < config.max_capacity
    → length (run (Partition.new topic id config) ops).buffer.log + 1 ≤ config.max_capacity
unfolding Partition.new
capacity_bound topic id config ops h =
    (run-IsWithin config.max_capacity ops (Partition.new topic id config) (refl, h)).1

-- In a partition with the policies of a configuration that sets `retention_capacity`, an append
-- leaves at most that many messages.
pub retention_bound :
    (config : PartitionConfig) (c : ℕ) (clock : Clock) (p : Partition) (msg : StoredMessage)
    → config.retention_capacity ≡ some c
    → p.buffer.policies ≡ build_policies config
    → length (store clock p msg).buffer.log ≤ c
unfolding store evict_buffer push_message
retention_bound config c clock p msg e q = rw q (evict_log_capacity config c clock.checked _ e)

length-store :
    (clock : Clock) (p : Partition) (msg : StoredMessage)
    → p.buffer.policies ≡ []
    → length (store clock p msg).buffer.log ≡ length (push_message p.buffer msg).log
unfolding store evict_buffer push_message
length-store clock p msg e = rw e (ap length (evict_log_none clock.checked _))

module _ {p : Partition} {history : List StoredMessage} {start : ℕ} (clock : Clock)
    (v : IsPartition p history start) (unlimited : p.buffer.policies ≡ []) where
  -- Without retention policies, and unless `max_capacity` is 1, a message that is stored can be read
  -- at the offset that its append returns.
  pub store-read_one :
      (message : StoredMessage)
      → message.offset ≡ pos p.buffer.next_offset
      → message.topic ≡ p.topic_name
      → message.partition ≡ p.partition_id
      → p.buffer.max_capacity ≢ 1
      → read_one (store clock p message) (pos p.buffer.next_offset) ≡ ok (some message)
  store-read_one message o t i h =
      let (_, (start', grown, v')) = store-IsPartition clock message v o t i in
      ap (λ n. read_one (store clock p message) (pos n)) v.log.next
      ∙ read_one_refines v'.log (pos (length history))
      ∙ ground (
        arith,
        IsLog-length v'.log,
        v'.log.next,
        length-append history (message ∷ []),
        get_elem?-append_last history message,
        length-store clock p message unlimited,
        push_message-length p.buffer message,
      )

module _ {p : Partition} {history : List StoredMessage} {start : ℕ} (clock : Clock)
    (key payload : Option Bytes) (headers : Option OwnedHeaders) (ts : Option ℤ)
    (v : IsPartition p history start) (unlimited : p.buffer.policies ≡ []) where
  abbrev pub appended : Result (ℤ × ℤ) × Partition
  unfolding append
  appended = append clock p key payload headers ts

  abbrev message : StoredMessage
  message =
      Message.new key payload p.topic_name p.partition_id (pos p.buffer.next_offset)
        (timestamp_or ts clock) headers clock.created

  -- Without retention policies but with `max_capacity` 1, an append to an empty log drops the message.
  pub append_lost : p.buffer.max_capacity ≡ 1 → p.buffer.log ≡ [] → length appended.1.buffer.log ≡ 0
  unfolding append
  append_lost h e = ground (
    arith,
    length-store clock p message unlimited,
    push_message-length p.buffer message,
    ap length e,
  )
