-- ===== src/Partition/Append.antt =====
-- Appending: offsets are consecutive, and the log stays a suffix of what was appended.
use rmem_queue.Base.{
  ℕ, ◌+◌, ◌≤◌, ◌≡◌, refl, ap, ◌∙◌, sym, Bool, true, false, ◌&&◌, ℤ, pos, some, List, [], ◌∷◌, ◌++◌,
  arith, ltb, leb, length, drop, length-drop, if◌then◌else◌, length-append, drop-append, drop-drop,
  get_elem?, get_elem?-append_left, get_elem?-append_last, get_elem?-lt, String,
}
use rmem_queue.Error.{Result, ok}
use rmem_queue.Message.{StoredMessage}
use rmem_queue.Partition.{Partition, PartitionBuffer, Clock, evict_buffer, push_message, store}
use rmem_queue.Partition.Spec.{IsLog, IsLog-length}
use rmem_queue.Partition.Evict.{evict_log_least}

-- The message at index `i` of a history carries the offset `i` and the names of its partition.
pub record IsNumbered (topic : String) (id : ℤ) (history : List StoredMessage) : Type 0 where
  pub at :
      (i : ℕ) (m : StoredMessage)
      → get_elem? history i ≡ some m
      → (m.offset ≡ pos i) × (m.topic ≡ topic) × (m.partition ≡ id)

IsNumbered-append :
    {topic : String} {id : ℤ} {history : List StoredMessage} (msg : StoredMessage)
    → IsNumbered topic id history
    → msg.offset ≡ pos (length history)
    → msg.topic ≡ topic
    → msg.partition ≡ id
    → IsNumbered topic id (history ++ msg ∷ [])
IsNumbered-append {history = history} msg n o t p = record {
  at = λ i m h. ground (
    arith,
    n.at i m,
    get_elem?-append_left history (msg ∷ []) i,
    get_elem?-append_last history msg,
    get_elem?-lt (history ++ msg ∷ []) i h,
    length-append history (msg ∷ []),
  );
}

drop-if :
    (b : Bool) (xs : List StoredMessage)
    → (k : ℕ) × (k ≤ 1) × ((if b then drop 1 xs else xs) ≡ drop k xs)
drop-if true xs = (1, omega arith, refl)
drop-if false xs = (0, omega arith, refl)

push_message-drop :
    (buf : PartitionBuffer) (msg : StoredMessage)
    → (k : ℕ) × (k ≤ 1) × ((push_message buf msg).log ≡ drop k (buf.log ++ msg ∷ []))
unfolding push_message
push_message-drop buf msg =
    let log = buf.log ++ msg ∷ [] in
    drop-if (ltb 0 buf.max_capacity && leb buf.max_capacity (length log)) log

push_message-next :
    (buf : PartitionBuffer) (msg : StoredMessage)
    → (push_message buf msg).next_offset ≡ buf.next_offset + 1
unfolding push_message
push_message-next buf msg = refl

store-IsLog :
    {p : Partition} {history : List StoredMessage} {start : ℕ} (clock : Clock) (msg : StoredMessage)
    → IsLog p history start
    → (start' : ℕ) × (start ≤ start') × IsLog (store clock p msg) (history ++ msg ∷ []) start'
unfolding store evict_buffer
store-IsLog {p} {history} {start} clock msg l =
    let log = p.buffer.log ++ msg ∷ [] in
    let (j, small, pushed) = push_message-drop p.buffer msg in
    let (k, d) =
      evict_log_least (push_message p.buffer msg).policies clock.checked
        (push_message p.buffer msg).log in
    let longer : log ≡ drop start (history ++ msg ∷ []) =
      ap (λ xs. xs ++ msg ∷ []) l.kept ∙ sym (drop-append start history (msg ∷ []) l.within) in
    let added : length log ≡ length p.buffer.log + 1 = length-append p.buffer.log (msg ∷ []) in
    let total : length (history ++ msg ∷ []) ≡ length history + 1 =
      length-append history (msg ∷ []) in
    let room : k + j ≤ length log = omega (arith, d.within, ap length pushed, length-drop j log) in
    (
      k + (j + start),
      omega arith,
      record {
        within = omega (arith, IsLog-length l, l.next);
        next = omega (arith, l.next, push_message-next p.buffer msg);
        kept =
            d.result
            ∙ ap (drop k) (pushed ∙ ap (drop j) longer ∙ drop-drop j start (history ++ msg ∷ []))
            ∙ drop-drop k (j + start) (history ++ msg ∷ []);
      },
    )

-- The partition as a log whose entries carry their offsets.
pub record IsPartition (p : Partition) (history : List StoredMessage) (start : ℕ) : Type 0 where
  pub log : IsLog p history start
  pub numbered : IsNumbered p.topic_name p.partition_id history

-- What `append` and `append_typed` leave: the result `offset`, and a history with one more message.
abbrev pub Appended :
    Partition → List StoredMessage → ℕ → StoredMessage → Result (ℤ × ℤ) × Partition → Type 0
Appended p history start msg (r, p') =
    (r ≡ ok (p.partition_id, pos (length history)))
    × ((start' : ℕ) × (start ≤ start') × IsPartition p' (history ++ msg ∷ []) start')

pub store-IsPartition :
    {p : Partition} {history : List StoredMessage} {start : ℕ} (clock : Clock) (msg : StoredMessage)
    → IsPartition p history start
    → msg.offset ≡ pos p.buffer.next_offset
    → msg.topic ≡ p.topic_name
    → msg.partition ≡ p.partition_id
    → Appended p history start msg
        (ok (p.partition_id, pos p.buffer.next_offset), store clock p msg)
unfolding store
store-IsPartition {p} {history} {start} clock msg v o t i =
    let (start', grown, l) = store-IsLog clock msg v.log in
    (
      ap (λ n. ok (p.partition_id, pos n)) v.log.next,
      (
        start',
        grown,
        record { log = l; numbered = IsNumbered-append msg v.numbered (o ∙ ap pos v.log.next) t i },
      ),
    )
