-- ===== src/Partition/Runs.antt =====
-- A partition under any sequence of its operations, from its creation on.
use rmem_queue.Base.{
  ℕ, ◌+◌, ◌≤◌, ◌≡◌, refl, ap, ◌∙◌, subst, ℤ, pos, Option, List, [], ◌∷◌, ◌++◌, arith, length, drop,
  length-append, append-nil, append_assoc, drop-drop, String,
}
use rmem_queue.Error.{ok}
use rmem_queue.Headers.{Bytes, OwnedHeaders}
use rmem_queue.Message.{StoredMessage, DynAny}
use rmem_queue.Message
use rmem_queue.Partition
use rmem_queue.Partition.{
  Partition, PartitionBuffer, PartitionConfig, Clock, evict_log, evict_buffer, evict, push_message,
  store, append, append_typed, timestamp_or, read_one,
}
use rmem_queue.Partition.Spec.{IsLog-length, spec_read_one, read_one_refines}
use rmem_queue.Partition.Evict.{evict_log_least}
use rmem_queue.Partition.Append.{IsPartition, IsNumbered, Appended, store-IsPartition}

pub data Op : Type 0 where
  appends : Clock → Option Bytes → Option Bytes → Option OwnedHeaders → Option ℤ → Op
  appends_typed : Clock → DynAny → Option DynAny → Option OwnedHeaders → Option ℤ → Op
  evicts : ℕ → Op

unfoldable pub step : Partition → Op → Partition
step p (appends clock key payload headers ts) = (append clock p key payload headers ts).1
step p (appends_typed clock payload key headers ts) =
    (append_typed clock p payload key headers ts).1
step p (evicts now) = evict now p

unfoldable pub run : Partition → List Op → Partition
run p [] = p
run p (op ∷ ops) = run (step p op) ops

-- The messages that one operation adds, at offset `n`.
unfoldable pub added : String → ℤ → ℕ → Op → List StoredMessage
added topic id n (appends clock key payload headers ts) =
    Message.new key payload topic id (pos n) (timestamp_or ts clock) headers clock.created ∷ []
added topic id n (appends_typed clock payload key headers ts) =
    Message.new_typed payload key topic id (pos n) (timestamp_or ts clock) headers clock.created
    ∷ []
added topic id n (evicts now) = []

-- Every message that a sequence of operations appends, in order; offsets count up from `n`.
unfoldable pub produced : String → ℤ → ℕ → List Op → List StoredMessage
produced topic id n [] = []
produced topic id n (op ∷ ops) =
    added topic id n op ++ produced topic id (n + length (added topic id n op)) ops

pub new-IsPartition :
    (topic : String) (id : ℤ) (config : PartitionConfig)
    → IsPartition (Partition.new topic id config) [] 0
unfolding Partition.new
new-IsPartition topic id config = record {
  log = record { within = omega arith; next = refl; kept = refl };
  numbered = record { at = λ i m h. cc };
}

evict-IsPartition :
    {p : Partition} {history : List StoredMessage} {start : ℕ} (now : ℕ)
    → IsPartition p history start
    → (start' : ℕ) × (start ≤ start') × IsPartition (evict now p) history start'
unfolding evict evict_buffer
evict-IsPartition {p} {history} {start} now v =
    let (k, d) = evict_log_least p.buffer.policies now p.buffer.log in
    (
      k + start,
      omega arith,
      record {
        log = record {
          within = omega (arith, d.within, IsLog-length v.log, v.log.next);
          next = v.log.next;
          kept = d.result ∙ ap (drop k) v.log.kept ∙ drop-drop k start history;
        };
        numbered = v.numbered;
      },
    )

-- What one operation keeps: the names, and the log with the added messages at its end.
pub record Stepped (p p' : Partition) (history : List StoredMessage) (start : ℕ) (op : Op)
    : Type 0 where
  pub topic : p'.topic_name ≡ p.topic_name
  pub id : p'.partition_id ≡ p.partition_id
  pub start' : ℕ
  pub grown : start ≤ start'
  pub valid :
      IsPartition p' (history ++ added p.topic_name p.partition_id p.buffer.next_offset op) start'

store-Stepped :
    {p : Partition} {history : List StoredMessage} {start : ℕ} (clock : Clock) (msg : StoredMessage)
    (op : Op)
    → IsPartition p history start
    → Appended p history start msg
        (ok (p.partition_id, pos p.buffer.next_offset), store clock p msg)
    → added p.topic_name p.partition_id p.buffer.next_offset op ≡ msg ∷ []
    → Stepped p (store clock p msg) history start op
unfolding store
store-Stepped clock msg op v a e =
    let (start', grown, v') = a.1 in
    record { topic = refl; id = refl; start' = start'; grown = grown; valid = rw e v' }

pub step-Stepped :
    {p : Partition} {history : List StoredMessage} {start : ℕ} (op : Op)
    → IsPartition p history start
    → Stepped p (step p op) history start op
unfolding step append append_typed added evict
step-Stepped (appends clock key payload headers ts) v =
    store-Stepped clock _ (appends clock key payload headers ts) v
      (store-IsPartition clock _ v refl refl refl) refl
step-Stepped (appends_typed clock payload key headers ts) v =
    store-Stepped clock _ (appends_typed clock payload key headers ts) v
      (store-IsPartition clock _ v refl refl refl) refl
step-Stepped {p} {history} {start} (evicts now) v =
    let (start', grown, v') = evict-IsPartition now v in
    record {
      topic = refl;
      id = refl;
      start' = start';
      grown = grown;
      valid = rw (append-nil history) v';
    }

-- A run keeps the whole history, with what it appends at the end.
pub run-IsPartition :
    (ops : List Op) (p : Partition) (history : List StoredMessage) (start : ℕ)
    → IsPartition p history start
    → (start' : ℕ) × (start ≤ start')
      × IsPartition
          (run p ops)
          (history ++ produced p.topic_name p.partition_id p.buffer.next_offset ops)
          start'
unfolding run produced
run-IsPartition [] p history start v = (start, omega arith, rw (append-nil history) v)
run-IsPartition (op ∷ ops) p history start v =
    let q = step p op in
    let s = step-Stepped op v in
    let new = added p.topic_name p.partition_id p.buffer.next_offset op in
    let (start', grown, v') = run-IsPartition ops q (history ++ new) s.start' s.valid in
    let next : q.buffer.next_offset ≡ p.buffer.next_offset + length new =
      omega (arith, s.valid.log.next, v.log.next, length-append history new) in
    let rest : produced q.topic_name q.partition_id q.buffer.next_offset ops
        ≡ produced p.topic_name p.partition_id (p.buffer.next_offset + length new) ops =
      cc (s.topic, s.id, next) in
    (
      start',
      omega (arith, s.grown),
      subst (λ h. IsPartition (run q ops) h start')
          (append_assoc history new _ ∙ ap (λ xs. history ++ (new ++ xs)) rest) v',
    )

module _ (topic : String) (id : ℤ) (config : PartitionConfig) (ops : List Op) where
  abbrev pub reached : Partition
  reached = run (Partition.new topic id config) ops

  abbrev pub history : List StoredMessage
  history = produced topic id 0 ops

  -- From its creation on, whatever the operations, a partition is a log of all that was appended.
  pub reached-IsPartition : (start : ℕ) × IsPartition reached history start
  unfolding Partition.new
  reached-IsPartition =
      let (start, _, v) =
        run-IsPartition ops (Partition.new topic id config) [] 0
          (new-IsPartition topic id config) in
      (start, v)

  -- After any operations from a partition's creation, there is a first retained offset from which
  -- every read returns what was appended there, and below and above which reads behave as
  -- `spec_read_one` says; each message of the history carries its index as its offset.
  pub reached-read_one :
      (start : ℕ) × ((o : ℤ) → read_one reached o ≡ spec_read_one reached history start o)
      × IsNumbered reached.topic_name reached.partition_id history
  reached-read_one =
      let (start, v) = reached-IsPartition in (start, read_one_refines v.log, v.numbered)
