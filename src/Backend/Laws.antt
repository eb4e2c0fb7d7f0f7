-- ===== src/Backend/Laws.antt =====
-- What the backend's operations return.
use rmem_queue.Base.{
  ℕ, ℤ, pos, negsuc, String, ◌≡◌, refl, ap, ◌∙◌, Bool, true, false, Option, none, some, List, [],
  ◌∷◌, string_eq, nat_eq, ◌⊎◌, ◌↔◌, arith, get_elem?,
}
use rmem_queue.Base.Map
use rmem_queue.Base.Map.{beq_self, get-insert_self, get-insert}
use rmem_queue.Backend
use rmem_queue.Backend.{
  InMemoryBackend, make_partition_config, check_shutdown, ensure_topic, with_topic, get_topic,
  produce, produce_typed, fetch, fetch_one, watermarks, metadata, shutdown, wait_for_messages,
  wait_loop, topic_metadata, partitions_metadata, partition_metadata, topics_metadata,
}
use rmem_queue.Error.{Result, err, panic, broker_shutdown}
use rmem_queue.Headers.{Bytes, OwnedHeaders}
use rmem_queue.Partition.{Clock, Partition}
use rmem_queue.Topic
use rmem_queue.Topic.{Topic}
use rmem_queue.Topic.Laws.{replaced, with_partition_lem}

-- The partition with index `i` of a topic.
abbrev pub partition_at : InMemoryBackend → String → ℕ → Option Partition
partition_at b topic i = elim (Map.get topic b.topics) [
  | some t ↦ get_elem? t.partitions i
  | none ↦ none
]

-- After a shutdown every operation on messages is refused, and creates or stores nothing.
pub shutdown_refuses :
    (b : InMemoryBackend) (clock : Clock) (topic : String) (n p offset : ℤ) (max : ℕ)
    (key payload : Option Bytes) (headers : Option OwnedHeaders) (ts : Option ℤ) (id : String)
    (o : Option String)
    → let down = (shutdown b).1 in
      (ensure_topic down topic n ≡ (err broker_shutdown, down))
      × (produce clock down topic p key payload headers ts ≡ (err broker_shutdown, down))
      × (fetch down topic p offset max ≡ err broker_shutdown)
      × (fetch_one down topic p offset ≡ err broker_shutdown)
      × (watermarks down topic p ≡ err broker_shutdown)
      × (metadata down id o ≡ err broker_shutdown)
unfolding shutdown ensure_topic produce fetch fetch_one watermarks metadata check_shutdown
shutdown_refuses b clock topic n p offset max key payload headers ts id o =
    (refl, refl, refl, refl, refl, refl)

-- In a backend that is not shut down, a new topic with a negative partition count is created, and
-- then its metadata panics.
pub negative_count_panics :
    (b : InMemoryBackend) (topic id : String) (n : ℕ)
    → b.shutdown ≡ false
    → Map.get topic b.topics ≡ none
    → metadata (ensure_topic b topic (negsuc n)).1 id (some topic) ≡ panic
unfolding ensure_topic metadata check_shutdown get_topic topic_metadata Topic.new
negative_count_panics b topic id n up e =
    ground
      (arith, get-insert_self topic (Topic.new topic (negsuc n) (make_partition_config b)) b.topics)

-- Some wait was woken, and no deadline had passed before it.
abbrev pub Woken : List (Bool × Bool) → Type 0
Woken [] = ⊥
Woken ((expired, timed_out) ∷ waits) =
    (expired ≡ false) × ((timed_out ≡ false) ⊎ ((timed_out ≡ true) × Woken waits))

wait_loop-Woken : (waits : List (Bool × Bool)) → (wait_loop waits ≡ true) ↔ Woken waits
unfolding wait_loop
wait_loop-Woken [] = ((λ e. cc), (λ w. absurd w))
wait_loop-Woken ((expired, timed_out) ∷ waits) =
    let (to, from) = wait_loop-Woken waits in
    ((λ e. ground (arith, to)), (λ w. ground (arith, from)))

-- With two or more notifications `true` means that one was woken in time; with just one it means
-- that the wait timed out.
pub wait_for_messages_answers :
    (w w' : Bool × Bool) (waits : List (Bool × Bool))
    → ((wait_for_messages (w ∷ w' ∷ waits) ≡ true) ↔ Woken (w ∷ w' ∷ waits))
      × ((wait_for_messages (w ∷ []) ≡ true) ↔ (w.1 ≡ true))
unfolding wait_for_messages
wait_for_messages_answers w w' waits = (wait_loop-Woken (w ∷ w' ∷ waits), ((λ e. e), (λ e. e)))

-- What `produce` and `produce_typed` do with the partition's append.
abbrev pub stored_in :
    InMemoryBackend
    → String
    → ℤ
    → ℤ
    → (Partition → Result (ℤ × ℤ) × Partition)
    → Result (ℤ × ℤ × ℤ) × InMemoryBackend
stored_in b topic partition ts put =
    let (r, b') = with_topic b topic (λ t. Topic.with_partition t partition put) in
    (Backend.stamped ts r, b')

module _ (b : InMemoryBackend) (topic : String) (t : Topic) (i : ℕ) (p : Partition)
    (up : b.shutdown ≡ false) (known : Map.get topic b.topics ≡ some t)
    (found : get_elem? t.partitions i ≡ some p) where
  with_topic_lem :
      {A : Type 0} (f : Topic → Result A × Topic)
      → with_topic b topic f ≡ ((f t).0, record b { topics = Map.insert topic (f t).1 b.topics })
  unfolding get_topic
  with_topic_lem f = ground (arith, up, known)

  -- A message goes to its partition, which returns its offset; it comes back with its timestamp.
  pub stored_lem :
      (ts : ℤ) (put : Partition → Result (ℤ × ℤ) × Partition)
      → stored_in b topic (pos i) ts put ≡ (
        Backend.stamped ts (put p).0,
        record b { topics = Map.insert topic (replaced t i (put p).1) b.topics },
      )
  stored_lem ts put =
      ap (λ (r : Result (ℤ × ℤ) × InMemoryBackend). (Backend.stamped ts r.0, r.1))
        (with_topic_lem _
          ∙ ap
              (λ (r : Result (ℤ × ℤ) × Topic).
                (r.0, record b { topics = Map.insert topic r.1 b.topics }))
              (with_partition_lem t i p put found))
