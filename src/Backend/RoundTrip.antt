-- ===== src/Backend/RoundTrip.antt =====
-- What is produced can be fetched.
use rmem_queue.Base.{
  ℕ, ℤ, pos, String, ◌≡◌, ◌≢◌, refl, sym, ap, ◌∙◌, true, false, Option, none, some, [], string_eq,
  nat_eq, inl, inr, arith, get_elem?, Option-cases, Bool-cases,
}
use rmem_queue.Base.Map
use rmem_queue.Base.Map.{get-insert_self, beq_self}
use rmem_queue.Backend.{
  InMemoryBackend, make_partition_config, check_shutdown, get_topic, produce, produce_typed,
  fetch_one,
}
use rmem_queue.Backend.Laws.{stored_in, stored_lem}
use rmem_queue.Backend.Valid.{IsBackend}
use rmem_queue.Config.{BrokerConfig}
use rmem_queue.Error.{Result, ok, err, partition_out_of_range}
use rmem_queue.Headers.{Bytes, OwnedHeaders}
use rmem_queue.Message
use rmem_queue.Message.{StoredMessage, DynAny}
use rmem_queue.Partition
use rmem_queue.Partition.{Clock, Partition, timestamp_or, build_policies, store}
use rmem_queue.Partition.Capacity.{store-read_one}
use rmem_queue.Topic
use rmem_queue.Topic.{Topic}
use rmem_queue.Topic.Laws.{replaced, get_partition_cases, get_elem?-replaced, get_partition_found}

-- Nothing is dropped: no retention, and a buffer capacity other than 1.
pub record KeepsAll (c : BrokerConfig) : Type 0 where
  pub no_time : c.retention_ms ≡ none
  pub no_count : c.retention_capacity ≡ none
  pub roomy : c.buffer_capacity ≢ 1

no_policies :
    (b : InMemoryBackend) → KeepsAll b.config → build_policies (make_partition_config b) ≡ []
unfolding build_policies make_partition_config
no_policies b k = ground (arith, k.no_time, k.no_count)

roomy_config :
    (b : InMemoryBackend) → b.config.buffer_capacity ≡ (make_partition_config b).max_capacity
unfolding make_partition_config
roomy_config b = refl

fetch_one-replaced :
    (b : InMemoryBackend) (topic : String) (t : Topic) (i : ℕ) (p q : Partition)
    → b.shutdown ≡ false
    → get_elem? t.partitions i ≡ some p
    → (o : ℤ)
    → fetch_one (record b { topics = Map.insert topic (replaced t i q) b.topics }) topic (pos i) o
      ≡ Partition.read_one q o
unfolding fetch_one check_shutdown get_topic Topic.fetch_one
fetch_one-replaced b topic t i p q up found o = ground (
  arith,
  get-insert_self topic (replaced t i q) b.topics,
  get_partition_found (replaced t i q) i q,
  get_elem?-replaced t i p q i found,
  beq_self i,
)

-- How a message is made for its place: it bears its topic, its partition and its offset.
pub record Makes (made : String → ℤ → ℤ → StoredMessage) : Type 0 where
  pub has_topic : (topic : String) (p o : ℤ) → (made topic p o).topic ≡ topic
  pub has_partition : (topic : String) (p o : ℤ) → (made topic p o).partition ≡ p
  pub has_offset : (topic : String) (p o : ℤ) → (made topic p o).offset ≡ o

module _ (clock : Clock) (made : String → ℤ → ℤ → StoredMessage) where
  -- An append of the message that is made for its place.
  abbrev pub put : Partition → Result (ℤ × ℤ) × Partition
  put p =
      let o = pos p.buffer.next_offset in
      (ok (p.partition_id, o), store clock p (made p.topic_name p.partition_id o))

  module _ (b : InMemoryBackend) (topic : String) (ts : ℤ) (makes : Makes made) (v : IsBackend b)
      (k : KeepsAll b.config) (up : b.shutdown ≡ false) where
    module _ (t : Topic) (i : ℕ) (p : Partition) (known : Map.get topic b.topics ≡ some t)
        (found : get_elem? t.partitions i ≡ some p) where
      put-read_one :
          Partition.read_one (put p).1 (pos p.buffer.next_offset)
          ≡ ok (some (made topic (pos i) (pos p.buffer.next_offset)))
      put-read_one =
          let part = (v.topics topic t known).parts i p found in
          let o = pos p.buffer.next_offset in
          let room : p.buffer.max_capacity ≢ 1 =
            λ e. k.roomy (roomy_config b ∙ sym part.capacity ∙ e) in
          let read =
            store-read_one clock part.valid (part.policies ∙ no_policies b k)
              (made p.topic_name p.partition_id o) (makes.has_offset _ _ _) (makes.has_topic _ _ _)
              (makes.has_partition _ _ _) room in
          cc (part.topic, part.id)

      stored_at :
          (partition : ℤ) (at : partition ≡ pos i) (pid o ts' : ℤ)
          → (stored_in b topic partition ts put).0 ≡ ok (pid, o, ts')
          → (pid ≡ partition)
            × (ts' ≡ ts)
            × (fetch_one (stored_in b topic partition ts put).1 topic pid o
                ≡ ok (some (made topic pid o)))
      stored_at partition at pid o ts' e =
          let whole = stored_lem b topic t i p up known found ts put in
          let result = ap (λ (r : Result (ℤ × ℤ × ℤ) × InMemoryBackend). r.0) whole in
          let number : p.partition_id ≡ pos i = ((v.topics topic t known).parts i p found).id in
          let read =
            ap
              (λ (r : Result (ℤ × ℤ × ℤ) × InMemoryBackend).
                fetch_one r.1 topic (pos i) (pos p.buffer.next_offset))
              whole
            ∙ fetch_one-replaced b topic t i p (put p).1 up found (pos p.buffer.next_offset)
            ∙ put-read_one in
          (cc, cc, cc)

  module _ (b : InMemoryBackend) (topic : String) (partition ts : ℤ) where
    abbrev Accepted : Type 0
    Accepted = (r : ℤ × ℤ × ℤ) × ((stored_in b topic partition ts put).0 ≡ ok r)

    refused_down : b.shutdown ≡ true → ¬ Accepted
    refused_down down (r, e) = ground (arith, down)

    refused_unknown : b.shutdown ≡ false → Map.get topic b.topics ≡ none → ¬ Accepted
    unfolding get_topic
    refused_unknown up unknown (r, e) = ground (arith, up, unknown)

    refused_missing :
        (t : Topic)
        → b.shutdown ≡ false
        → Map.get topic b.topics ≡ some t
        → Topic.get_partition t partition ≡ err (partition_out_of_range t.name partition)
        → ¬ Accepted
    unfolding get_topic
    refused_missing t up known missing (r, e) = ground (arith, up, known, missing)

  -- Whatever is stored so can be fetched, if nothing is dropped.
  pub stored_in-fetch_one :
      (b : InMemoryBackend) (topic : String) (partition ts pid o ts' : ℤ)
      → Makes made
      → IsBackend b
      → KeepsAll b.config
      → (stored_in b topic partition ts put).0 ≡ ok (pid, o, ts')
      → (pid ≡ partition)
        × (ts' ≡ ts)
        × (fetch_one (stored_in b topic partition ts put).1 topic pid o
            ≡ ok (some (made topic pid o)))
  stored_in-fetch_one b topic partition ts pid o ts' makes v k e = elim (Bool-cases b.shutdown) [
    | inl down ↦ absurd (refused_down b topic partition ts down (_, e))
    | inr up ↦ elim (Option-cases (Map.get topic b.topics)) [
      | inl unknown ↦ absurd (refused_unknown b topic partition ts up unknown (_, e))
      | inr (t, known) ↦ elim (get_partition_cases t partition) [
        | inl (i, p, at, found, _) ↦
            stored_at b topic ts makes v k up t i p known found partition at pid o ts' e
        | inr (_, missing) ↦ absurd (refused_missing b topic partition ts t up known missing (_, e))
      ]
    ]
  ]

-- Without retention, and with a buffer capacity other than 1, a message that `produce` accepted can
-- be fetched at the offset that it returned, with the key, payload, headers and timestamp given.
pub produce-fetch_one :
    (b : InMemoryBackend) (clock : Clock) (topic : String) (partition : ℤ)
    (key payload : Option Bytes) (headers : Option OwnedHeaders) (ts : Option ℤ) (pid o ts' : ℤ)
    → IsBackend b
    → KeepsAll b.config
    → (produce clock b topic partition key payload headers ts).0 ≡ ok (pid, o, ts')
    → (pid ≡ partition)
      × (fetch_one (produce clock b topic partition key payload headers ts).1 topic pid o
          ≡ ok (some (Message.new key payload topic pid o ts' headers clock.created)))
unfolding produce Topic.produce Partition.append
produce-fetch_one b clock topic partition key payload headers ts pid o ts' v k e =
    let stamp = timestamp_or ts clock in
    let (place, time, read) =
      stored_in-fetch_one clock
        (λ topic p o. Message.new key payload topic p o stamp headers clock.created) b topic
        partition stamp pid o ts'
        (record {
          has_topic = λ _ _ _. refl;
          has_partition = λ _ _ _. refl;
          has_offset = λ _ _ _. refl;
        })
        v k e in
    (place, rw time read)

-- The same of `produce_typed`: the message has the values given.
pub produce_typed-fetch_one :
    (b : InMemoryBackend) (clock : Clock) (topic : String) (partition : ℤ) (payload : DynAny)
    (key : Option DynAny) (headers : Option OwnedHeaders) (ts : Option ℤ) (pid o ts' : ℤ)
    → IsBackend b
    → KeepsAll b.config
    → (produce_typed clock b topic partition payload key headers ts).0 ≡ ok (pid, o, ts')
    → (pid ≡ partition)
      × (fetch_one (produce_typed clock b topic partition payload key headers ts).1 topic pid o
          ≡ ok (some (Message.new_typed payload key topic pid o ts' headers clock.created)))
unfolding produce_typed Topic.produce_typed Partition.append_typed
produce_typed-fetch_one b clock topic partition payload key headers ts pid o ts' v k e =
    let stamp = timestamp_or ts clock in
    let (place, time, read) =
      stored_in-fetch_one clock
        (λ topic p o. Message.new_typed payload key topic p o stamp headers clock.created) b topic
        partition stamp pid o ts'
        (record {
          has_topic = λ _ _ _. refl;
          has_partition = λ _ _ _. refl;
          has_offset = λ _ _ _. refl;
        })
        v k e in
    (place, rw time read)
