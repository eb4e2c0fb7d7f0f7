-- ===== src/Broker/RoundTrip.antt =====
-- What a broker accepts it gives back.
use rmem_queue.Base.{
  ℤ, String, ◌≡◌, refl, sym, ap, ◌∙◌, subst, false, Option, none, some, string_eq, arith,
}
use rmem_queue.Action.{Action, next, ◌>>=◌, ◌>>◌, pure, reads}
use rmem_queue.Backend
use rmem_queue.Backend.{InMemoryBackend, fetch_one}
use rmem_queue.Backend.Valid.{IsBackend}
use rmem_queue.Backend.RoundTrip.{KeepsAll, produce-fetch_one, produce_typed-fetch_one}
use rmem_queue.Broker.{
  Broker, check_shutdown, ensure_topic, num_partitions, choose, on_backend, record_metadata,
  produce, produce_typed, fetch_one_from_position, resume_offset, RecordMetadata,
}
use rmem_queue.Broker.Valid.{IsBroker, ensure_topic-Keeps, num_partitions-Keeps, choose-Keeps}
use rmem_queue.Config.{BrokerConfig}
use rmem_queue.Error.{Result, ok, err, panic}
use rmem_queue.Headers.{Bytes, OwnedHeaders}
use rmem_queue.Message
use rmem_queue.Message.{StoredMessage, DynAny}
use rmem_queue.Partition.{Clock}

module _ {S A B : Type 0} where
  next-ok :
      (r : Result A) (f : A → Action S B) (s : S) {x : B}
      → (next r f s).0 ≡ ok x
      → (a : A) × (r ≡ ok a) × (next r f s ≡ f a s)
  next-ok (ok a) f s h = (a, refl, refl)
  next-ok (err e) f s h = cc
  next-ok panic f s h = cc

  -- Inversion of a sequence that succeeds.
  pub bind-ok :
      (m : Action S A) (f : A → Action S B) (s : S) {x : B}
      → ((m >>= f) s).0 ≡ ok x
      → (a : A) × ((m s).0 ≡ ok a) × ((m >>= f) s ≡ f a (m s).1)
  bind-ok m f s h = next-ok (m s).0 f (m s).1 h

check_shutdown-ok :
    (b : Broker) {u : Unit {0}} → (reads check_shutdown b).0 ≡ ok u → b.shutdown ≡ false
unfolding check_shutdown
check_shutdown-ok b h = ground (arith, h)

ensure_topic-shutdown :
    (b : Broker) (topic : String) (n : ℤ) → (ensure_topic topic n b).1.shutdown ≡ b.shutdown
unfolding ensure_topic
ensure_topic-shutdown b topic n = refl

num_partitions-shutdown :
    (b : Broker) (topic : String) → (num_partitions topic b).1.shutdown ≡ b.shutdown
unfolding num_partitions
num_partitions-shutdown b topic = refl

choose-shutdown :
    (b : Broker) (topic : String) (p : Option ℤ) (key : Option Bytes) (n : ℤ)
    → (choose topic p key n b).1.shutdown ≡ b.shutdown
unfolding choose
choose-shutdown b topic none key n = refl
choose-shutdown b topic (some p) key n = refl

-- The call of the backend that stores a message in a partition.
abbrev Store : Type 0
Store = ℤ → InMemoryBackend → Result (ℤ × ℤ × ℤ) × InMemoryBackend

module _ (topic : String) (partition : Option ℤ) (key : Option Bytes) (put : Store) where
  abbrev store_at : ℤ → Action Broker RecordMetadata
  store_at p = on_backend (put p) >>= λ stored. pure (record_metadata topic stored)

  abbrev choose_and_store : ℤ → Action Broker RecordMetadata
  choose_and_store num_p = choose topic partition key num_p >>= store_at

  abbrev count_and_store : Action Broker RecordMetadata
  count_and_store = num_partitions topic >>= choose_and_store

  abbrev ensure_and_store : Action Broker RecordMetadata
  ensure_and_store = (λ b. ensure_topic topic b.config.default_num_partitions b) >> count_and_store

  -- What `produce` and `produce_typed` share.
  abbrev produced : Action Broker RecordMetadata
  produced = reads check_shutdown >> ensure_and_store

  -- The broker whose backend stores the message, and the result there.
  record Stored (b : Broker) (meta : RecordMetadata) (c : BrokerConfig) : Type 0 where
    prepared : Broker
    valid : IsBroker c prepared
    up : prepared.shutdown ≡ false
    chosen : ℤ
    stored : ℤ × ℤ × ℤ
    accepted : (put chosen prepared.backend).0 ≡ ok stored
    reported : meta ≡ record_metadata topic stored
    result : (produced b).1 ≡ record prepared { backend = (put chosen prepared.backend).1 }

  produced-Stored :
      {c : BrokerConfig} (b : Broker) (meta : RecordMetadata)
      → IsBroker c b
      → (produced b).0 ≡ ok meta
      → Stored b meta c
  produced-Stored {c} b meta v h0 =
      let ensure : Action Broker (Unit {0}) =
        λ b. ensure_topic topic b.config.default_num_partitions b in
      let (_, running, e0) = bind-ok (reads check_shutdown) (λ _. ensure_and_store) b h0 in
      let h1 : (ensure_and_store b).0 ≡ ok meta = cc (h0, e0) in
      let b1 = (ensure b).1 in
      let (_, _, e1) = bind-ok ensure (λ _. count_and_store) b h1 in
      let h2 : (count_and_store b1).0 ≡ ok meta = cc (h1, e1) in
      let b2 = (num_partitions topic b1).1 in
      let (n, _, e2) = bind-ok (num_partitions topic) choose_and_store b1 h2 in
      let h3 : (choose_and_store n b2).0 ≡ ok meta = cc (h2, e2) in
      let b3 = (choose topic partition key n b2).1 in
      let (p, _, e3) = bind-ok (choose topic partition key n) store_at b2 h3 in
      let h4 : (store_at p b3).0 ≡ ok meta = cc (h3, e3) in
      let (s, accepted, e4) =
        bind-ok (on_backend (put p)) (λ stored. pure (record_metadata topic stored)) b3 h4 in
      record {
        prepared = b3;
        valid =
            (choose-Keeps topic partition key n).keeps b2
              ((num_partitions-Keeps topic).keeps b1 ((ensure_topic-Keeps topic).keeps b v));
        up =
            choose-shutdown b2 topic partition key n
            ∙ num_partitions-shutdown b1 topic
            ∙ ensure_topic-shutdown b topic b.config.default_num_partitions
            ∙ check_shutdown-ok b running;
        chosen = p;
        stored = s;
        accepted = accepted;
        reported = cc e4;
        result = ap (λ (r : Result RecordMetadata × Broker). r.1) (e0 ∙ e1 ∙ e2 ∙ e3 ∙ e4);
      }

  -- If a message that the backend accepts can be fetched there, one that the broker accepts can.
  produced-fetch :
      {c : BrokerConfig} (made : String → ℤ → ℤ → ℤ → StoredMessage) (b : Broker)
      (meta : RecordMetadata) (group_id : Option String)
      → IsBroker c b
      → KeepsAll c
      → ((backend : InMemoryBackend) (p pid o ts : ℤ)
          → IsBackend backend
          → KeepsAll backend.config
          → (put p backend).0 ≡ ok (pid, o, ts)
          → fetch_one (put p backend).1 topic pid o ≡ ok (some (made topic pid o ts)))
      → (produced b).0 ≡ ok meta
      → fetch_one_from_position (produced b).1 meta.topic meta.partition (some meta.offset) group_id
        ≡ ok (some (made meta.topic meta.partition meta.offset meta.timestamp))
  unfolding fetch_one_from_position resume_offset check_shutdown
  produced-fetch made b meta group_id v k law e =
      let s = produced-Stored b meta v e in
      let keeps = subst KeepsAll (sym s.valid.stored_config) k in
      let (pid, o, ts) = s.stored in
      let read = law s.prepared.backend s.chosen pid o ts s.valid.backend keeps s.accepted in
      rw (s.result, s.up, s.reported, read) refl

module _ (clock : Clock) (topic : String) (partition : Option ℤ) (key payload : Option Bytes)
    (headers : Option OwnedHeaders) (ts : Option ℤ) where
  -- When a valid broker keeps everything (no retention, and a buffer capacity other than 1) and
  -- accepts a message, that message is what it gives at the partition and offset that it reported,
  -- to a consumer of any group: with the key, payload and headers given and the timestamp reported.
  pub produce-fetch_one_from_position :
      {c : BrokerConfig} (b : Broker) (meta : RecordMetadata) (group_id : Option String)
      → IsBroker c b
      → KeepsAll c
      → (produce clock topic partition key payload headers ts b).0 ≡ ok meta
      → fetch_one_from_position
          (produce clock topic partition key payload headers ts b).1
          meta.topic
          meta.partition
          (some meta.offset)
          group_id
        ≡ ok (
            some (
              Message.new key payload meta.topic meta.partition meta.offset meta.timestamp headers
                clock.created))
  unfolding produce
  produce-fetch_one_from_position b meta group_id v k e =
      produced-fetch topic partition key
        (λ p backend. Backend.produce clock backend topic p key payload headers ts)
        (λ topic p o t. Message.new key payload topic p o t headers clock.created) b meta group_id v
        k
        (λ backend p pid o t valid keeps accepted.
          (produce-fetch_one backend clock topic p key payload headers ts pid o t valid keeps
            accepted).1)
        e

module _ (clock : Clock) (topic : String) (partition : Option ℤ) (payload : DynAny)
    (key : Option DynAny) (headers : Option OwnedHeaders) (ts : Option ℤ) where
  -- The same of a typed message: what a valid broker that keeps everything accepts is what it gives
  -- at the partition and offset that it reported, with the values given for payload and key.
  pub produce_typed-fetch_one_from_position :
      {c : BrokerConfig} (b : Broker) (meta : RecordMetadata) (group_id : Option String)
      → IsBroker c b
      → KeepsAll c
      → (produce_typed clock topic partition payload key headers ts b).0 ≡ ok meta
      → fetch_one_from_position
          (produce_typed clock topic partition payload key headers ts b).1
          meta.topic
          meta.partition
          (some meta.offset)
          group_id
        ≡ ok (
            some (
              Message.new_typed payload key meta.topic meta.partition meta.offset meta.timestamp
                headers clock.created))
  unfolding produce_typed
  produce_typed-fetch_one_from_position b meta group_id v k e =
      produced-fetch topic partition none
        (λ p backend. Backend.produce_typed clock backend topic p payload key headers ts)
        (λ topic p o t. Message.new_typed payload key topic p o t headers clock.created) b meta
        group_id v k
        (λ backend p pid o t valid keeps accepted.
          (produce_typed-fetch_one backend clock topic p payload key headers ts pid o t valid keeps
            accepted).1)
        e
