-- ===== src/Broker/Valid.antt =====
-- The invariant of the broker, and that its operations keep it.
use rmem_queue.Base.{
  ℕ, ℤ, pos, String, ◌≡◌, refl, ap, ◌∙◌, subst, Option, none, some, List, [], ◌∷◌, string_eq, arith,
}
use rmem_queue.Action.Keeps.{Keeps, bind-Keeps, reads-Keeps, pure-Keeps}
use rmem_queue.Backend
use rmem_queue.Backend.{InMemoryBackend, make_partition_config}
use rmem_queue.Backend.Valid.{
  IsBackend, new-IsBackend, ensure_topic-IsBackend, produce-IsBackend, produce_typed-IsBackend,
}
use rmem_queue.Base.Map
use rmem_queue.Base.Map.{Map, get-insert}
use rmem_queue.Broker.{
  Broker, new, check_shutdown, on_backend, ensure_topic, num_partitions, choose, record_metadata,
  produce, produce_typed,
}
use rmem_queue.Broker.Membership.{ensure_topics, on_group}
use rmem_queue.Config.{BrokerConfig, RmqClientConfig, from_config}
use rmem_queue.ConsumerGroup.{ConsumerGroup}
use rmem_queue.Error.{Result, ok, bind-eq-ok, ok-injective}
use rmem_queue.Headers.{Bytes, OwnedHeaders}
use rmem_queue.Message.{DynAny}
use rmem_queue.Partition.{Clock}
use rmem_queue.Topic.{Topic}

-- The topics are those of a valid backend, the configuration is `c` for good and its count of
-- partitions is not negative, and a group is registered under its own id.
pub record IsBroker (c : BrokerConfig) (b : Broker) : Type 0 where
  pub backend : IsBackend b.backend
  pub stored_config : b.backend.config ≡ c
  pub config : b.config ≡ c
  pub count : ℕ
  pub counted : c.default_num_partitions ≡ pos count
  pub named :
      (gid : String) (g : ConsumerGroup) → Map.get gid b.consumer_groups ≡ some g → g.group_id ≡ gid

ensure_topic-config :
    (b : InMemoryBackend) (topic : String) (n : ℤ)
    → (Backend.ensure_topic b topic n).1.config ≡ b.config
unfolding Backend.ensure_topic
ensure_topic-config b topic n = ground arith

with_topic-config :
    {A : Type 0} (b : InMemoryBackend) (topic : String) (f : Topic → Result A × Topic)
    → (Backend.with_topic b topic f).1.config ≡ b.config
with_topic-config b topic f = ground arith

produce-config :
    (clock : Clock) (b : InMemoryBackend) (topic : String) (partition : ℤ)
    (key payload : Option Bytes) (headers : Option OwnedHeaders) (ts : Option ℤ)
    → (Backend.produce clock b topic partition key payload headers ts).1.config ≡ b.config
unfolding Backend.produce
produce-config clock b topic partition key payload headers ts = with_topic-config b topic _

produce_typed-config :
    (clock : Clock) (b : InMemoryBackend) (topic : String) (partition : ℤ) (payload : DynAny)
    (key : Option DynAny) (headers : Option OwnedHeaders) (ts : Option ℤ)
    → (Backend.produce_typed clock b topic partition payload key headers ts).1.config ≡ b.config
unfolding Backend.produce_typed
produce_typed-config clock b topic partition payload key headers ts = with_topic-config b topic _

module _ {c : BrokerConfig} where
  with_backend-IsBroker :
      {b : Broker} {backend : InMemoryBackend}
      → IsBroker c b
      → IsBackend backend
      → backend.config ≡ b.backend.config
      → IsBroker c (record b { backend = backend })
  with_backend-IsBroker v w e = record {
    backend = w;
    stored_config = e ∙ v.stored_config;
    config = v.config;
    count = v.count;
    counted = v.counted;
    named = v.named;
  }

  pub ensure_topic-Keeps :
      (topic : String)
      → Keeps (IsBroker c) (λ b. ensure_topic topic b.config.default_num_partitions b)
  unfolding ensure_topic
  ensure_topic-Keeps topic = record {
    keeps = λ b v.
        let e : b.config.default_num_partitions ≡ pos v.count =
          ap (λ (d : BrokerConfig). d.default_num_partitions) v.config ∙ v.counted in
        with_backend-IsBroker v (rw e (ensure_topic-IsBackend b.backend topic v.count v.backend))
          (ensure_topic-config b.backend topic b.config.default_num_partitions);
  }

  pub num_partitions-Keeps : (topic : String) → Keeps (IsBroker c) (num_partitions topic)
  unfolding num_partitions
  num_partitions-Keeps topic = record { keeps = λ b v. v }

  pub choose-Keeps :
      (topic : String) (p : Option ℤ) (key : Option Bytes) (count : ℤ)
      → Keeps (IsBroker c) (choose topic p key count)
  unfolding choose
  choose-Keeps topic (some p) key count = record { keeps = λ b v. v }
  choose-Keeps topic none key count = record {
    keeps = λ b v. record {
      backend = v.backend;
      stored_config = v.stored_config;
      config = v.config;
      count = v.count;
      counted = v.counted;
      named = v.named;
    };
  }

  pub on_backend-Keeps :
      {A : Type 0} (f : InMemoryBackend → Result A × InMemoryBackend)
      → ((b : InMemoryBackend) → IsBackend b → IsBackend (f b).1)
      → ((b : InMemoryBackend) → (f b).1.config ≡ b.config)
      → Keeps (IsBroker c) (on_backend f)
  on_backend-Keeps f k e = record {
    keeps = λ b v. with_backend-IsBroker v (k b.backend v.backend) (e b.backend);
  }

  pub produce-Keeps :
      (clock : Clock) (topic : String) (partition : Option ℤ) (key payload : Option Bytes)
      (headers : Option OwnedHeaders) (ts : Option ℤ)
      → Keeps (IsBroker c) (produce clock topic partition key payload headers ts)
  unfolding produce
  produce-Keeps clock topic partition key payload headers ts =
      bind-Keeps (reads-Keeps check_shutdown) λ _. bind-Keeps (ensure_topic-Keeps topic) λ _.
        bind-Keeps (num_partitions-Keeps topic) λ num_p.
          bind-Keeps (choose-Keeps topic partition key num_p) λ p.
            bind-Keeps
              (on_backend-Keeps (λ b. Backend.produce clock b topic p key payload headers ts)
                (λ b v. produce-IsBackend clock b topic p key payload headers ts v)
                λ b. produce-config clock b topic p key payload headers ts)
              λ stored. pure-Keeps (record_metadata topic stored)

  pub produce_typed-Keeps :
      (clock : Clock) (topic : String) (partition : Option ℤ) (payload : DynAny)
      (key : Option DynAny) (headers : Option OwnedHeaders) (ts : Option ℤ)
      → Keeps (IsBroker c) (produce_typed clock topic partition payload key headers ts)
  unfolding produce_typed
  produce_typed-Keeps clock topic partition payload key headers ts =
      bind-Keeps (reads-Keeps check_shutdown) λ _. bind-Keeps (ensure_topic-Keeps topic) λ _.
        bind-Keeps (num_partitions-Keeps topic) λ num_p.
          bind-Keeps (choose-Keeps topic partition none num_p) λ p.
            bind-Keeps
              (on_backend-Keeps (λ b. Backend.produce_typed clock b topic p payload key headers ts)
                (λ b v. produce_typed-IsBackend clock b topic p payload key headers ts v)
                λ b. produce_typed-config clock b topic p payload key headers ts)
              λ stored. pure-Keeps (record_metadata topic stored)

  pub ensure_topics-Keeps : (topics : List String) → Keeps (IsBroker c) (ensure_topics topics)
  unfolding ensure_topics
  ensure_topics-Keeps [] = pure-Keeps tt
  ensure_topics-Keeps (topic ∷ topics) =
      bind-Keeps (ensure_topic-Keeps topic) λ _. ensure_topics-Keeps topics

  -- A call that leaves its group under its id.
  pub on_group-Keeps :
      {A : Type 0} (gid : String) (g : ConsumerGroup) (f : ConsumerGroup → Result A × ConsumerGroup)
      → (f g).1.group_id ≡ gid
      → Keeps (IsBroker c) (on_group gid g f)
  on_group-Keeps gid g f same = record {
    keeps = λ b v. record {
      backend = v.backend;
      stored_config = v.stored_config;
      config = v.config;
      count = v.count;
      counted = v.counted;
      named = λ j h e. ground (
        arith,
        get-insert gid j (f g).1 b.consumer_groups,
        string_eq.beq_iff gid j,
        v.named j h,
        same,
      );
    };
  }

-- A new broker satisfies the invariant unless its default count of partitions is negative.
pub new-IsBroker :
    (client : RmqClientConfig) (b : Broker) (n : ℕ)
    → new client ≡ ok b
    → b.config.default_num_partitions ≡ pos n
    → IsBroker b.config b
unfolding new Map.get Backend.new
new-IsBroker client b n e counted =
    let (config, parsed, made) = bind-eq-ok (from_config client) _ e in
    let built = ok-injective made in
    subst (λ d. d.config.default_num_partitions ≡ pos n → IsBroker d.config d) built
      (λ h. record {
        backend = new-IsBackend config;
        stored_config = refl;
        config = refl;
        count = n;
        counted = h;
        named = λ gid g e. cc;
      })
      counted
