-- ===== src/Registry/Clients.antt =====
-- The clients that are made from a configuration: `new` and `with_context` of src/base_consumer.rs,
-- src/base_producer.rs, src/future_producer.rs, src/stream_producer.rs, src/stream_consumer.rs and
-- src/typed.rs.
use rmem_queue.Base.{ℕ, String, ◌≡◌, refl, ap, []}
use rmem_queue.Config
use rmem_queue.Config.{RmqClientConfig, group_id_key}
use rmem_queue.Consumer
use rmem_queue.Consumer.{BaseConsumer}
use rmem_queue.Error.{Result, ok, err, panic}
use rmem_queue.Registry.{Registry, get_or_create}
use rmem_queue.Registry.Laws.{get_or_create_again}

-- A consumer, with the address of its broker.
abbrev pub attached :
    RmqClientConfig → String → ℕ → Result ℕ × Registry → Result (ℕ × BaseConsumer) × Registry
attached config member_id context (ok address, r) =
    (ok (address, Consumer.new (Config.get config group_id_key) member_id context), r)
attached config member_id context (err e, r) = (err e, r)
attached config member_id context (panic, r) = (panic, r)

-- `BaseConsumer::with_context`. The member id is made from the clock and a global counter; the address
-- of the context, which is given, is where it is put on the heap.
unfoldable pub new_consumer :
    Registry → RmqClientConfig → String → ℕ → Result (ℕ × BaseConsumer) × Registry
new_consumer r config member_id context = attached config member_id context (get_or_create r config)

-- `BaseProducer::with_context`: a producer has nothing but its broker.
unfoldable pub new_producer : Registry → RmqClientConfig → Result ℕ × Registry
new_producer r config = get_or_create r config

attached-ok :
    (config : RmqClientConfig) (member_id : String) (context : ℕ) (x : Result ℕ × Registry) {a : ℕ}
    {c : BaseConsumer}
    → (attached config member_id context x).0 ≡ ok (a, c)
    → (x.0 ≡ ok a)
      × ((attached config member_id context x).1 ≡ x.1)
      × (c ≡ Consumer.new (Config.get config group_id_key) member_id context)
attached-ok config member_id context (ok address, r) h = (cc, refl, cc)
attached-ok config member_id context (err e, r) h = cc
attached-ok config member_id context (panic, r) h = cc

-- A consumer that was made from a configuration is of the configuration's group, has no subscription
-- and no assignment, and a producer that is made from the same configuration right after shares its
-- broker; to make the producer changes nothing in the registry.
pub clients_share :
    (r : Registry) (config : RmqClientConfig) (member_id : String) (context address : ℕ)
    (c : BaseConsumer)
    → (new_consumer r config member_id context).0 ≡ ok (address, c)
    → (c.group_id ≡ Config.get config group_id_key)
      × (c.subscribed_topics ≡ [])
      × (c.assigned_partitions.elements ≡ [])
      × (new_producer (new_consumer r config member_id context).1 config
          ≡ (ok address, (new_consumer r config member_id context).1))
unfolding new_consumer new_producer Consumer.new
clients_share r config member_id context address c h =
    let (found, same, made) = attached-ok config member_id context (get_or_create r config) h in
    (
      ap (λ (d : BaseConsumer). d.group_id) made,
      ap (λ (d : BaseConsumer). d.subscribed_topics) made,
      ap (λ (d : BaseConsumer). d.assigned_partitions.elements) made,
      rw same (get_or_create_again r config address found),
    )
