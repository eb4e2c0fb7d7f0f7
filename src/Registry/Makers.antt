-- ===== src/Registry/Makers.antt =====
-- The constructors of the other clients, which go through those of the base clients, and
-- `FromRmqConfig`: src/future_producer.rs, src/stream_producer.rs, src/stream_consumer.rs and
-- src/typed.rs.
use rmem_queue.Base.{ℕ, String, ◌≡◌, refl, List, [], ◌∷◌}
use rmem_queue.Broker
use rmem_queue.Broker.{Broker}
use rmem_queue.Config.{RmqClientConfig}
use rmem_queue.Consumer.{BaseConsumer}
use rmem_queue.Error.{Result, ok, err, panic}
use rmem_queue.Registry.{Registry, get_or_create}
use rmem_queue.Registry.Clients.{attached, new_consumer, new_producer}
use rmem_queue.Registry.Laws.{get_or_create_again}

-- `FutureProducer::new`
unfoldable pub new_future_producer : Registry → RmqClientConfig → Result ℕ × Registry
new_future_producer r config = new_producer r config

-- `StreamProducer::new`
unfoldable pub new_stream_producer : Registry → RmqClientConfig → Result ℕ × Registry
new_stream_producer r config = new_producer r config

-- `TypedProducer::new`
unfoldable pub new_typed_producer : Registry → RmqClientConfig → Result ℕ × Registry
new_typed_producer r config = get_or_create r config

-- `StreamConsumer::new`
unfoldable pub new_stream_consumer :
    Registry → RmqClientConfig → String → ℕ → Result (ℕ × BaseConsumer) × Registry
new_stream_consumer r config member_id context = new_consumer r config member_id context

-- `TypedConsumer::new`
unfoldable pub new_typed_consumer :
    Registry → RmqClientConfig → String → ℕ → Result (ℕ × BaseConsumer) × Registry
new_typed_consumer r config member_id context = new_consumer r config member_id context

-- The clients that implement `FromRmqConfig`; a consumer has a member id and a context.
pub data Configured : Type 0 where
  base_producer future_producer stream_producer : Configured
  base_consumer stream_consumer : String → ℕ → Configured

-- A client that is made.
pub data Maker : Type 0 where
  configured : Configured → Maker
  typed_producer : Maker
  typed_consumer : String → ℕ → Maker

-- The broker of a new consumer.
abbrev broker_of : Result (ℕ × BaseConsumer) × Registry → Result ℕ × Registry
broker_of (ok (address, c), r) = (ok address, r)
broker_of (err e, r) = (err e, r)
broker_of (panic, r) = (panic, r)

-- `from_config`: the address of the broker that the client gets.
unfoldable pub from_config : Registry → RmqClientConfig → Configured → Result ℕ × Registry
from_config r config base_producer = new_producer r config
from_config r config future_producer = new_future_producer r config
from_config r config stream_producer = new_stream_producer r config
from_config r config (base_consumer m x) = broker_of (new_consumer r config m x)
from_config r config (stream_consumer m x) = broker_of (new_stream_consumer r config m x)

-- The clients of src/typed.rs have `new` only.
unfoldable pub make : Registry → RmqClientConfig → Maker → Result ℕ × Registry
make r config (configured k) = from_config r config k
make r config typed_producer = new_typed_producer r config
make r config (typed_consumer m x) = broker_of (new_typed_consumer r config m x)

-- `from_config` of `Arc<Broker>` makes a broker that the registry does not know.
unfoldable pub broker_from_config : RmqClientConfig → Result Broker
broker_from_config config = Broker.new config

broker_of-attached :
    (config : RmqClientConfig) (member_id : String) (context : ℕ) (x : Result ℕ × Registry)
    → broker_of (attached config member_id context x) ≡ x
broker_of-attached config member_id context (ok address, r) = refl
broker_of-attached config member_id context (err e, r) = refl
broker_of-attached config member_id context (panic, r) = refl

from_config_lem :
    (r : Registry) (config : RmqClientConfig) (k : Configured)
    → from_config r config k ≡ get_or_create r config
unfolding from_config new_producer new_future_producer new_stream_producer new_consumer
    new_stream_consumer
from_config_lem r config base_producer = refl
from_config_lem r config future_producer = refl
from_config_lem r config stream_producer = refl
from_config_lem r config (base_consumer m x) =
    broker_of-attached config m x (get_or_create r config)
from_config_lem r config (stream_consumer m x) =
    broker_of-attached config m x (get_or_create r config)

make_lem :
    (r : Registry) (config : RmqClientConfig) (m : Maker) → make r config m ≡ get_or_create r config
unfolding make new_typed_producer new_consumer new_typed_consumer
make_lem r config (configured k) = from_config_lem r config k
make_lem r config typed_producer = refl
make_lem r config (typed_consumer m x) = broker_of-attached config m x (get_or_create r config)

-- The clients made one after another.
unfoldable pub make_all : Registry → RmqClientConfig → List Maker → List (Result ℕ) × Registry
make_all r config [] = ([], r)
make_all r config (m ∷ makers) =
    let (address, r') = make r config m in
    let (addresses, r'') = make_all r' config makers in (address ∷ addresses, r'')

abbrev pub all_at : ℕ → List Maker → List (Result ℕ)
all_at address [] = []
all_at address (m ∷ makers) = ok address ∷ all_at address makers

make_all-found :
    (r : Registry) (config : RmqClientConfig) (address : ℕ) (makers : List Maker)
    → get_or_create r config ≡ (ok address, r)
    → make_all r config makers ≡ (all_at address makers, r)
unfolding make_all
make_all-found r config address [] h = refl
make_all-found r config address (m ∷ makers) h =
    rw (make_lem r config m, h) (rw (make_all-found r config address makers h) refl)

-- When some client is made from a configuration, then all clients of any kind that are made from it
-- right after, one after another, share its broker, and the registry does not change any more.
pub makers_share :
    (r : Registry) (config : RmqClientConfig) (first : Maker) (makers : List Maker) (address : ℕ)
    → (make r config first).0 ≡ ok address
    → make_all (make r config first).1 config makers
      ≡ (all_at address makers, (make r config first).1)
makers_share r config first makers address h =
    let same = make_lem r config first in
    make_all-found (make r config first).1 config address makers
      (rw same (get_or_create_again r config address (rw same at h)))
