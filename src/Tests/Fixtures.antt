-- ===== src/Tests/Fixtures.antt =====
-- A broker with a message, its clients, and what holds of them.
use rmem_queue.Base.{
  ℕ, pos, ◌≡◌, refl, none, some, List, [], ◌∷◌, string_eq, int_eq, pair_eq, arith,
}
use rmem_queue.Backend
use rmem_queue.Backend.{InMemoryBackend}
use rmem_queue.Backend.RoundTrip.{KeepsAll}
use rmem_queue.Base.Map
use rmem_queue.Broker
use rmem_queue.Broker.{
  Broker, RecordMetadata, with_config, produce, produce_typed, fetch, fetch_one_from_position,
  metadata, watermarks, shutdown_broker,
}
use rmem_queue.Broker.Runs.{run, reached-IsBroker}
use rmem_queue.Broker.Valid.{IsBroker}
use rmem_queue.Config
use rmem_queue.Config.{BrokerConfig, RmqClientConfig}
use rmem_queue.Consumer.{BaseConsumer}
use rmem_queue.Error.{ok}
use rmem_queue.Message
use rmem_queue.Message.{StoredMessage, BorrowedMessage, DynAny}
use rmem_queue.Partition
use rmem_queue.Partition.{Clock}
use rmem_queue.Partitioner
use rmem_queue.Partitioner.{round_robin}
use rmem_queue.Partitioner.Words
use rmem_queue.Producer.{BaseProducer, send, sent}
use rmem_queue.Record.{BaseRecord, bytes_to_bytes}
use rmem_queue.Topic
use rmem_queue.TopicPartition
use rmem_queue.TopicPartition.{add_partition}
use rmem_queue.Broker.Valid.{produce-Keeps}
use rmem_queue.Base.{ap, subst, false}
use rmem_queue.Partition.{Partition}
use rmem_queue.Topic.{Topic}
use rmem_queue.TopicPartition.{TopicPartitionElem}

abbrev pub clock : Clock
clock = record { wall = pos 1700; created = 5; checked = 7 }

abbrev pub client : RmqClientConfig
client = record { conf_map = ("broker.id", "b") ∷ [] }

abbrev pub config : BrokerConfig
config = record {
  broker_id = "b";
  default_num_partitions = pos 1;
  buffer_capacity = 10000;
  retention_policy = "none";
  retention_ms = none;
  retention_capacity = none;
  group_session_timeout_ms = 30000;
}

abbrev pub started : Broker
started = with_config client (round_robin (pos 0)) config

pub new-started : Broker.new client ≡ ok started
unfolding Broker.new Config.from_config Config.parsed_value Config.get Map.get
new-started = refl

pub started-IsBroker : IsBroker config started
unfolding run
started-IsBroker = reached-IsBroker client started 1 [] new-started refl

pub config-KeepsAll : KeepsAll config
config-KeepsAll = record { no_time = refl; no_count = refl; roomy = omega arith }

abbrev pub reported : RecordMetadata
reported = record { topic = "t"; partition = pos 0; offset = pos 0; timestamp = pos 1700 }

abbrev pub message : StoredMessage
message = Message.new none (some (1 ∷ [])) "t" (pos 0) (pos 0) (pos 1700) none 5

abbrev pub partition : Partition
partition = record {
  topic_name = "t";
  partition_id = pos 0;
  buffer = record { log = message ∷ []; next_offset = 1; max_capacity = 10000; policies = [] };
  notified = 1;
}

abbrev pub topic : Topic
topic = record {
  name = "t";
  partitions = partition ∷ [];
  partition_count = pos 1;
  config = record { max_capacity = 10000; retention_ms = none; retention_capacity = none };
}

-- The broker with one message.
abbrev pub filled : Broker
filled = record started {
  backend = record { topics = ("t", topic) ∷ []; shutdown = false; config = config };
  partitioner = round_robin (pos 1);
}

pub produced_filled :
    produce clock "t" none none (some (1 ∷ [])) none none started ≡ (ok reported, filled)
unfolding produce Broker.check_shutdown Broker.ensure_topic Backend.ensure_topic Backend.new Map.get
    Broker.num_partitions Backend.metadata Backend.check_shutdown Backend.get_topic Map.insert
    Backend.topic_metadata Topic.new Backend.partitions_metadata Backend.partition_metadata
    Topic.watermarks Topic.get_partition Topic.new_partitions Backend.make_partition_config
    Backend.produce Broker.choose Partition.append Partition.build_policies Partition.message_count
    Partition.new Partition.watermarks Partitioner.partition Partitioner.round_robin_partition
    Partitioner.normalise Words.rem_i32 Words.wrap_i32 Words.i32_of Words.u32_of Topic.produce
    Partition.store Partition.evict_buffer Partition.evict_log Partition.push_message
produced_filled = refl

pub produced : (produce clock "t" none none (some (1 ∷ [])) none none started).0 ≡ ok reported
produced = ap (λ r. r.0) produced_filled

pub filled-IsBroker : IsBroker config filled
filled-IsBroker =
    subst (IsBroker config) (ap (λ r. r.1) produced_filled)
      ((produce-Keeps clock "t" none none (some (1 ∷ [])) none none).keeps started started-IsBroker)

pub topic_known : Map.get "t" filled.backend.topics ≡ some topic
unfolding Map.get
topic_known = refl

abbrev pub elem : TopicPartitionElem
elem = record { topic = "t"; partition = pos 0; offset = TopicPartition.stored }

-- A consumer of the one partition, without a position.
abbrev pub reader : BaseConsumer
reader = record {
  group_id = none;
  member_id = "m";
  subscribed_topics = [];
  assigned_partitions = record { elements = elem ∷ [] };
  position = [];
  paused = [];
  poll_start = 0;
  context = 0;
}

abbrev pub producer : BaseProducer
producer = record { broker = started; deliveries = [] }

abbrev pub message_record : BaseRecord (List ℕ) (List ℕ)
message_record = record {
  topic = "t";
  partition = none;
  payload = some (1 ∷ []);
  key = none;
  timestamp = none;
  headers = none;
}

pub delivered_once : (send clock producer message_record).0 ≡ sent reported
unfolding send
delivered_once = rw produced
