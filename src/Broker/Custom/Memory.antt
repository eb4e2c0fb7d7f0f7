-- ===== src/Broker/Custom/Memory.antt =====
-- The in-memory backend of src/broker_backend.rs as an implementation of the trait.
use rmem_queue.Base.{string_eq}
use rmem_queue.Backend
use rmem_queue.Backend.{InMemoryBackend}
use rmem_queue.Broker.Custom.{BrokerBackend}

-- `impl BrokerBackend for InMemoryBackend`
instance abbrev pub in_memory : BrokerBackend InMemoryBackend
in_memory = record {
  ensure_topic = Backend.ensure_topic;
  produce = Backend.produce;
  fetch = Backend.fetch;
  fetch_one = Backend.fetch_one;
  watermarks = Backend.watermarks;
  metadata = Backend.metadata;
  shutdown = Backend.shutdown;
}
