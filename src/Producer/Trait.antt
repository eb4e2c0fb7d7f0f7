-- ===== src/Producer/Trait.antt =====
-- The trait `Producer` of src/producer.rs with its default methods, its implementations, and the
-- methods of the sink that do nothing.
use rmem_queue.Base.{ℤ, pos, String, Option}
use rmem_queue.Broker
use rmem_queue.Broker.{Broker, RecordMetadata}
use rmem_queue.Error.{Result, ok}
use rmem_queue.Metadata.{Metadata}
use rmem_queue.Partition.{Clock}
use rmem_queue.Producer.{Sent, BaseProducer, send}
use rmem_queue.Record.{BaseRecord, ToBytes}

-- `S` is the producer with the broker and the context that it shares; `K` and `P` are the types of the
-- key and the payload.
pub record Producer (S K P : Type 0) : Type 0 where
  pub broker : S → Broker
  pub send_record : Clock → S → BaseRecord K P → Sent RecordMetadata (BaseRecord K P) × S

module _ {S K P : Type 0} (p : Producer S K P) where
  unfoldable pub flush : S → Result (Unit {0})
  flush s = ok tt

  unfoldable pub in_flight_count : S → ℤ
  in_flight_count s = pos 0

  unfoldable pub metadata : Option String → S → Result Metadata
  metadata topic s = Broker.metadata (p.broker s) topic

  unfoldable pub watermarks : String → ℤ → S → Result (ℤ × ℤ)
  watermarks topic partition s = Broker.watermarks (p.broker s) topic partition

-- An `Arc` of a producer is the producer that it shares.
pub record StreamProducer : Type 0 where
  pub inner : BaseProducer

abbrev wrapped : {A : Type 0} → A × BaseProducer → A × StreamProducer
wrapped (a, producer) = (a, record { inner = producer })

module _ {K P : Type 0} ⦃k : ToBytes K⦄ ⦃p : ToBytes P⦄ where
  abbrev pub base_producer : Producer BaseProducer K P
  base_producer = record { broker = λ s. s.broker; send_record = λ clock s r. send clock s r }

  -- `impl Producer for StreamProducer`
  abbrev pub stream_producer : Producer StreamProducer K P
  stream_producer = record {
    broker = λ s. s.inner.broker;
    send_record = λ clock s r. wrapped (send clock s.inner r);
  }

-- `Poll<Result<(), _>>` of a sink.
pub data Poll : Type 0 where
  ready : Result (Unit {0}) → Poll
  pending : Poll

unfoldable pub poll_ready : StreamProducer → Poll
poll_ready s = ready (ok tt)

unfoldable pub poll_flush : StreamProducer → Poll
poll_flush s = ready (ok tt)

unfoldable pub poll_close : StreamProducer → Poll
poll_close s = ready (ok tt)
