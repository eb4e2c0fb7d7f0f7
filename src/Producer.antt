-- ===== src/Producer.antt =====
-- src/base_producer.rs, src/future_producer.rs and src/stream_producer.rs: producers over a broker.
pub mod Laws
pub mod Decode
pub mod Sink
pub mod Json
pub mod Owned
pub mod Trait
use rmem_queue.Base.{ℤ, pos, negsuc, Option, none, some, List, ◌∷◌}
use rmem_queue.Broker
use rmem_queue.Broker.{Broker, RecordMetadata}
use rmem_queue.Error.{RmqError, Result, ok, err, panic}
use rmem_queue.Headers.{Bytes}
use rmem_queue.Message.{OwnedMessage, create_time}
use rmem_queue.Partition.{Clock}
use rmem_queue.Record.{bytes_to_bytes, BaseRecord, ToBytes}
use rmem_queue.Record

-- `DeliveryResult`, and what `send` returns: a failure comes with a value.
pub data Sent (A B : Type 0) : Type 0 where
  sent : A → Sent A B
  failed : RmqError → B → Sent A B
  panicked : Sent A B

abbrev pub DeliveryResult : Type 0
DeliveryResult = Sent RecordMetadata OwnedMessage

-- A broker and the calls made on the producer's `ProducerContext::delivery`, the latest first.
pub record BaseProducer : Type 0 where
  pub broker : Broker
  pub deliveries : List (DeliveryResult × RecordMetadata)

abbrev or_minus_one : Option ℤ → ℤ
or_minus_one none = negsuc 0
or_minus_one (some p) = p

abbrev or_zero : Option ℤ → ℤ
or_zero none = pos 0
or_zero (some ts) = ts

module _ {K P : Type 0} ⦃k : ToBytes K⦄ ⦃p : ToBytes P⦄ where
  abbrev pub key_bytes : BaseRecord K P → Option Bytes
  key_bytes r = elim r.key [ none ↦ none | some x ↦ some (k.to_bytes x) ]

  abbrev pub payload_bytes : BaseRecord K P → Option Bytes
  payload_bytes r = elim r.payload [ none ↦ none | some x ↦ some (p.to_bytes x) ]

  -- The message that a failed delivery reports.
  unfoldable pub undelivered : BaseRecord K P → OwnedMessage
  undelivered r = record {
    payload = payload_bytes r;
    key = key_bytes r;
    topic = r.topic;
    partition = or_minus_one r.partition;
    offset = negsuc 0;
    timestamp = create_time (or_zero r.timestamp);
    headers = r.headers;
  }

  unfoldable pub undelivered_metadata : BaseRecord K P → RecordMetadata
  undelivered_metadata r = record {
    topic = r.topic;
    partition = or_minus_one r.partition;
    offset = negsuc 0;
    timestamp = or_zero r.timestamp;
  }

  abbrev pub delivered :
      BaseRecord K P
      → List (DeliveryResult × RecordMetadata)
      → Result RecordMetadata × Broker
      → Sent RecordMetadata (BaseRecord K P) × BaseProducer
  delivered r log (ok meta, b) =
      (sent meta, record { broker = b; deliveries = (sent meta, meta) ∷ log })
  delivered r log (err e, b) = (
    failed e r,
    record { broker = b; deliveries = (failed e (undelivered r), undelivered_metadata r) ∷ log },
  )
  delivered r log (panic, b) = (panicked, record { broker = b; deliveries = log })

  unfoldable pub send :
      Clock → BaseProducer → BaseRecord K P → Sent RecordMetadata (BaseRecord K P) × BaseProducer
  send clock producer r = delivered r producer.deliveries (
      Broker.produce clock r.topic r.partition (key_bytes r) (payload_bytes r) r.headers r.timestamp
        producer.broker)

  abbrev future_result : Sent RecordMetadata (BaseRecord K P) → DeliveryResult
  future_result (sent meta) = sent meta
  future_result (failed e r) = failed e (undelivered r)
  future_result panicked = panicked

  -- `FutureProducer::send`; the record that `to_delivery_error` reads is the one that was sent.
  unfoldable pub future_send : Clock → BaseProducer → BaseRecord K P → DeliveryResult × BaseProducer
  future_send clock producer r =
      let (result, producer') = send clock producer r in (future_result result, producer')

-- An `OwnedRecord` of src/stream_producer.rs.
abbrev pub OwnedRecord : Type 0
OwnedRecord = BaseRecord Bytes Bytes

abbrev pub set_some : {A R : Type 0} → (R → A → R) → Option A → R → R
set_some f none r = r
set_some f (some a) r = f r a

-- The borrowed record that `StreamProducer::send` builds, field by field.
unfoldable pub borrowed : OwnedRecord → BaseRecord Bytes Bytes
borrowed o = set_some Record.headers o.headers (
    set_some Record.timestamp o.timestamp (
      set_some Record.partition o.partition
        (set_some Record.key o.key (set_some Record.payload o.payload (Record.to o.topic)))))

abbrev pub with_record :
    OwnedRecord → Sent RecordMetadata (BaseRecord Bytes Bytes) → Sent RecordMetadata OwnedRecord
with_record o (sent meta) = sent meta
with_record o (failed e _) = failed e o
with_record o panicked = panicked

-- `StreamProducer::send`, and `start_send` of its sink but for the metadata.
unfoldable pub stream_send :
    Clock → BaseProducer → OwnedRecord → Sent RecordMetadata OwnedRecord × BaseProducer
stream_send clock producer o =
    let (result, producer') = send clock producer (borrowed o) in (with_record o result, producer')
