-- ===== src/Producer/Sink.antt =====
-- The rest of src/stream_producer.rs: records of one's own, and the sink.
use rmem_queue.Base.{◌≡◌, refl, Option, none, some}
use rmem_queue.Broker.{Broker, RecordMetadata}
use rmem_queue.Error.{Result, ok, err, panic}
use rmem_queue.Headers.{Bytes}
use rmem_queue.Partition.{Clock}
use rmem_queue.Producer.{
  Sent, sent, failed, panicked, BaseProducer, key_bytes, payload_bytes, send, delivered,
  OwnedRecord, stream_send, undelivered, undelivered_metadata,
}
use rmem_queue.Producer.Laws.{stream_send_lem}
use rmem_queue.Record.{BaseRecord, ToBytes, bytes_to_bytes}

-- Whether it was sent, and how it failed.
abbrev pub verdict : {A B : Type 0} → Sent A B → Sent A (Unit {0})
verdict (sent a) = sent a
verdict (failed e b) = failed e tt
verdict panicked = panicked

own_bytes : (x : Option Bytes) → elim x [ none ↦ none | some b ↦ some b ] ≡ x
own_bytes none = refl
own_bytes (some b) = refl

module _ {K P : Type 0} ⦃k : ToBytes K⦄ ⦃p : ToBytes P⦄ where
  -- `impl From<BaseRecord<'a, K, P>> for OwnedRecord`
  unfoldable pub from_record : BaseRecord K P → OwnedRecord
  from_record r = record {
    topic = r.topic;
    partition = r.partition;
    payload = payload_bytes r;
    key = key_bytes r;
    timestamp = r.timestamp;
    headers = r.headers;
  }

  key-from_record : (r : BaseRecord K P) → key_bytes (from_record r) ≡ key_bytes r
  unfolding from_record
  key-from_record r = own_bytes (key_bytes r)

  payload-from_record : (r : BaseRecord K P) → payload_bytes (from_record r) ≡ payload_bytes r
  unfolding from_record
  payload-from_record r = own_bytes (payload_bytes r)

  delivered-from_record :
      (r : BaseRecord K P) (log : _) (x : Result RecordMetadata × Broker)
      → (verdict (delivered (from_record r) log x).0 ≡ verdict (delivered r log x).0)
        × ((delivered (from_record r) log x).1 ≡ (delivered r log x).1)
  unfolding from_record undelivered undelivered_metadata
  delivered-from_record r log (ok meta, b) = (refl, refl)
  delivered-from_record r log (err e, b) =
      (refl, rw (key-from_record r, payload-from_record r) refl)
  delivered-from_record r log (panic, b) = (refl, refl)

  -- To send an owned copy of a record through the stream producer stores, reports and calls back as to
  -- send the record itself does.
  pub stream_send-from_record :
      (clock : Clock) (producer : BaseProducer) (r : BaseRecord K P)
      → let (result, after) = stream_send clock producer (from_record r) in
        let (result', after') = send clock producer r in
        (verdict result ≡ verdict result') × (after ≡ after')
  unfolding from_record send
  stream_send-from_record clock producer r =
      rw (stream_send_lem clock producer (from_record r), key-from_record r, payload-from_record r)
        (delivered-from_record r producer.deliveries _)

-- `start_send` of `ProducerSink`: `map(|_| ())`.
abbrev pub started :
    Sent RecordMetadata OwnedRecord × BaseProducer → Sent (Unit {0}) OwnedRecord × BaseProducer
started (sent meta, producer) = (sent tt, producer)
started (failed e o, producer) = (failed e o, producer)
started (panicked, producer) = (panicked, producer)

unfoldable pub start_send :
    Clock → BaseProducer → OwnedRecord → Sent (Unit {0}) OwnedRecord × BaseProducer
start_send clock producer o = started (stream_send clock producer o)
