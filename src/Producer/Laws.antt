-- ===== src/Producer/Laws.antt =====
-- What a producer sends can be read, and the stream producer is the plain one.
use rmem_queue.Base.{String, ◌≡◌, refl, ap, ◌∙◌, Option, some, arith}
use rmem_queue.Backend.RoundTrip.{KeepsAll}
use rmem_queue.Broker.{Broker, RecordMetadata, fetch_one_from_position}
use rmem_queue.Broker.RoundTrip.{produce-fetch_one_from_position}
use rmem_queue.Broker.Valid.{IsBroker}
use rmem_queue.Config.{BrokerConfig}
use rmem_queue.Error.{Result, ok, err, panic}
use rmem_queue.Message
use rmem_queue.Partition.{Clock}
use rmem_queue.Producer.{
  sent, BaseProducer, key_bytes, payload_bytes, send, delivered, OwnedRecord, borrowed, with_record,
  stream_send,
}
use rmem_queue.Record.{BaseRecord, ToBytes, bytes_to_bytes}
use rmem_queue.Record

-- The record that the stream producer builds has all the fields of the one it was given.
borrowed_lem : (o : OwnedRecord) → borrowed o ≡ o
unfolding borrowed Record.to Record.headers Record.timestamp Record.partition Record.key
    Record.payload
borrowed_lem o = ground arith

with_record_lem :
    (o : OwnedRecord) (log : _) (x : Result RecordMetadata × Broker)
    → (with_record o (delivered o log x).0, (delivered o log x).1) ≡ delivered o log x
with_record_lem o log (ok meta, b) = refl
with_record_lem o log (err e, b) = refl
with_record_lem o log (panic, b) = refl

-- `StreamProducer::send`, which rebuilds the record field by field, does what `BaseProducer::send`
-- does with the record itself, and gives the record back if it fails.
pub stream_send_lem :
    (clock : Clock) (producer : BaseProducer) (o : OwnedRecord)
    → stream_send clock producer o ≡ send clock producer o
unfolding stream_send send
stream_send_lem clock producer o =
    ap
      (λ (r : OwnedRecord).
        let (result, producer') = send clock producer r in (with_record o result, producer'))
      (borrowed_lem o)
    ∙ with_record_lem o producer.deliveries _

module _ {K P : Type 0} ⦃k : ToBytes K⦄ ⦃p : ToBytes P⦄ where
  sent_inversion :
      (r : BaseRecord K P) (log : _) (x : Result RecordMetadata × Broker) {meta : RecordMetadata}
      → (delivered r log x).0 ≡ sent meta
      → (x.0 ≡ ok meta) × ((delivered r log x).1.broker ≡ x.1)
  sent_inversion r log (ok m, b) h = (cc, refl)
  sent_inversion r log (err e, b) h = cc
  sent_inversion r log (panic, b) h = cc

  -- A record that a producer of a valid broker without loss has sent is what the broker gives at the
  -- partition and offset reported: the bytes of its key and payload, and its headers.
  pub send-fetch :
      {c : BrokerConfig} (clock : Clock) (producer : BaseProducer) (r : BaseRecord K P)
      (meta : RecordMetadata) (group_id : Option String)
      → IsBroker c producer.broker
      → KeepsAll c
      → (send clock producer r).0 ≡ sent meta
      → fetch_one_from_position
          (send clock producer r).1.broker
          meta.topic
          meta.partition
          (some meta.offset)
          group_id
        ≡ ok (
            some (
              Message.new
                (key_bytes r)
                (payload_bytes r)
                meta.topic
                meta.partition
                meta.offset
                meta.timestamp
                r.headers
                clock.created))
  unfolding send
  send-fetch clock producer r meta group_id v k h =
      let (accepted, same) = sent_inversion r producer.deliveries _ h in
      ap (λ b. fetch_one_from_position b meta.topic meta.partition (some meta.offset) group_id) same
      ∙ produce-fetch_one_from_position clock r.topic r.partition (key_bytes r) (payload_bytes r)
          r.headers r.timestamp producer.broker meta group_id v k accepted
