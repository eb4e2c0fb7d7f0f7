-- ===== src/Producer/Decode.antt =====
-- Producers of typed values, and what is decoded on the other side.
use rmem_queue.Base.{String, ◌≡◌, refl, Option, none, some}
use rmem_queue.Backend.RoundTrip.{KeepsAll}
use rmem_queue.Broker.{RecordMetadata, fetch_one_from_position}
use rmem_queue.Broker.Valid.{IsBroker}
use rmem_queue.Config.{BrokerConfig}
use rmem_queue.Error.{ok}
use rmem_queue.Message.{BorrowedMessage, StoredMessage}
use rmem_queue.Message.Access.{borrowed_message, decoded, decode_payload, decode_key}
use rmem_queue.Partition.{Clock}
use rmem_queue.Producer.{sent, BaseProducer, send}
use rmem_queue.Producer.Laws.{send-fetch}
use rmem_queue.Record.{BaseRecord, ToBytes}
use rmem_queue.Record.Decode.{FromBytes, IsCodec}

module _ {T : Type 0} ⦃to : ToBytes T⦄ ⦃from : FromBytes T⦄ ⦃c : IsCodec T⦄ where
  pub decoded_bytes :
      (x : Option T)
      → decoded ⦃f = from⦄ (elim x [ none ↦ none | some y ↦ some (to.to_bytes y) ]) ≡ x
  unfolding decoded
  decoded_bytes none = refl
  decoded_bytes (some y) = c.from-to y

module _ {K P : Type 0} ⦃k : ToBytes K⦄ ⦃kf : FromBytes K⦄ ⦃kc : IsCodec K⦄ ⦃p : ToBytes P⦄
    ⦃pf : FromBytes P⦄ ⦃pc : IsCodec P⦄ where
  -- When a producer of a valid broker without loss has sent a record whose key and payload types give
  -- values back from their bytes, the broker has a message at the partition and offset reported that
  -- decodes to the key and the payload of the record, missing ones included.
  pub send-decode :
      {c : BrokerConfig} (clock : Clock) (producer : BaseProducer) (r : BaseRecord K P)
      (meta : RecordMetadata) (group_id : Option String)
      → IsBroker c producer.broker
      → KeepsAll c
      → (send clock producer r).0 ≡ sent meta
      → (m : StoredMessage) × (fetch_one_from_position
            (send clock producer r).1.broker
            meta.topic
            meta.partition
            (some meta.offset)
            group_id
          ≡ ok (some m))
        × (decode_key {M = BorrowedMessage} (record { inner = m }) ≡ r.key)
        × (decode_payload {M = BorrowedMessage} (record { inner = m }) ≡ r.payload)
  unfolding decode_key decode_payload
  send-decode clock producer r meta group_id v s h = (
    _,
    send-fetch clock producer r meta group_id v s h,
    decoded_bytes r.key,
    decoded_bytes r.payload,
  )
