-- ===== src/Producer/Json.antt =====
-- Records with a text as key and JSON as payload, and what a consumer decodes.
use rmem_queue.Base.{String, ◌≡◌, ap, Option, some}
use rmem_queue.Backend.RoundTrip.{KeepsAll}
use rmem_queue.Broker.{RecordMetadata, fetch_one_from_position}
use rmem_queue.Broker.Valid.{IsBroker}
use rmem_queue.Config.{BrokerConfig}
use rmem_queue.Error.{ok}
use rmem_queue.Headers.{Bytes}
use rmem_queue.Message.{BorrowedMessage, StoredMessage}
use rmem_queue.Message.Access.{borrowed_message, decode_payload, decode_key}
use rmem_queue.Partition.{Clock}
use rmem_queue.Producer.{sent, BaseProducer, send}
use rmem_queue.Producer.Decode.{decoded_bytes}
use rmem_queue.Producer.Laws.{send-fetch}
use rmem_queue.Record.{BaseRecord, bytes_to_bytes}
use rmem_queue.Record.Text.{
  Utf8, string_to_bytes, string_from_bytes, string-IsCodec, Json, IsJson, to_json_bytes,
  from_json_bytes, serde_from_bytes, written, wrapped, json_round_trip,
}

module _ {Text T : Type 0} (utf8 : Utf8 Text) (json : Json T) where
  -- When a producer of a valid broker without loss has sent a record with a text or nothing as its key
  -- and the JSON of a value as its payload, the broker has a message at the partition and offset
  -- reported whose key decodes to that of the record, and whose payload decodes to the value, or to
  -- nothing if the value could not be written as JSON. The hypotheses on the conversions are that the
  -- bytes of a text give it back, that a value that is written is read, and that nothing is read from
  -- no bytes.
  pub send_json-decode :
      {c : BrokerConfig} (clock : Clock) (producer : BaseProducer) (r : BaseRecord Text Bytes)
      (x : T) (meta : RecordMetadata) (group_id : Option String)
      → IsJson json
      → IsBroker c producer.broker
      → KeepsAll c
      → r.payload ≡ some (to_json_bytes json x)
      → (send ⦃k = string_to_bytes utf8⦄ clock producer r).0 ≡ sent meta
      → (m : StoredMessage) × (fetch_one_from_position
            (send ⦃k = string_to_bytes utf8⦄ clock producer r).1.broker
            meta.topic
            meta.partition
            (some meta.offset)
            group_id
          ≡ ok (some m))
        × (decode_key {M = BorrowedMessage} ⦃f = string_from_bytes utf8⦄ (record { inner = m })
            ≡ r.key)
        × (decode_payload {M = BorrowedMessage} ⦃f = serde_from_bytes json⦄ (record { inner = m })
            ≡ wrapped json (written json x))
  unfolding decode_key decode_payload from_json_bytes
  send_json-decode clock producer r x meta group_id v valid s payload h = (
    _,
    send-fetch ⦃k = string_to_bytes utf8⦄ clock producer r meta group_id valid s h,
    decoded_bytes ⦃to = string_to_bytes utf8⦄ ⦃from = string_from_bytes utf8⦄
        ⦃c = string-IsCodec utf8⦄ r.key,
    rw payload (ap (wrapped json) (json_round_trip json v x)),
  )
