-- ===== src/Typed/RoundTrip.antt =====
-- The typed producer of src/typed.rs and the messages that it leaves in a broker.
use rmem_queue.Base.{ℕ, ℤ, String, ◌≡◌, refl, ap, ◌∙◌, Option, none, some, nat_eq, arith}
use rmem_queue.Action.{Action}
use rmem_queue.Backend.RoundTrip.{KeepsAll}
use rmem_queue.Broker.{Broker, RecordMetadata, produce_typed, fetch_one_from_position}
use rmem_queue.Broker.RoundTrip.{produce_typed-fetch_one_from_position}
use rmem_queue.Broker.Valid.{IsBroker}
use rmem_queue.Config.{BrokerConfig}
use rmem_queue.Error.{Result, ok}
use rmem_queue.Headers.{OwnedHeaders}
use rmem_queue.Message
use rmem_queue.Message.{StoredMessage, typed_payload_ref, typed_key_ref, downcast_ref}
use rmem_queue.Partition.{Clock}
use rmem_queue.Typed.{payload, key, as_any, typed_key, send, send_with_partition, send_with_headers}

-- The three ways of a typed producer to send.
pub data Way : Type 0 where
  plain : Way
  to_partition : ℤ → Way
  with_headers : OwnedHeaders → Way

abbrev pub headers_of : Way → Option OwnedHeaders
headers_of (with_headers h) = some h
headers_of _ = none

abbrev pub partition_of : Way → Option ℤ
partition_of (to_partition p) = some p
partition_of _ = none

module _ (payload_type key_type : ℕ) where
  unfoldable pub send_by : Way → Clock → String → ℕ → Option ℕ → Action Broker RecordMetadata
  send_by plain clock topic value k = send payload_type key_type clock topic value k
  send_by (to_partition p) clock topic value k =
      send_with_partition payload_type key_type clock topic p value k
  send_by (with_headers h) clock topic value k =
      send_with_headers payload_type key_type clock topic value k h

  payload-back :
      (value : ℕ) (k : Option ℕ) (topic : String) (p o ts : ℤ) (headers : Option OwnedHeaders)
      (created : ℕ)
      → let m =
          Message.new_typed
            (as_any payload_type key_type payload_type value)
            (typed_key payload_type key_type k)
            topic
            p
            o
            ts
            headers
            created in
        (payload payload_type key_type m ≡ ok value) × (key payload_type key_type m ≡ k)
  unfolding payload key typed_payload_ref typed_key_ref downcast_ref
  payload-back value none topic p o ts headers created = (ground arith, ground arith)
  payload-back value (some k) topic p o ts headers created = (ground arith, ground arith)

  send_by_lem :
      (way : Way) (clock : Clock) (topic : String) (value : ℕ) (k : Option ℕ)
      → send_by way clock topic value k
        ≡ produce_typed clock topic
            (partition_of way)
            (as_any payload_type key_type payload_type value)
            (typed_key payload_type key_type k)
            (headers_of way)
            none
  unfolding send_by send send_with_partition send_with_headers
  send_by_lem plain clock topic value k = refl
  send_by_lem (to_partition p) clock topic value k = refl
  send_by_lem (with_headers h) clock topic value k = refl

  -- If a valid broker that keeps everything accepts a value that a typed producer sends, then at the
  -- partition and offset reported it has a message that gives the payload and the key back at their
  -- types, with the headers given, whichever of the three calls has sent it.
  pub send_by-fetch :
      {c : BrokerConfig} (way : Way) (clock : Clock) (topic : String) (value : ℕ) (k : Option ℕ)
      (b : Broker) (meta : RecordMetadata) (group_id : Option String)
      → IsBroker c b
      → KeepsAll c
      → (send_by way clock topic value k b).0 ≡ ok meta
      → (m : StoredMessage) × (fetch_one_from_position
            (send_by way clock topic value k b).1
            meta.topic
            meta.partition
            (some meta.offset)
            group_id
          ≡ ok (some m))
        × (payload payload_type key_type m ≡ ok value)
        × (key payload_type key_type m ≡ k)
        × (m.headers ≡ headers_of way)
  send_by-fetch way clock topic value k b meta group_id v s e =
      let same =
        ap (λ (f : Action Broker RecordMetadata). f b) (send_by_lem way clock topic value k) in
      let (back, back_key) =
        payload-back value k meta.topic meta.partition meta.offset meta.timestamp (headers_of way)
          clock.created in
      let accepted : (produce_typed clock topic (partition_of way)
            (as_any payload_type key_type payload_type value) (typed_key payload_type key_type k)
            (headers_of way) none b).0
          ≡ ok meta =
        cc in
      (
        _,
        ap
              (λ (r : Result RecordMetadata × Broker).
                fetch_one_from_position r.1 meta.topic meta.partition (some meta.offset) group_id)
              same
            ∙ produce_typed-fetch_one_from_position clock topic (partition_of way)
                (as_any payload_type key_type payload_type value)
                (typed_key payload_type key_type k) (headers_of way) none b meta group_id v s
                accepted,
        back,
        back_key,
        refl,
      )
