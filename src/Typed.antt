-- ===== src/Typed.antt =====
-- src/typed.rs: producers and consumers of typed messages. A type is named by its `TypeId`.
pub mod Laws
pub mod RoundTrip
pub mod Clients
use rmem_queue.Base.{ℕ, ℤ, String, Option, none, some, List, if◌then◌else◌}
use rmem_queue.Action.{Action}
use rmem_queue.Broker
use rmem_queue.Broker.{Broker, RecordMetadata}
use rmem_queue.Consumer.{BaseConsumer}
use rmem_queue.Error.{custom, Result, ok, err, panic, or_panic}
use rmem_queue.Headers.{OwnedHeaders}
use rmem_queue.Message.{
  DynAny, StoredMessage, BorrowedMessage, has_typed_payload, typed_payload_ref, typed_key_ref,
}
use rmem_queue.Partition.{Clock}
use rmem_queue.Poll

-- A value that a client hands over, at the client's types: `payload_type`, `key_type`.
module _ (payload_type key_type : ℕ) where
  abbrev pub as_any : ℕ → ℕ → DynAny
  as_any type_id value = record { type_id = type_id; value = value }

  abbrev pub typed_key : Option ℕ → Option DynAny
  typed_key none = none
  typed_key (some k) = some (record { type_id = key_type; value = k })

  unfoldable pub send : Clock → String → ℕ → Option ℕ → Action Broker RecordMetadata
  send clock topic payload key =
      Broker.produce_typed clock topic none (as_any payload_type payload) (typed_key key) none none

  unfoldable pub send_with_partition :
      Clock → String → ℤ → ℕ → Option ℕ → Action Broker RecordMetadata
  send_with_partition clock topic partition payload key =
      Broker.produce_typed clock topic (some partition) (as_any payload_type payload)
        (typed_key key) none none

  unfoldable pub send_with_headers :
      Clock → String → ℕ → Option ℕ → OwnedHeaders → Action Broker RecordMetadata
  send_with_headers clock topic payload key headers =
      Broker.produce_typed clock topic none (as_any payload_type payload) (typed_key key)
        (some headers) none

  -- `TypedBorrowedMessage::payload`, which panics on another type.
  unfoldable pub payload : StoredMessage → Result ℕ
  payload m = or_panic (typed_payload_ref payload_type m)

  unfoldable pub key : StoredMessage → Option ℕ
  key m = typed_key_ref key_type m

abbrev pub typed_result : Option (Result BorrowedMessage) → Option (Result StoredMessage)
typed_result (some (ok m)) = some (
    if has_typed_payload m.inner
    then ok m.inner
    else err (custom "message has raw bytes payload, not typed"))
typed_result (some (err e)) = some (err e)
typed_result (some panic) = some panic
typed_result none = none

-- `TypedConsumer::poll`
unfoldable pub poll :
    Broker → List Broker → BaseConsumer → Option (Result StoredMessage) × BaseConsumer
poll b later c = let (r, c') = Poll.poll b later c in (typed_result r, c')
