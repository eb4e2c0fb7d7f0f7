-- ===== src/Message.antt =====
-- src/message.rs: stored, owned and borrowed messages.
pub mod Access
pub mod Stored
use rmem_queue.Base.{
  ℕ, ℤ, String, Bool, true, false, Option, none, some, ◌==◌, nat_eq, if◌then◌else◌,
}
use rmem_queue.Headers.{Bytes, OwnedHeaders}

-- Milliseconds since the epoch.
pub data Timestamp : Type 0 where
  not_available : Timestamp
  create_time : ℤ → Timestamp
  log_append_time : ℤ → Timestamp

unfoldable pub to_millis : Timestamp → Option ℤ
to_millis not_available = none
to_millis (create_time ms) = some ms
to_millis (log_append_time ms) = some ms

-- An `Arc<dyn Any>`: the `TypeId` of the value, and the value by its identity.
pub record DynAny : Type 0 where
  pub type_id : ℕ
  pub value : ℕ

-- `downcast_ref`: the value, if it has the type asked for.
unfoldable pub downcast_ref : ℕ → DynAny → Option ℕ
downcast_ref wanted a = if a.type_id == wanted then some a.value else none

-- `created_at` is a monotonic clock reading in nanoseconds.
pub record StoredMessage : Type 0 where
  pub key : Option Bytes
  pub payload : Option Bytes
  pub typed_payload : Option DynAny
  pub typed_key : Option DynAny
  pub topic : String
  pub partition : ℤ
  pub offset : ℤ
  pub timestamp : ℤ
  pub headers : Option OwnedHeaders
  pub created_at : ℕ

abbrev pub new :
    Option Bytes → Option Bytes → String → ℤ → ℤ → ℤ → Option OwnedHeaders → ℕ → StoredMessage
new key payload topic partition offset timestamp headers created_at = record {
  key = key;
  payload = payload;
  typed_payload = none;
  typed_key = none;
  topic = topic;
  partition = partition;
  offset = offset;
  timestamp = timestamp;
  headers = headers;
  created_at = created_at;
}

abbrev pub new_typed :
    DynAny → Option DynAny → String → ℤ → ℤ → ℤ → Option OwnedHeaders → ℕ → StoredMessage
new_typed typed_payload typed_key topic partition offset timestamp headers created_at = record {
  key = none;
  payload = none;
  typed_payload = some typed_payload;
  typed_key = typed_key;
  topic = topic;
  partition = partition;
  offset = offset;
  timestamp = timestamp;
  headers = headers;
  created_at = created_at;
}

unfoldable pub typed_payload_ref : ℕ → StoredMessage → Option ℕ
unfolding downcast_ref
typed_payload_ref wanted m = elim m.typed_payload [ none ↦ none | some a ↦ downcast_ref wanted a ]

unfoldable pub typed_key_ref : ℕ → StoredMessage → Option ℕ
unfolding downcast_ref
typed_key_ref wanted m = elim m.typed_key [ none ↦ none | some a ↦ downcast_ref wanted a ]

unfoldable pub has_typed_payload : StoredMessage → Bool
has_typed_payload m = elim m.typed_payload [ none ↦ false | some _ ↦ true ]

pub record OwnedMessage : Type 0 where
  pub payload : Option Bytes
  pub key : Option Bytes
  pub topic : String
  pub partition : ℤ
  pub offset : ℤ
  pub timestamp : Timestamp
  pub headers : Option OwnedHeaders

unfoldable pub to_owned_message : StoredMessage → OwnedMessage
to_owned_message m = record {
  payload = m.payload;
  key = m.key;
  topic = m.topic;
  partition = m.partition;
  offset = m.offset;
  timestamp = create_time m.timestamp;
  headers = m.headers;
}

-- A `BorrowedMessage` shares the stored message, which is immutable.
pub record BorrowedMessage : Type 0 where
  pub inner : StoredMessage

unfoldable pub detach : BorrowedMessage → OwnedMessage
unfolding to_owned_message
detach m = to_owned_message m.inner

-- `timestamp` of `impl Message for BorrowedMessage`.
unfoldable pub borrowed_timestamp : BorrowedMessage → Timestamp
borrowed_timestamp m = create_time m.inner.timestamp
