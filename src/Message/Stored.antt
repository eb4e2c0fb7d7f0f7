-- ===== src/Message/Stored.antt =====
-- The accessors of `StoredMessage` and `BorrowedMessage` in src/message.rs.
use rmem_queue.Base.{ℕ, ℤ, pos, String, Option, none, some}
use rmem_queue.Headers.{Bytes, OwnedHeaders}
use rmem_queue.Message.{
  StoredMessage, BorrowedMessage, DynAny, Timestamp, create_time, downcast_ref,
}

unfoldable pub key : StoredMessage → Option Bytes
key m = m.key

unfoldable pub payload : StoredMessage → Option Bytes
payload m = m.payload

unfoldable pub topic : StoredMessage → String
topic m = m.topic

unfoldable pub partition : StoredMessage → ℤ
partition m = m.partition

unfoldable pub offset : StoredMessage → ℤ
offset m = m.offset

unfoldable pub timestamp : StoredMessage → ℤ
timestamp m = m.timestamp

unfoldable pub headers : StoredMessage → Option OwnedHeaders
headers m = m.headers

unfoldable pub created_at : StoredMessage → ℕ
created_at m = m.created_at

-- `arc.clone().downcast::<P>().ok()`
abbrev downcast : ℕ → Option DynAny → Option DynAny
downcast wanted none = none
downcast wanted (some a) = elim (downcast_ref wanted a) [ none ↦ none | some _ ↦ some a ]

unfoldable pub typed_payload_arc : ℕ → StoredMessage → Option DynAny
typed_payload_arc wanted m = downcast wanted m.typed_payload

unfoldable pub typed_key_arc : ℕ → StoredMessage → Option DynAny
typed_key_arc wanted m = downcast wanted m.typed_key

-- `BorrowedMessage::new` and `inner_arc`: the message is shared, not copied.
unfoldable pub borrow : StoredMessage → BorrowedMessage
borrow m = record { inner = m }

unfoldable pub inner_arc : BorrowedMessage → StoredMessage
inner_arc m = m.inner

-- `Timestamp::now`: the milliseconds since the epoch that the clock reads, and 0 if it stands before it.
unfoldable pub now : Option ℤ → Timestamp
now none = create_time (pos 0)
now (some ms) = create_time ms
