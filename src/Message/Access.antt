-- ===== src/Message/Access.antt =====
-- The trait `Message` of src/message.rs: what is read of an owned and of a borrowed message.
use rmem_queue.Base.{ℤ, String, ◌≡◌, refl, Option, none, some}
use rmem_queue.Headers.{Bytes, OwnedHeaders}
use rmem_queue.Message.{
  Timestamp, OwnedMessage, BorrowedMessage, detach, to_owned_message, borrowed_timestamp,
}
use rmem_queue.Record.Decode.{FromBytes}

pub record Message (M : Type 0) : Type 0 where
  pub key : M → Option Bytes
  pub payload : M → Option Bytes
  pub topic : M → String
  pub partition : M → ℤ
  pub offset : M → ℤ
  pub timestamp : M → Timestamp
  pub headers : M → Option OwnedHeaders

instance abbrev pub owned_message : Message OwnedMessage
owned_message = record {
  key = λ m. m.key;
  payload = λ m. m.payload;
  topic = λ m. m.topic;
  partition = λ m. m.partition;
  offset = λ m. m.offset;
  timestamp = λ m. m.timestamp;
  headers = λ m. m.headers;
}

instance abbrev pub borrowed_message : Message BorrowedMessage
borrowed_message = record {
  key = λ m. m.inner.key;
  payload = λ m. m.inner.payload;
  topic = λ m. m.inner.topic;
  partition = λ m. m.inner.partition;
  offset = λ m. m.inner.offset;
  timestamp = borrowed_timestamp;
  headers = λ m. m.inner.headers;
}

-- `and_then(FromBytes::from_bytes)`
unfoldable pub decoded : {T : Type 0} → ⦃f : FromBytes T⦄ → Option Bytes → Option T
decoded none = none
decoded ⦃f⦄ (some b) = f.from_bytes b

module _ {M T : Type 0} ⦃m : Message M⦄ ⦃f : FromBytes T⦄ where
  unfoldable pub decode_payload : M → Option T
  unfolding decoded
  decode_payload x = decoded (m.payload x)

  unfoldable pub decode_key : M → Option T
  unfolding decoded
  decode_key x = decoded (m.key x)

-- What is read of a message.
abbrev pub View : Type 0
View = Option Bytes × Option Bytes × String × ℤ × ℤ × Timestamp × Option OwnedHeaders

abbrev pub view : {M : Type 0} → ⦃m : Message M⦄ → M → View
view ⦃m⦄ x =
    (m.key x, m.payload x, m.topic x, m.partition x, m.offset x, m.timestamp x, m.headers x)

-- A detached message reads as the borrowed one it was detached from.
pub detach-view : (m : BorrowedMessage) → view (detach m) ≡ view m
unfolding detach to_owned_message borrowed_timestamp
detach-view m = refl
