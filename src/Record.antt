-- ===== src/Record.antt =====
-- src/record.rs: records to be sent, and the conversions of keys and payloads to bytes.
pub mod Decode
pub mod Text
use rmem_queue.Base.{ℤ, String, Option, none, some}
use rmem_queue.Headers.{Bytes, OwnedHeaders}

-- The trait `ToBytes`.
pub record ToBytes (T : Type 0) : Type 0 where
  pub to_bytes : T → Bytes

-- `impl ToBytes for [u8]` and for `Vec<u8>`.
instance abbrev pub bytes_to_bytes : ToBytes Bytes
bytes_to_bytes = record { to_bytes = λ b. b }

pub record BaseRecord (K P : Type 0) : Type 0 where
  pub topic : String
  pub partition : Option ℤ
  pub payload : Option P
  pub key : Option K
  pub timestamp : Option ℤ
  pub headers : Option OwnedHeaders

module _ {K P : Type 0} where
  unfoldable pub to : String → BaseRecord K P
  to topic = record {
    topic = topic;
    partition = none;
    payload = none;
    key = none;
    timestamp = none;
    headers = none;
  }

  unfoldable pub partition : BaseRecord K P → ℤ → BaseRecord K P
  partition r p = record r { partition = some p }

  unfoldable pub payload : BaseRecord K P → P → BaseRecord K P
  payload r p = record r { payload = some p }

  unfoldable pub key : BaseRecord K P → K → BaseRecord K P
  key r k = record r { key = some k }

  unfoldable pub timestamp : BaseRecord K P → ℤ → BaseRecord K P
  timestamp r ts = record r { timestamp = some ts }

  unfoldable pub headers : BaseRecord K P → OwnedHeaders → BaseRecord K P
  headers r h = record r { headers = some h }
