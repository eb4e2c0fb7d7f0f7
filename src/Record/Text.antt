-- ===== src/Record/Text.antt =====
-- The instances of src/record.rs for texts, over the conversions of the standard library, and those for
-- values that serde writes as JSON.
use rmem_queue.Base.{◌≡◌, Option, none, some, [], Option-cases, inl, inr, arith}
use rmem_queue.Headers.{Bytes}
use rmem_queue.Record.{ToBytes, bytes_to_bytes}
use rmem_queue.Record.Decode.{FromBytes, IsCodec}

-- `as_bytes` and `from_utf8(..).ok()` of the standard library, for its type of texts. The law is that
-- the bytes of a text are UTF-8 and give the text back.
pub record Utf8 (Text : Type 0) : Type 0 where
  pub as_bytes : Text → Bytes
  pub from_utf8 : Bytes → Option Text
  pub from-as_bytes : (s : Text) → from_utf8 (as_bytes s) ≡ some s

module _ {Text : Type 0} (utf8 : Utf8 Text) where
  -- `impl ToBytes for str`
  abbrev pub str_to_bytes : ToBytes Text
  str_to_bytes = record { to_bytes = λ s. utf8.as_bytes s }

  -- `impl ToBytes for String`
  abbrev pub string_to_bytes : ToBytes Text
  string_to_bytes = record { to_bytes = λ s. utf8.as_bytes s }

  -- `impl FromBytes for String`
  abbrev pub string_from_bytes : FromBytes Text
  string_from_bytes = record { from_bytes = λ d. utf8.from_utf8 d }

  pub string-IsCodec : IsCodec Text ⦃to = string_to_bytes⦄ ⦃from = string_from_bytes⦄
  string-IsCodec = record { from-to = λ s. utf8.from-as_bytes s }

-- `impl<T: ToBytes + ?Sized> ToBytes for &T`
abbrev pub ref_to_bytes : {T : Type 0} → ToBytes T → ToBytes T
ref_to_bytes t = record { to_bytes = λ x. t.to_bytes x }

-- `serde_json::to_vec(..).ok()` and `serde_json::from_slice(..).ok()` at a type.
pub record Json (T : Type 0) : Type 0 where
  pub to_vec : T → Option Bytes
  pub from_slice : Bytes → Option T

-- What is documented of them: no JSON text is empty, and the type's implementations of `Serialize` and
-- `Deserialize` fit together.
pub record IsJson {T : Type 0} (json : Json T) : Type 0 where
  pub refuses_empty : json.from_slice [] ≡ none
  pub from-to : (x : T) (d : Bytes) → json.to_vec x ≡ some d → json.from_slice d ≡ some x

pub record SerdeJson (T : Type 0) : Type 0 where
  pub value : T

module _ {T : Type 0} (json : Json T) where
  -- `unwrap_or_default()`
  unfoldable pub to_json_bytes : T → Bytes
  to_json_bytes x = elim (json.to_vec x) [ none ↦ [] | some d ↦ d ]

  unfoldable pub from_json_bytes : Bytes → Option T
  from_json_bytes d = json.from_slice d

  abbrev pub wrapped : Option T → Option (SerdeJson T)
  wrapped none = none
  wrapped (some x) = some (record { value = x })

  -- `impl FromBytes for SerdeJson<T>`
  abbrev pub serde_from_bytes : FromBytes (SerdeJson T)
  serde_from_bytes = record { from_bytes = λ d. wrapped (json.from_slice d) }

  -- What comes back of a value: itself, unless it could not be written.
  abbrev pub written : T → Option T
  written x = elim (json.to_vec x) [ none ↦ none | some _ ↦ some x ]

  pub json_round_trip : IsJson json → (x : T) → from_json_bytes (to_json_bytes x) ≡ written x
  unfolding from_json_bytes to_json_bytes
  json_round_trip v x = elim (Option-cases (json.to_vec x)) [
    | inl e ↦ ground (arith, e, v.refuses_empty)
    | inr (d, e) ↦ ground (arith, e, v.from-to x d e)
  ]
