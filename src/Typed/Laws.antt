-- ===== src/Typed/Laws.antt =====
-- Typed payloads come back at their type.
use rmem_queue.Base.{
  ℕ, ℤ, String, ◌≡◌, refl, Option, none, some, nat_eq, ◌==◌, arith, if◌then◌else◌,
}
use rmem_queue.Error.{ok, err, panic, custom}
use rmem_queue.Headers.{Bytes, OwnedHeaders}
use rmem_queue.Message
use rmem_queue.Message.{
  DynAny, StoredMessage, BorrowedMessage, typed_payload_ref, typed_key_ref, has_typed_payload,
  downcast_ref,
}
use rmem_queue.Typed.{payload, key, as_any, typed_key, typed_result}

-- A typed message gives its payload and key at the types that they were sent with; at another type
-- the payload panics and the key is missing. A message of raw bytes is an error of `poll`.
pub typed_round_trip :
    (payload_type key_type wanted wanted_key value : ℕ) (k : Option ℕ) (topic : String) (p o ts : ℤ)
    (headers : Option OwnedHeaders) (created : ℕ) (raw_key raw : Option Bytes)
    → let m =
        Message.new_typed
          (as_any payload_type key_type payload_type value)
          (typed_key payload_type key_type k)
          topic
          p
          o
          ts
          headers
          created in
      (payload wanted wanted_key m ≡ (if payload_type == wanted then ok value else panic))
      × (key wanted wanted_key m ≡ (if key_type == wanted_key then k else none))
      × (typed_result (some (ok (record { inner = m }))) ≡ some (ok m))
      × (typed_result
            (some (ok (record { inner = Message.new raw_key raw topic p o ts headers created })))
          ≡ some (err (custom "message has raw bytes payload, not typed")))
unfolding payload key typed_payload_ref typed_key_ref has_typed_payload downcast_ref
typed_round_trip payload_type key_type wanted wanted_key value none topic p o ts headers created
      raw_key raw =
    (ground arith, ground arith, refl, refl)
typed_round_trip payload_type key_type wanted wanted_key value (some k) topic p o ts headers created
      raw_key raw =
    (ground arith, ground arith, refl, refl)
