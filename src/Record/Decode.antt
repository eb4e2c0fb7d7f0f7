-- ===== src/Record/Decode.antt =====
-- The trait `FromBytes` of src/record.rs, and the types that come back from their bytes.
use rmem_queue.Base.{
  ℕ, ◌≡◌, refl, ap, true, false, Option, none, some, [], length, ◌==◌, nat_eq, nat_beq_iff,
  Bool-cases, ◌⊎◌, inl, inr, arith,
}
use native.Mathlib.Nat.{ℕ_set}
use rmem_queue.Headers.{Bytes}
use rmem_queue.Record.{ToBytes, bytes_to_bytes}

pub record FromBytes (T : Type 0) : Type 0 where
  pub from_bytes : Bytes → Option T

-- `impl FromBytes for Vec<u8>`
instance abbrev pub bytes_from_bytes : FromBytes Bytes
bytes_from_bytes = record { from_bytes = λ d. some d }

-- `impl ToBytes for ()` and `impl FromBytes for ()`.
instance abbrev pub unit_to_bytes : ToBytes (Unit {0})
unit_to_bytes = record { to_bytes = λ _. [] }

instance abbrev pub unit_from_bytes : FromBytes (Unit {0})
unit_from_bytes = record { from_bytes = λ d. some tt }

-- `[u8; N]`
pub record Array (n : ℕ) : Type 0 where
  pub bytes : Bytes
  pub sized : length bytes ≡ n

instance abbrev pub array_to_bytes : {n : ℕ} → ToBytes (Array n)
array_to_bytes = record { to_bytes = λ a. a.bytes }

-- The test of the length, with the array that is copied if it holds.
abbrev array_if :
    {n : ℕ} (d : Bytes) → (length d == n) ≡ true ⊎ (length d == n) ≡ false → Option (Array n)
array_if {n} d (inl e) = some (record { bytes = d; sized = (nat_beq_iff (length d) n).0 e })
array_if d (inr e) = none

abbrev array_of : (n : ℕ) → Bytes → Option (Array n)
array_of n d = array_if d (Bool-cases (length d == n))

instance abbrev pub array_from_bytes : {n : ℕ} → FromBytes (Array n)
array_from_bytes {n} = record { from_bytes = array_of n }

-- A type whose bytes give its values back.
pub record IsCodec (T : Type 0) ⦃to : ToBytes T⦄ ⦃from : FromBytes T⦄ : Type 0 where
  pub from-to : (x : T) → from.from_bytes (to.to_bytes x) ≡ some x

instance abbrev pub bytes-IsCodec : IsCodec Bytes
bytes-IsCodec = record { from-to = λ x. refl }

instance abbrev pub unit-IsCodec : IsCodec (Unit {0})
unit-IsCodec = record { from-to = λ x. refl }

ℕ-sets : IsSet ℕ
ℕ-sets = hlevel ℕ_set

array-eq :
    {n : ℕ} (a : Array n) (p : length a.bytes ≡ n) → record { bytes = a.bytes; sized = p } ≡ a
array-eq {n} a p =
    ap (λ (q : length a.bytes ≡ n). record { bytes = a.bytes; sized = q })
      (ℕ-sets (length a.bytes) n p a.sized)

pub array_if-bytes :
    {n : ℕ} (a : Array n) (s : (length a.bytes == n) ≡ true ⊎ (length a.bytes == n) ≡ false)
    → array_if a.bytes s ≡ some a
array_if-bytes {n} a (inl e) = ap some (array-eq a ((nat_beq_iff (length a.bytes) n).0 e))
array_if-bytes {n} a (inr e) = ground arith

instance abbrev pub array-IsCodec : {n : ℕ} → IsCodec (Array n)
array-IsCodec {n} = record { from-to = λ a. array_if-bytes a (Bool-cases (length a.bytes == n)) }
