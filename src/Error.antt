-- ===== src/Error.antt =====
-- src/error.rs: the error type, and `Result` with the outcome of a panic.
use rmem_queue.Base.{String, ℤ, List, Option, none, some, ◌≡◌, refl}

pub data RmqError : Type 0 where
  topic_not_found : String → RmqError
  partition_out_of_range : String → ℤ → RmqError
  offset_out_of_range : String → ℤ → ℤ → RmqError
  group_not_found : String → RmqError
  already_subscribed : List String → RmqError
  not_subscribed : RmqError
  broker_shutdown : RmqError
  buffer_full : String → ℤ → RmqError
  invalid_config : String → RmqError
  custom : String → RmqError

-- `RmqResult`. A panic unwinds through every `?` and every `match`.
pub data Result {ℓ} (A : Type ℓ) : Type ℓ where
  ok : A → Result A
  err : RmqError → Result A
  panic : Result A

module _ {ℓ κ} {A : Type ℓ} {B : Type κ} where
  infixl 5 ◌>>=◌
  abbrev pub ◌>>=◌ : Result A → (A → Result B) → Result B
  panic >>= k = panic
  err e >>= k = err e
  ok x >>= k = k x

infixl 5 ◌>>◌
abbrev pub ◌>>◌ {κ} : {C : Type κ} → Result (Unit {0}) → Result C → Result C
first >> second = first >>= λ _. second

-- `ok_or`
abbrev pub ok_or {ℓ} : {A : Type ℓ} → Option A → RmqError → Result A
ok_or none e = err e
ok_or (some a) e = ok a

-- An index or an `unwrap` that panics on `None`.
abbrev pub or_panic {ℓ} : {A : Type ℓ} → Option A → Result A
or_panic none = panic
or_panic (some a) = ok a

-- `unwrap_or` on a result.
abbrev pub result_or {ℓ} : {A : Type ℓ} → Result A → A → Result A
result_or (ok a) d = ok a
result_or (err e) d = ok d
result_or panic d = panic

-- A chain that succeeds has a first part that does.
pub bind-eq-ok :
    {A B : Type 0} (r : Result A) (k : A → Result B) {y : B}
    → (r >>= k) ≡ ok y
    → (x : A) × (r ≡ ok x) × (k x ≡ ok y)
bind-eq-ok panic k h = cc
bind-eq-ok (err e) k h = cc
bind-eq-ok (ok x) k h = (x, refl, h)

pub ok-injective : {A : Type 0} {a b : A} → ok a ≡ ok b → a ≡ b
ok-injective h = cc
