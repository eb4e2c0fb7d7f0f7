-- ===== src/Config/Parse.antt =====
-- Rust's `str::parse` for `u64`, `usize` (64 bits) and `i32`, with the text of its errors.
use Prim.Native.Char.{code}
use rmem_queue.Base.{
  ℕ, ◌+◌, ◌-◌, ◌*◌, ◌^◌, ◌≤◌, ℤ, pos, pos_part, neg_part, sub_ℕ, Bool-cases, inl, inr, String, ◌≡◌,
  ◌&&◌, List, [], ◌∷◌, arith, leb, ◌==◌, nat_eq, if◌then◌else◌,
}

-- `IntErrorKind`, and the `Display` of `ParseIntError`.
pub data ParseIntError : Type 0 where
  empty invalid_digit pos_overflow neg_overflow : ParseIntError

abbrev pub display : ParseIntError → String
display empty = "cannot parse integer from empty string"
display invalid_digit = "invalid digit found in string"
display pos_overflow = "number too large to fit in target type"
display neg_overflow = "number too small to fit in target type"

pub data Parsed (A : Type 0) : Type 0 where
  number : A → Parsed A
  failed : ParseIntError → Parsed A

abbrev codes : String → List ℕ
codes String.[] = []
codes (String.◌∷◌ c s) = code c ∷ codes s

-- One digit after another: the first that is no digit, or that leaves the range, decides.
digits : ParseIntError → ℕ → ℕ → List ℕ → Parsed ℕ
digits overflow limit acc [] = number acc
digits overflow limit acc (c ∷ cs) =
    let next = acc * 10 + (c - 48) in
    let rest = digits overflow limit next cs in
    if leb 48 c && leb c 57
    then (if leb next limit then rest else failed overflow)
    else failed invalid_digit

-- A sign alone is no number.
unsigned_codes : ℕ → List ℕ → Parsed ℕ
unfolding digits
unsigned_codes limit [] = failed empty
unsigned_codes limit (c ∷ []) = digits pos_overflow limit 0 (c ∷ [])
unsigned_codes limit (c ∷ d ∷ cs) =
    if c == b'+'
    then digits pos_overflow limit 0 (d ∷ cs)
    else digits pos_overflow limit 0 (c ∷ d ∷ cs)

unfoldable pub parse_unsigned : ℕ → String → Parsed ℕ
unfolding unsigned_codes
parse_unsigned limit s = unsigned_codes limit (codes s)

abbrev signed : (ℕ → ℤ) → Parsed ℕ → Parsed ℤ
signed f (number n) = number (f n)
signed f (failed e) = failed e

i32_codes : List ℕ → Parsed ℤ
unfolding digits
i32_codes [] = failed empty
i32_codes (c ∷ []) = signed pos (digits pos_overflow (2 ^ 31 - 1) 0 (c ∷ []))
i32_codes (c ∷ d ∷ cs) =
    if c == b'-'
    then signed (sub_ℕ 0) (digits neg_overflow (2 ^ 31) 0 (d ∷ cs))
    else if c == b'+'
    then signed pos (digits pos_overflow (2 ^ 31 - 1) 0 (d ∷ cs))
    else signed pos (digits pos_overflow (2 ^ 31 - 1) 0 (c ∷ d ∷ cs))

unfoldable pub parse_i32 : String → Parsed ℤ
unfolding i32_codes
parse_i32 s = i32_codes (codes s)

digits-le :
    (overflow : ParseIntError) (limit acc : ℕ) (cs : List ℕ) (n : ℕ)
    → acc ≤ limit
    → digits overflow limit acc cs ≡ number n
    → n ≤ limit
unfolding digits
digits-le overflow limit acc [] n h e = ground arith
digits-le overflow limit acc (c ∷ cs) n h e =
    ground (arith, digits-le overflow limit (acc * 10 + (c - 48)) cs n)

unsigned_codes-le :
    (limit : ℕ) (cs : List ℕ) (n : ℕ) → unsigned_codes limit cs ≡ number n → n ≤ limit
unfolding unsigned_codes
unsigned_codes-le limit [] n e = cc
unsigned_codes-le limit (c ∷ []) n e = digits-le pos_overflow limit 0 (c ∷ []) n (omega arith) e
unsigned_codes-le limit (c ∷ d ∷ cs) n e = ground (
  arith,
  digits-le pos_overflow limit 0 (d ∷ cs) n,
  digits-le pos_overflow limit 0 (c ∷ d ∷ cs) n,
)

-- A parsed unsigned number is within the range of its type.
pub parse_unsigned-le :
    (limit : ℕ) (s : String) (n : ℕ) → parse_unsigned limit s ≡ number n → n ≤ limit
unfolding parse_unsigned
parse_unsigned-le limit s n e = unsigned_codes-le limit (codes s) n e

-- The range of `i32`.
abbrev pub IsI32 : ℤ → Type 0
IsI32 n = (pos_part n + 1 ≤ 2 ^ 31) × (neg_part n ≤ 2 ^ 31)

signed_pos-IsI32 :
    (cs : List ℕ) (n : ℤ) → signed pos (digits pos_overflow (2 ^ 31 - 1) 0 cs) ≡ number n → IsI32 n
signed_pos-IsI32 cs n e = ground (arith, digits-le pos_overflow (2 ^ 31 - 1) 0 cs (pos_part n))

signed_neg-IsI32 :
    (cs : List ℕ) (n : ℤ)
    → signed (sub_ℕ 0) (digits neg_overflow (2 ^ 31) 0 cs) ≡ number n
    → IsI32 n
signed_neg-IsI32 cs n e = ground (arith, digits-le neg_overflow (2 ^ 31) 0 cs (neg_part n))

i32_codes-IsI32 : (cs : List ℕ) (n : ℤ) → i32_codes cs ≡ number n → IsI32 n
unfolding i32_codes
i32_codes-IsI32 [] n e = cc
i32_codes-IsI32 (c ∷ []) n e = signed_pos-IsI32 (c ∷ []) n e
i32_codes-IsI32 (c ∷ d ∷ cs) n e = elim (Bool-cases (c == b'-')) [
  | inl minus ↦ signed_neg-IsI32 (d ∷ cs) n (rw (minus, i32_codes) at e)
  | inr other ↦ elim (Bool-cases (c == b'+')) [
    | inl plus ↦ signed_pos-IsI32 (d ∷ cs) n (rw (other, plus, i32_codes) at e)
    | inr none ↦ signed_pos-IsI32 (c ∷ d ∷ cs) n (rw (other, none, i32_codes) at e)
  ]
]

-- A parsed `i32` is within the range of its type.
pub parse_i32-IsI32 : (s : String) (n : ℤ) → parse_i32 s ≡ number n → IsI32 n
unfolding parse_i32
parse_i32-IsI32 s n e = i32_codes-IsI32 (codes s) n e
