-- ===== src/Headers.antt =====
-- src/headers.rs: an ordered list of key-value headers.
use rmem_queue.Base.{
  ℕ, String, Bool, Option, List, [], ◌∷◌, ◌++◌, length, get_elem?, find, ◌==◌, nat_eq, string_eq,
}

-- Bytes are numbers below 256.
abbrev pub Bytes : Type 0
Bytes = List ℕ

pub record Header : Type 0 where
  pub key : String
  pub value : Option Bytes

pub record OwnedHeaders : Type 0 where
  pub headers : List Header

unfoldable pub new : OwnedHeaders
new = record { headers = [] }

unfoldable pub insert : OwnedHeaders → Header → OwnedHeaders
insert h header = record { headers = h.headers ++ header ∷ [] }

unfoldable pub get : OwnedHeaders → String → Option Header
get h key = find (λ x. x.key == key) h.headers

unfoldable pub get_at : OwnedHeaders → ℕ → Option Header
get_at h idx = get_elem? h.headers idx

unfoldable pub len : OwnedHeaders → ℕ
len h = length h.headers

unfoldable pub is_empty : OwnedHeaders → Bool
is_empty h = len h == 0

unfoldable pub count : OwnedHeaders → ℕ
count h = length h.headers
