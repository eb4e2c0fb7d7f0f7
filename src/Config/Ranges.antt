-- ===== src/Config/Ranges.antt =====
-- What a configuration that is accepted looks like.
use rmem_queue.Base.{
  ℕ, ◌≤◌, ℤ, pos, String, ◌≡◌, ◌≢◌, refl, inl, inr, false, Option, none, some, arith, ◌==◌,
  string_eq, Option-cases,
}
use rmem_queue.Base.Map.{get-insert, get-insert_self}
use rmem_queue.Error.{invalid_config, Result, ok, err, panic}
use rmem_queue.Config.{
  RmqClientConfig, BrokerConfig, get, set, from_config, parsed_value, unwrap_or, u64_max,
  broker_id_key, converted, group_session_timeout_key, retention_policy_key, parse_i32,
  parse_unsigned, num_partitions_key, buffer_capacity_key, retention_capacity_key, retention_ms_key,
}
use rmem_queue.Config.Parse.{Parsed, number, failed, IsI32, parse_i32-IsI32, parse_unsigned-le}

pub record IsInRange (b : BrokerConfig) : Type 0 where
  pub partitions : IsI32 b.default_num_partitions
  pub capacity : b.buffer_capacity ≤ u64_max
  pub session : b.group_session_timeout_ms ≤ u64_max

pub converted_number :
    {A : Type 0} (key : String) (p : Parsed A) (n : A)
    → converted key p ≡ ok (some n)
    → p ≡ number n
converted_number key (number m) n e = cc
converted_number key (failed x) n e = cc

pub converted_some : {A : Type 0} (key : String) (p : Parsed A) → converted key p ≢ ok none
converted_some key (number m) e = cc
converted_some key (failed x) e = cc

-- A value that was read comes from a text that parses to it.
parsed_value_from :
    {A : Type 0} (parse : String → Parsed A) (c : RmqClientConfig) (key : String) (n : A)
    → parsed_value parse c key ≡ ok (some n)
    → (s : String) × (parse s ≡ number n)
unfolding parsed_value
parsed_value_from parse c key n e = elim (Option-cases (get c key)) [
  | inl q ↦ absurd (cc (rw (q, parsed_value) at e))
  | inr (s, q) ↦ (s, converted_number key (parse s) n (rw (q, parsed_value) at e))
]

parsed-IsI32 :
    (c : RmqClientConfig) (key : String) (o : Option ℤ)
    → parsed_value parse_i32 c key ≡ ok o
    → IsI32 (unwrap_or o (pos 1))
parsed-IsI32 c key none e = omega arith
parsed-IsI32 c key (some n) e =
    let (s, q) = parsed_value_from parse_i32 c key n e in parse_i32-IsI32 s n q

parsed-le :
    (c : RmqClientConfig) (key : String) (o : Option ℕ) (d : ℕ)
    → d ≤ u64_max
    → parsed_value (parse_unsigned u64_max) c key ≡ ok o
    → unwrap_or o d ≤ u64_max
parsed-le c key none d h e = h
parsed-le c key (some n) d h e =
    let (s, q) = parsed_value_from (parse_unsigned u64_max) c key n e in
    parse_unsigned-le u64_max s n q

abbrev Fits : {A : Type 0} → (A → Type 0) → A → Result (Option A) → Type 0
Fits P d (ok o) = P (unwrap_or o d)
Fits P d (err e) = Unit {0}
Fits P d panic = Unit {0}

Fits-IsI32 :
    (c : RmqClientConfig) (key : String) (r : Result (Option ℤ))
    → parsed_value parse_i32 c key ≡ r
    → Fits IsI32 (pos 1) r
Fits-IsI32 c key (ok o) e = parsed-IsI32 c key o e
Fits-IsI32 c key (err x) e = tt
Fits-IsI32 c key panic e = tt

Fits-u64 :
    (c : RmqClientConfig) (key : String) (d : ℕ) (r : Result (Option ℕ))
    → d ≤ u64_max
    → parsed_value (parse_unsigned u64_max) c key ≡ r
    → Fits (λ n. n ≤ u64_max) d r
Fits-u64 c key d (ok o) h e = parsed-le c key o d h e
Fits-u64 c key d (err x) h e = tt
Fits-u64 c key d panic h e = tt

-- A configuration that is accepted has its count of partitions, its capacity and its session timeout
-- within the ranges of their Rust types.
pub from_config-IsInRange :
    (c : RmqClientConfig) (b : BrokerConfig) → from_config c ≡ ok b → IsInRange b
unfolding from_config
from_config-IsInRange c b e = ground (
  arith,
  Fits-IsI32 c num_partitions_key (parsed_value parse_i32 c num_partitions_key) refl,
  Fits-u64 c buffer_capacity_key 10000 (parsed_value (parse_unsigned u64_max) c buffer_capacity_key)
      (omega arith) refl,
  Fits-u64 c group_session_timeout_key 30000
      (parsed_value (parse_unsigned u64_max) c group_session_timeout_key) (omega arith) refl,
)

-- Without a broker id a configuration is refused, whatever else it holds.
pub from_config_no_id :
    (c : RmqClientConfig)
    → get c broker_id_key ≡ none
    → from_config c ≡ err (invalid_config "broker.id is required")
unfolding from_config
from_config_no_id c e = rw e

get-set_other :
    (c : RmqClientConfig) (k j v : String) → (k == j) ≡ false → get (set c k v) j ≡ get c j
unfolding get set
get-set_other c k j v e = rw (get-insert k j v c.conf_map, e)

parsed_value-set_other :
    {A : Type 0} (parse : String → Parsed A) (c : RmqClientConfig) (k j v : String)
    → (k == j) ≡ false
    → parsed_value parse (set c k v) j ≡ parsed_value parse c j
unfolding parsed_value
parsed_value-set_other parse c k j v e = rw (get-set_other c k j v e, parsed_value)

get-set_self : (c : RmqClientConfig) (k v : String) → get (set c k v) k ≡ some v
unfolding get set
get-set_self c k v = get-insert_self k v c.conf_map

-- The retention policy selects nothing: setting it in a configuration that is accepted changes only
-- the field that records it.
pub from_config_ignores_policy :
    (c : RmqClientConfig) (policy : String) (b : BrokerConfig)
    → from_config c ≡ ok b
    → from_config (set c retention_policy_key policy) ≡ ok (record b { retention_policy = policy })
unfolding from_config
from_config_ignores_policy c policy b e =
    let key = retention_policy_key in
    let u64 = parse_unsigned u64_max in
    rw
      (
        get-set_other c key broker_id_key policy refl,
        parsed_value-set_other parse_i32 c key num_partitions_key policy refl,
        parsed_value-set_other u64 c key buffer_capacity_key policy refl,
        parsed_value-set_other u64 c key retention_capacity_key policy refl,
        parsed_value-set_other u64 c key retention_ms_key policy refl,
        parsed_value-set_other u64 c key group_session_timeout_key policy refl,
        get-set_self c key policy,
      )
      (ground arith)
