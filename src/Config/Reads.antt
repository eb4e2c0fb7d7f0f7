-- ===== src/Config/Reads.antt =====
-- What `BrokerConfig::from_config` of src/config.rs accepts, key by key.
use rmem_queue.Base.{
  ℕ, pos, String, ◌≡◌, refl, subst, ◌↔◌, Option, none, some, string_eq, Option-cases, inl, inr,
}
use rmem_queue.Config.{
  RmqClientConfig, BrokerConfig, get, from_config, parsed_value, unwrap_or, u64_max, broker_id_key,
  group_session_timeout_key, parse_i32, parse_unsigned, num_partitions_key, buffer_capacity_key,
  retention_capacity_key, retention_ms_key,
}
use rmem_queue.Config.Parse.{Parsed, number}
use rmem_queue.Config.Ranges.{converted_number, converted_some}
use rmem_queue.Error.{RmqError, Result, ◌>>=◌, ok, ok_or, bind-eq-ok, ok-injective}

-- A key is absent, or it has a text that is this number.
abbrev pub Setting :
    {A : Type 0} → (String → Parsed A) → RmqClientConfig → String → Option A → Type 0
Setting parse c key none = get c key ≡ none
Setting parse c key (some n) = (s : String) × (get c key ≡ some s) × (parse s ≡ number n)

-- The value of a key, or a default where the key is absent.
abbrev pub OrDefault :
    {A : Type 0} → (String → Parsed A) → RmqClientConfig → String → A → A → Type 0
OrDefault {A} parse c key default n =
    (o : Option A) × Setting parse c key o × (unwrap_or o default ≡ n)

-- `b` is read from `c`.
pub record IsRead (c : RmqClientConfig) (b : BrokerConfig) : Type 0 where
  pub broker_id : get c "broker.id" ≡ some b.broker_id
  pub default_num_partitions :
      OrDefault parse_i32 c "default.num.partitions" (pos 1) b.default_num_partitions
  pub buffer_capacity :
      OrDefault (parse_unsigned u64_max) c "partition.buffer.capacity" 10000 b.buffer_capacity
  pub retention_policy : unwrap_or (get c "retention.policy") "none" ≡ b.retention_policy
  pub retention_capacity :
      Setting (parse_unsigned u64_max) c "retention.capacity" b.retention_capacity
  pub retention_ms : Setting (parse_unsigned u64_max) c "retention.ms" b.retention_ms
  pub group_session_timeout_ms :
      OrDefault
        (parse_unsigned u64_max)
        c
        "group.session.timeout.ms"
        30000
        b.group_session_timeout_ms

module _ {A : Type 0} (parse : String → Parsed A) (c : RmqClientConfig) (key : String) where
  parsed_value-Setting : (o : Option A) → parsed_value parse c key ≡ ok o → Setting parse c key o
  unfolding parsed_value
  parsed_value-Setting none e = elim (Option-cases (get c key)) [
    | inl absent ↦ absent
    | inr (s, q) ↦ absurd (converted_some key (parse s) (rw (q, parsed_value) at e))
  ]
  parsed_value-Setting (some n) e = elim (Option-cases (get c key)) [
    | inl absent ↦ absurd (cc (rw (absent, parsed_value) at e))
    | inr (s, q) ↦ (s, q, converted_number key (parse s) n (rw (q, parsed_value) at e))
  ]

  Setting-parsed_value : (o : Option A) → Setting parse c key o → parsed_value parse c key ≡ ok o
  unfolding parsed_value
  Setting-parsed_value none absent = rw (absent, parsed_value) refl
  Setting-parsed_value (some n) (s, q, e) = rw (q, parsed_value, e) refl

use_ok :
    {A B G : Type 0} (r : Result A) (k : A → Result B) {y : B}
    → (r >>= k) ≡ ok y
    → ((x : A) → r ≡ ok x → k x ≡ ok y → G)
    → G
use_ok r k h f = let (x, e, later) = bind-eq-ok r k h in f x e later

ok_or-found : {A : Type 0} (o : Option A) (x : RmqError) (a : A) → ok_or o x ≡ ok a → o ≡ some a
ok_or-found none x a h = cc
ok_or-found (some b) x a h = cc

abbrev u64 : String → Parsed ℕ
u64 = parse_unsigned u64_max

accepted : (c : RmqClientConfig) (b : BrokerConfig) → from_config c ≡ ok b → IsRead c b
unfolding from_config
accepted c b e = use_ok (ok_or (get c broker_id_key) _) _ e λ id e0 r0.
    use_ok (parsed_value parse_i32 c num_partitions_key) _ r0 λ partitions e1 r1.
      use_ok (parsed_value u64 c buffer_capacity_key) _ r1 λ capacity e2 r2.
        use_ok (parsed_value u64 c retention_capacity_key) _ r2 λ kept e3 r3.
          use_ok (parsed_value u64 c retention_ms_key) _ r3 λ age e4 r4.
            use_ok (parsed_value u64 c group_session_timeout_key) _ r4 λ session e5 r5.
              subst (IsRead c) (ok-injective r5) (record {
                broker_id = ok_or-found (get c broker_id_key) _ id e0;
                default_num_partitions = (
                  partitions,
                  parsed_value-Setting parse_i32 c num_partitions_key partitions e1,
                  refl,
                );
                buffer_capacity =
                    (capacity, parsed_value-Setting u64 c buffer_capacity_key capacity e2, refl);
                retention_policy = refl;
                retention_capacity = parsed_value-Setting u64 c retention_capacity_key kept e3;
                retention_ms = parsed_value-Setting u64 c retention_ms_key age e4;
                group_session_timeout_ms = (
                  session,
                  parsed_value-Setting u64 c group_session_timeout_key session e5,
                  refl,
                );
              })

accepts : (c : RmqClientConfig) (b : BrokerConfig) → IsRead c b → from_config c ≡ ok b
unfolding from_config
accepts c b r =
    let (partitions, s1, q1) = r.default_num_partitions in
    let (capacity, s2, q2) = r.buffer_capacity in
    let (session, s5, q5) = r.group_session_timeout_ms in
    rw
      (
        r.broker_id,
        Setting-parsed_value parse_i32 c num_partitions_key partitions s1,
        Setting-parsed_value u64 c buffer_capacity_key capacity s2,
        Setting-parsed_value u64 c retention_capacity_key b.retention_capacity r.retention_capacity,
        Setting-parsed_value u64 c retention_ms_key b.retention_ms r.retention_ms,
        Setting-parsed_value u64 c group_session_timeout_key session s5,
        q1,
        q2,
        q5,
        r.retention_policy,
      )
      refl

-- A configuration is accepted, with the values of the broker's configuration `b`, exactly if there is
-- a broker id, each key with a number is absent or has a text that parses to a number of its type, and
-- `b` has under each name the value of the key of that name, or its default.
pub from_config-IsRead :
    (c : RmqClientConfig) (b : BrokerConfig) → (from_config c ≡ ok b) ↔ IsRead c b
from_config-IsRead c b = (accepted c b, accepts c b)
