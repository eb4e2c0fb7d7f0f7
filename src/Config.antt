-- ===== src/Config.antt =====
-- src/config.rs: the client configuration and the broker's, parsed from it.
mod Parse
pub mod Ranges
pub mod Reads
use rmem_queue.Base.{ℕ, ◌-◌, ◌^◌, ℤ, pos, String, Option, none, some, []}
use rmem_queue.Base.Map.{Map}
use rmem_queue.Base.Map
use rmem_queue.Base.{string_eq}
use Prim.Native.String.{◌++◌ as str_append}
use rmem_queue.Error.{invalid_config, Result, ok, err, ok_or, ◌>>=◌}
use Parse.{Parsed, number, failed, display}
unfoldable pub use Parse.{parse_unsigned, parse_i32}

pub record RmqClientConfig : Type 0 where
  pub conf_map : Map String String

unfoldable pub new : RmqClientConfig
new = record { conf_map = [] }

unfoldable pub get : RmqClientConfig → String → Option String
get c key = Map.get key c.conf_map

unfoldable pub set : RmqClientConfig → String → String → RmqClientConfig
set c key value = record { conf_map = Map.insert key value c.conf_map }

unfoldable pub remove : RmqClientConfig → String → RmqClientConfig
remove c key = record { conf_map = Map.remove key c.conf_map }

-- The module `config_keys`.
abbrev pub broker_id_key : String
broker_id_key = "broker.id"

abbrev pub num_partitions_key : String
num_partitions_key = "default.num.partitions"

abbrev pub buffer_capacity_key : String
buffer_capacity_key = "partition.buffer.capacity"

abbrev pub retention_policy_key : String
retention_policy_key = "retention.policy"

abbrev pub retention_capacity_key : String
retention_capacity_key = "retention.capacity"

abbrev pub retention_ms_key : String
retention_ms_key = "retention.ms"

abbrev pub group_session_timeout_key : String
group_session_timeout_key = "group.session.timeout.ms"

abbrev pub group_id_key : String
group_id_key = "group.id"

pub record BrokerConfig : Type 0 where
  pub broker_id : String
  pub default_num_partitions : ℤ
  pub buffer_capacity : ℕ
  pub retention_policy : String
  pub retention_ms : Option ℕ
  pub retention_capacity : Option ℕ
  pub group_session_timeout_ms : ℕ

abbrev converted : {A : Type 0} → String → Parsed A → Result (Option A)
converted key (number n) = ok (some n)
converted key (failed e) =
    err (invalid_config (str_append "Invalid " (str_append key (str_append ": " (display e)))))

-- `config.get(key).map(|s| s.parse()).transpose().map_err(…)?`
unfoldable pub parsed_value :
    {A : Type 0} → (String → Parsed A) → RmqClientConfig → String → Result (Option A)
parsed_value parse c key = elim (get c key) [ none ↦ ok none | some s ↦ converted key (parse s) ]

abbrev pub unwrap_or {ℓ} : {A : Type ℓ} → Option A → A → A
unwrap_or none d = d
unwrap_or (some a) d = a

-- The greatest value of `u64`, and of `usize`, which has 64 bits.
abbrev pub u64_max : ℕ
u64_max = 2 ^ 64 - 1

unfoldable pub from_config : RmqClientConfig → Result BrokerConfig
from_config c = do
  broker_id ← ok_or (get c broker_id_key) (invalid_config (str_append broker_id_key " is required"))
  default_num_partitions ← parsed_value parse_i32 c num_partitions_key
  buffer_capacity ← parsed_value (parse_unsigned u64_max) c buffer_capacity_key
  retention_capacity ← parsed_value (parse_unsigned u64_max) c retention_capacity_key
  retention_ms ← parsed_value (parse_unsigned u64_max) c retention_ms_key
  group_session_timeout_ms ← parsed_value (parse_unsigned u64_max) c group_session_timeout_key
  ok (record {
    broker_id = broker_id;
    default_num_partitions = unwrap_or default_num_partitions (pos 1);
    buffer_capacity = unwrap_or buffer_capacity 10000;
    retention_policy = unwrap_or (get c retention_policy_key) "none";
    retention_ms = retention_ms;
    retention_capacity = retention_capacity;
    group_session_timeout_ms = unwrap_or group_session_timeout_ms 30000;
  })
