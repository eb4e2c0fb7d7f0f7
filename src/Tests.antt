-- ===== src/Tests.antt =====
-- The theorems on the other components at concrete inputs.
pub mod Fixtures
mod Polling
mod Sharing
mod Groups
mod Sending
use rmem_queue.Base.{pos, negsuc, ◌≡◌, ◌↔◌, none, some, [], ◌∷◌, nat_eq, string_eq, arith}
use rmem_queue.Config.{BrokerConfig, RmqClientConfig, from_config}
use rmem_queue.Config.Reads.{from_config-IsRead, IsRead}
use rmem_queue.Error.{ok}
use rmem_queue.Partitioner.{partition, consistent, round_robin, random}
use rmem_queue.Partitioner.Bounds.{partition-IsIndex, IsIndex}

partition-IsIndex_example :
    IsIndex 3 (partition (consistent (negsuc 6)) "t" (some (1 ∷ [])) (pos 3)).0
    × IsIndex 3 (partition (round_robin (negsuc 6)) "t" (some (1 ∷ [])) (pos 3)).0
    × IsIndex 3 (partition (random (negsuc 6)) "t" (some (1 ∷ [])) (pos 3)).0
partition-IsIndex_example =
    partition-IsIndex (negsuc 6) "t" (some (1 ∷ [])) 3 (omega arith) (omega arith)

abbrev client : RmqClientConfig
client = record { conf_map = ("broker.id", "b") ∷ ("default.num.partitions", "-2") ∷ [] }

abbrev config : BrokerConfig
config = record {
  broker_id = "b";
  default_num_partitions = negsuc 1;
  buffer_capacity = 10000;
  retention_policy = "none";
  retention_ms = none;
  retention_capacity = none;
  group_session_timeout_ms = 30000;
}

from_config-IsRead_example : (from_config client ≡ ok config) ↔ IsRead client config
from_config-IsRead_example = from_config-IsRead client config
