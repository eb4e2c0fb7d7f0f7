-- ===== src/Broker/Runs.antt =====
-- The brokers that a sequence of calls reaches.
use rmem_queue.Base.{ℕ, ℤ, pos, String, ◌≡◌, Option, List, [], ◌∷◌}
use rmem_queue.Backend
use rmem_queue.Backend.Notify.{shutdown-IsBackend}
use rmem_queue.Broker.{Broker, new, produce, produce_typed, shutdown_broker}
use rmem_queue.Broker.Membership.{join_group, leave_group, commit_offset}
use rmem_queue.Broker.Groups.{join_group-Keeps, leave_group-Keeps, commit_offset-Keeps}
use rmem_queue.Broker.Valid.{IsBroker, new-IsBroker, produce-Keeps, produce_typed-Keeps}
use rmem_queue.Config.{RmqClientConfig, BrokerConfig}
use rmem_queue.Error.{ok}
use rmem_queue.Headers.{Bytes, OwnedHeaders}
use rmem_queue.Message.{DynAny}
use rmem_queue.Partition.{Clock}

-- The calls that change a broker. Those of a client come one at a time, in any order.
pub data Call : Type 0 where
  produces :
      Clock
      → String
      → Option ℤ
      → Option Bytes
      → Option Bytes
      → Option OwnedHeaders
      → Option ℤ
      → Call
  produces_typed :
      Clock → String → Option ℤ → DynAny → Option DynAny → Option OwnedHeaders → Option ℤ → Call
  joins : (List String → List String) → String → String → List String → Call
  leaves : (List String → List String) → String → String → Call
  commits : String → String → ℤ → ℤ → Call
  shuts_down : Call

unfoldable pub call : Broker → Call → Broker
call b (produces clock topic p key payload headers ts) =
    (produce clock topic p key payload headers ts b).1
call b (produces_typed clock topic p payload key headers ts) =
    (produce_typed clock topic p payload key headers ts b).1
call b (joins order gid m topics) = (join_group order gid m topics b).1
call b (leaves order gid m) = (leave_group order gid m b).1
call b (commits gid topic p o) = (commit_offset gid topic p o b).1
call b shuts_down = (shutdown_broker b).1

unfoldable pub run : Broker → List Call → Broker
run b [] = b
run b (c ∷ cs) = run (call b c) cs

shutdown-IsBroker :
    {c : BrokerConfig} (b : Broker) → IsBroker c b → IsBroker c (shutdown_broker b).1
unfolding shutdown_broker Backend.shutdown
shutdown-IsBroker b v = record {
  backend = shutdown-IsBackend b.backend v.backend;
  stored_config = v.stored_config;
  config = v.config;
  count = v.count;
  counted = v.counted;
  named = v.named;
}

call-IsBroker : {c : BrokerConfig} (b : Broker) (x : Call) → IsBroker c b → IsBroker c (call b x)
unfolding call
call-IsBroker b (produces clock topic p key payload headers ts) v =
    (produce-Keeps clock topic p key payload headers ts).keeps b v
call-IsBroker b (produces_typed clock topic p payload key headers ts) v =
    (produce_typed-Keeps clock topic p payload key headers ts).keeps b v
call-IsBroker b (joins order gid m topics) v = (join_group-Keeps order gid m topics).keeps b v
call-IsBroker b (leaves order gid m) v = (leave_group-Keeps order gid m).keeps b v
call-IsBroker b (commits gid topic p o) v = (commit_offset-Keeps gid topic p o).keeps b v
call-IsBroker b shuts_down v = shutdown-IsBroker b v

-- Every call keeps the invariant, whether it succeeds, fails or panics.
pub run-IsBroker :
    {c : BrokerConfig} (calls : List Call) (b : Broker) → IsBroker c b → IsBroker c (run b calls)
unfolding run
run-IsBroker [] b v = v
run-IsBroker (x ∷ calls) b v = run-IsBroker calls (call b x) (call-IsBroker b x v)

-- A new broker whose default count of partitions is not negative, and every broker that calls make
-- of it, whether they succeed, fail or panic, satisfies the invariant: its partitions are numbered
-- logs with the configured capacity and policies, its configuration is the one that it was made
-- with, and each group is registered under its own id.
pub reached-IsBroker :
    (client : RmqClientConfig) (b : Broker) (n : ℕ) (calls : List Call)
    → new client ≡ ok b
    → b.config.default_num_partitions ≡ pos n
    → IsBroker b.config (run b calls)
reached-IsBroker client b n calls made counted =
    run-IsBroker calls b (new-IsBroker client b n made counted)
