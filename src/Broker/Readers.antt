-- ===== src/Broker/Readers.antt =====
-- No call on a broker gives a partition two readers.
use rmem_queue.Base.{ℤ, String, ◌≡◌, subst, Option, none, List, [], ◌∷◌, string_eq}
use rmem_queue.Action.Keeps.{Keeps, bind-Keeps, reads-Keeps, pure-Keeps}
use rmem_queue.Assignor.Topics.{IsOrder}
use rmem_queue.Backend
use rmem_queue.Backend.{InMemoryBackend}
use rmem_queue.Base.Map
use rmem_queue.Base.Map.{Map, get-insert}
use rmem_queue.Broker.{
  Broker, new, check_shutdown, produce, produce_typed, shutdown_broker, record_metadata,
}
use rmem_queue.Broker.Membership.{commit_offset, find_group}
use rmem_queue.Broker.Runs.{
  Call, produces, produces_typed, joins, leaves, commits, shuts_down, call, run,
}
use rmem_queue.Config.{RmqClientConfig, from_config}
use rmem_queue.Error.{ok, bind-eq-ok, ok-injective}
use rmem_queue.Headers.{Bytes}
use rmem_queue.Broker.Exclusive.{
  HasOneReader, on_backend-Keeps, ensure_topic-Keeps, choose-Keeps, num_partitions-Keeps,
  join_group-Keeps, leave_group-Keeps,
}

-- The orders in which the calls take the topics of a set.
abbrev pub IsOrdered : List Call → Type 0
IsOrdered [] = Unit
IsOrdered (joins order gid m topics ∷ calls) = IsOrder order × IsOrdered calls
IsOrdered (leaves order gid m ∷ calls) = IsOrder order × IsOrdered calls
IsOrdered (_ ∷ calls) = IsOrdered calls

produce-Keeps :
    (clock : _) (topic : String) (p : Option ℤ) (key payload : Option Bytes) (headers : _)
    (ts : Option ℤ)
    → Keeps HasOneReader (produce clock topic p key payload headers ts)
unfolding produce
produce-Keeps clock topic p key payload headers ts = bind-Keeps (reads-Keeps check_shutdown) λ _.
    bind-Keeps (ensure_topic-Keeps topic) λ _. bind-Keeps (num_partitions-Keeps topic) λ num_p.
      bind-Keeps (choose-Keeps topic p key num_p) λ i.
        bind-Keeps (on_backend-Keeps λ b. Backend.produce clock b topic i key payload headers ts)
          λ stored. pure-Keeps (record_metadata topic stored)

produce_typed-Keeps :
    (clock : _) (topic : String) (p : Option ℤ) (payload : _) (key : _) (headers : _)
    (ts : Option ℤ)
    → Keeps HasOneReader (produce_typed clock topic p payload key headers ts)
unfolding produce_typed
produce_typed-Keeps clock topic p payload key headers ts =
    bind-Keeps (reads-Keeps check_shutdown) λ _. bind-Keeps (ensure_topic-Keeps topic) λ _.
      bind-Keeps (num_partitions-Keeps topic) λ num_p.
        bind-Keeps (choose-Keeps topic p none num_p) λ i.
          bind-Keeps
            (on_backend-Keeps λ b. Backend.produce_typed clock b topic i payload key headers ts)
            λ stored. pure-Keeps (record_metadata topic stored)

commit_offset-Keeps :
    (gid topic : String) (p o : ℤ) → Keeps HasOneReader (commit_offset gid topic p o)
unfolding commit_offset
commit_offset-Keeps gid topic p o =
    bind-Keeps (reads-Keeps check_shutdown)
      λ _. bind-Keeps (reads-Keeps λ b. find_group b gid) λ g. record { keeps = λ b v. v }

call-HasOneReader :
    (b : Broker) (x : Call) (rest : List Call)
    → IsOrdered (x ∷ rest)
    → HasOneReader b
    → HasOneReader (call b x) × IsOrdered rest
unfolding call shutdown_broker
call-HasOneReader b (produces clock topic p key payload headers ts) rest o v =
    ((produce-Keeps clock topic p key payload headers ts).keeps b v, o)
call-HasOneReader b (produces_typed clock topic p payload key headers ts) rest o v =
    ((produce_typed-Keeps clock topic p payload key headers ts).keeps b v, o)
call-HasOneReader b (joins order gid m topics) rest o v =
    ((join_group-Keeps order o.0 gid m topics).keeps b v, o.1)
call-HasOneReader b (leaves order gid m) rest o v =
    ((leave_group-Keeps order o.0 gid m).keeps b v, o.1)
call-HasOneReader b (commits gid topic p o') rest o v =
    ((commit_offset-Keeps gid topic p o').keeps b v, o)
call-HasOneReader b shuts_down rest o v = (v, o)

run-HasOneReader :
    (calls : List Call) (b : Broker) → IsOrdered calls → HasOneReader b → HasOneReader (run b calls)
unfolding run
run-HasOneReader [] b o v = v
run-HasOneReader (x ∷ calls) b o v =
    let (v', o') = call-HasOneReader b x calls o v in run-HasOneReader calls (call b x) o' v'

-- Whatever calls reach a new broker, whether they succeed or fail, and in whatever order the assignor
-- takes the topics of a set, no partition of a topic is assigned to two members of one group.
pub reached-HasOneReader :
    (client : RmqClientConfig) (b : Broker) (calls : List Call)
    → new client ≡ ok b
    → IsOrdered calls
    → HasOneReader (run b calls)
unfolding new Map.get
reached-HasOneReader client b calls made o =
    let (config, parsed, built) = bind-eq-ok (from_config client) _ made in
    let is = ok-injective built in
    let start : HasOneReader b = subst HasOneReader is (record { each = λ gid g e. cc }) in
    run-HasOneReader calls b o start
