-- ===== src/Tests/Sharing.antt =====
-- Brokers and partitions that are shared out, at concrete inputs.
use rmem_queue.Base.{
  ℕ, zero, suc, ℤ, pos, String, ◌≡◌, refl, subst, true, none, some, List, [], ◌∷◌, get_elem?,
  string_eq, nat_eq,
}
use rmem_queue.Base.Map
use rmem_queue.Base.Map.{Map}
use rmem_queue.Config
use rmem_queue.Config.{RmqClientConfig}
use rmem_queue.ConsumerGroup
use rmem_queue.ConsumerGroup.{ConsumerGroup, GroupMember}
use rmem_queue.ConsumerGroup.Leave.{leave-assignment}
use rmem_queue.Error.{ok}
use rmem_queue.Registry.{Registry, find_live, held}
use rmem_queue.Registry.Race.{IsSystem, run_system-IsSystem}
use rmem_queue.Registry.Served.{Served}
use rmem_queue.Registry.Threads.{Caller, starts, returned, System, Event, moves, drops, run_system}
use rmem_queue.Registry.Twice.{two_brokers}
use rmem_queue.Tests.Fixtures.{client, started, new-started}
use rmem_queue.TopicPartition.{TopicPartitionList}

abbrev empty_registry : Registry
empty_registry = record { heap = []; weak = [] }

abbrev two_callers : System
two_callers = record { registry = empty_registry; callers = starts client ∷ starts client ∷ [] }

callers-Served :
    (i : ℕ) (caller : Caller)
    → get_elem? two_callers.callers i ≡ some caller
    → Served empty_registry caller
callers-Served zero caller e =
    let same : starts client ≡ caller = cc in subst (Served empty_registry) same tt
callers-Served (suc zero) caller e =
    let same : starts client ≡ caller = cc in subst (Served empty_registry) same tt
callers-Served (suc (suc i)) caller e = cc

two_callers-IsSystem : IsSystem two_callers
unfolding Map.get
two_callers-IsSystem = record {
  registry = record { filed = λ id a e. cc };
  served = callers-Served;
}

abbrev turns_taken : List Event
turns_taken = moves 0 ∷ moves 1 ∷ moves 0 ∷ drops 0 ∷ moves 1 ∷ []

run_system-IsSystem_example : IsSystem (run_system two_callers turns_taken)
run_system-IsSystem_example = run_system-IsSystem two_callers turns_taken two_callers-IsSystem

client_id : Config.get client Config.broker_id_key ≡ some "b"
unfolding Config.get Map.get
client_id = refl

nobody : find_live empty_registry "b" ≡ none
unfolding find_live Map.get
nobody = refl

two_brokers_example :
    let s = run_system two_callers (moves 0 ∷ moves 1 ∷ moves 0 ∷ moves 1 ∷ []) in
    (s.callers ≡ returned client (ok 0) ∷ returned client (ok 1) ∷ [])
    × (held (get_elem? s.registry.heap 0) ≡ true)
    × (held (get_elem? s.registry.heap 1) ≡ true)
    × (find_live s.registry "b" ≡ some 1)
two_brokers_example = two_brokers empty_registry client "b" started client_id nobody new-started

abbrev member_of : String → GroupMember
member_of name = record { member_id = name; subscribed_topics = "t" ∷ [] }

abbrev pair_group : ConsumerGroup
pair_group = record {
  group_id = "g";
  state = record {
    members = ("a", member_of "a") ∷ ("b", member_of "b") ∷ [];
    member_topics = ("a", "t" ∷ []) ∷ ("b", "t" ∷ []) ∷ [];
    assignments = [];
  };
}

abbrev counts : Map String ℤ
counts = ("t", pos 3) ∷ []

b_member : Map.get "b" pair_group.state.members ≡ some (member_of "b")
unfolding Map.get
b_member = refl

b_topics : Map.get "b" pair_group.state.member_topics ≡ some ("t" ∷ [])
unfolding Map.get
b_topics = refl

leave-assignment_example :
    let (result, after) = ConsumerGroup.leave (λ l. l) pair_group "a" counts in
    (result ≡ ok tt)
    × (ConsumerGroup.assignment after "a" ≡ none)
    × (Map.get "b" after.state.members ≡ some (member_of "b"))
    × ((tpl : TopicPartitionList) × (ConsumerGroup.assignment after "b" ≡ some tpl))
leave-assignment_example =
    leave-assignment (λ l. l) pair_group "a" "b" counts (member_of "b") ("t" ∷ []) refl b_member
      b_topics

abbrev members : List String
members = "a" ∷ "b" ∷ []
