-- ===== src/ConsumerGroup/Leave.antt =====
-- `leave` of src/consumer_group.rs, for the member and for the others.
use rmem_queue.Base.{
  ℤ, String, ◌≡◌, refl, ◌∙◌, false, none, some, List, [], ◌∷◌, ◌==◌, string_eq, Bool-cases, inl,
  inr, arith,
}
use rmem_queue.Assignor.Total.{assign-Covers}
use rmem_queue.Assignor.Only.{assign-absent}
use rmem_queue.Base.Map
use rmem_queue.Base.Map.{Map, get-remove, beq_self}
use rmem_queue.ConsumerGroup.{
  ConsumerGroup, GroupMember, leave, rebalance, unregistered, assignment,
}
use rmem_queue.ConsumerGroup.Join.{keys-found, sort-Within}
use rmem_queue.Error.{ok}
use rmem_queue.Partition.{is_empty}
use rmem_queue.TopicPartition.{TopicPartitionList}

removed : {V : Type 0} (k : String) (m : Map String V) → Map.get k (Map.remove k m) ≡ none
removed k m = rw (get-remove k k m, beq_self k) refl

found-is_empty :
    {V : Type 0} (k : String) (m : Map String V) {v : V} → Map.get k m ≡ some v → is_empty m ≡ false
unfolding Map.get
found-is_empty k [] h = cc
found-is_empty k (x ∷ m) h = refl

-- A member that leaves has no assignment any more, whoever else is in the group.
pub leave-gone :
    (order : List String → List String) (g : ConsumerGroup) (member : String)
    (counts : Map String ℤ)
    → ((leave order g member counts).0 ≡ ok tt)
      × (assignment (leave order g member counts).1 member ≡ none)
unfolding leave rebalance assignment
leave-gone order g member counts =
    let s = unregistered g.state member in
    let (a, e, covers) = assign-Covers order s.member_topics counts in
    let gone =
      assign-absent order s.member_topics counts member a (removed member g.state.member_topics)
        e in
    let dropped = removed member g.state.assignments in
    elim (Bool-cases (is_empty s.members)) [
      | inl last ↦ (ground (arith, last), ground (arith, last, dropped))
      | inr others ↦ (ground (arith, others, e), ground (arith, others, e, gone))
    ]

-- A member that leaves has no assignment any more, also when it is the last; another member, with a
-- subscription, stays and has an assignment.
pub leave-assignment :
    (order : List String → List String) (g : ConsumerGroup) (member other : String)
    (counts : Map String ℤ) (m : GroupMember) (topics : List String)
    → (member == other) ≡ false
    → Map.get other g.state.members ≡ some m
    → Map.get other g.state.member_topics ≡ some topics
    → let (result, after) = leave order g member counts in
      (result ≡ ok tt)
      × (assignment after member ≡ none)
      × (Map.get other after.state.members ≡ some m)
      × ((tpl : TopicPartitionList) × (assignment after other ≡ some tpl))
unfolding leave rebalance assignment
leave-assignment order g member other counts m topics apart there subscribes =
    let s = unregistered g.state member in
    let stays : Map.get other s.members ≡ some m =
      get-remove member other g.state.members ∙ rw apart there in
    let listens : Map.get other s.member_topics ≡ some topics =
      get-remove member other g.state.member_topics ∙ rw apart subscribes in
    let someone = found-is_empty other s.members stays in
    let (a, e, covers) = assign-Covers order s.member_topics counts in
    let listed = keys-found other topics s.member_topics listens in
    let (j, sorted) = (sort-Within (Map.keys s.member_topics)).found listed.0 other listed.1 in
    let (tpl, given) = covers.at j other sorted in
    let gone =
      assign-absent order s.member_topics counts member a (removed member g.state.member_topics)
        e in
    rw (someone, e) (refl, gone, stays, (tpl, given))
