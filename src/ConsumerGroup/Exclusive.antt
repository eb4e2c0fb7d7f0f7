-- ===== src/ConsumerGroup/Exclusive.antt =====
-- The members of a group of src/consumer_group.rs share no partition.
use rmem_queue.Base.{
  ℕ, ℤ, String, ◌≡◌, refl, sym, subst, ◌∙◌, true, some, List, [], string_eq, Bool-cases,
  Option-cases, inl, inr, arith,
}
use rmem_queue.Assignor.{assign}
use rmem_queue.Assignor.Names.{names}
use rmem_queue.Assignor.Exact.{owns, subscribers, assigned-exact}
use rmem_queue.Assignor.Only.{assign-absent}
use rmem_queue.Assignor.Share.{owner_cases}
use rmem_queue.Assignor.Topics.{IsOrder}
use rmem_queue.Assignor.Total.{assign-Covers}
use rmem_queue.Base.Map
use rmem_queue.Base.Map.{Map, get-remove}
use rmem_queue.ConsumerGroup.{
  ConsumerGroup, GroupState, join, leave, rebalance, registered, unregistered,
}
use rmem_queue.Error.{ok}
use rmem_queue.Partition.{is_empty}
use rmem_queue.TopicPartition.{TopicPartitionList}

-- Two members that are both assigned a partition are one.
pub record IsExclusive (assignments : Map String TopicPartitionList) : Type 0 where
  pub one_reader :
      (m m' : String) (tpl tpl' : TopicPartitionList) (t : String) (q : ℕ)
      → Map.get m assignments ≡ some tpl
      → Map.get m' assignments ≡ some tpl'
      → names tpl.elements t q ≡ true
      → names tpl'.elements t q ≡ true
      → m ≡ m'

pub nobody-IsExclusive : IsExclusive []
unfolding Map.get
nobody-IsExclusive = record { one_reader = λ m m' tpl tpl' t q h h' n n'. cc }

remove-IsExclusive :
    (m : String) (assignments : Map String TopicPartitionList)
    → IsExclusive assignments
    → IsExclusive (Map.remove m assignments)
remove-IsExclusive x assignments v = record {
  one_reader = λ m m' tpl tpl' t q h h' n n'.
      v.one_reader m m' tpl tpl' t q (kept x m assignments h) (kept x m' assignments h') n n';
}
  where
    kept :
        (x m : String) (assignments : Map String TopicPartitionList) {tpl : TopicPartitionList}
        → Map.get m (Map.remove x assignments) ≡ some tpl
        → Map.get m assignments ≡ some tpl
    kept x m assignments h = ground (arith, get-remove x m assignments, h)

module _ (order : List String → List String) (o : IsOrder order)
    (member_topics : Map String (List String)) (counts : Map String ℤ) where
  -- What is assigned to a member is the member's own.
  assigned-owns :
      (a : Map String TopicPartitionList) (m : String) (tpl : TopicPartitionList) (t : String)
      (q : ℕ)
      → assign order member_topics counts ≡ ok a
      → Map.get m a ≡ some tpl
      → names tpl.elements t q ≡ true
      → owns member_topics counts m t q ≡ true
  assigned-owns a m tpl t q h found named = elim (Option-cases (Map.get m member_topics)) [
    | inl e ↦ cc (assign-absent order member_topics counts m a e h, found)
    | inr (topics, e) ↦
        let (given, at, exact) = assigned-exact order member_topics counts m topics a o e h in
        sym (exact t q) ∙ ground (arith, at, found, named)
  ]

  owns_unique :
      (m m' t : String) (q : ℕ)
      → owns member_topics counts m t q ≡ true
      → owns member_topics counts m' t q ≡ true
      → m ≡ m'
  owns_unique m m' t q h h' =
      let subs = subscribers member_topics counts t in
      ground (arith, h, h', owner_cases subs m q, owner_cases subs m' q)

  assign-IsExclusive :
      (a : Map String TopicPartitionList) → assign order member_topics counts ≡ ok a → IsExclusive a
  assign-IsExclusive a h = record {
    one_reader = λ m m' tpl tpl' t q g g' n n'.
        owns_unique m m' t q (assigned-owns a m tpl t q h g n)
          (assigned-owns a m' tpl' t q h g' n');
  }

module _ (order : List String → List String) (o : IsOrder order) (s : GroupState)
    (counts : Map String ℤ) where
  -- A rebalance succeeds and leaves no partition to two members.
  rebalance-IsExclusive :
      (s' : GroupState) × (rebalance order s counts ≡ ok s') × IsExclusive s'.assignments
  unfolding rebalance
  rebalance-IsExclusive = elim (Bool-cases (is_empty s.members)) [
    | inl none_left ↦ (record s { assignments = [] }, rw none_left refl, nobody-IsExclusive)
    | inr some_left ↦
        let (a, e, _) = assign-Covers order s.member_topics counts in
        (
          record s { assignments = a },
          rw (some_left, e) refl,
          assign-IsExclusive order o s.member_topics counts a e,
        )
  ]

-- A join leaves no partition to two members, whatever was assigned before.
pub join-IsExclusive :
    (order : List String → List String)
    → IsOrder order
    → (g : ConsumerGroup) (member : String) (topics : List String) (counts : Map String ℤ)
    → IsExclusive (join order g member topics counts).1.state.assignments
unfolding join
join-IsExclusive order o g member topics counts =
    let (s', e, v) = rebalance-IsExclusive order o (registered g.state member topics) counts in
    let same : s'.assignments ≡ (join order g member topics counts).1.state.assignments =
      ground (arith, e) in
    subst IsExclusive same v

pub leave-IsExclusive :
    (order : List String → List String)
    → IsOrder order
    → (g : ConsumerGroup) (member : String) (counts : Map String ℤ)
    → IsExclusive g.state.assignments
    → IsExclusive (leave order g member counts).1.state.assignments
unfolding leave
leave-IsExclusive order o g member counts before =
    let s = unregistered g.state member in
    let (s', e, v) = rebalance-IsExclusive order o s counts in
    elim (Bool-cases (is_empty s.members)) [
      | inl last ↦
          let same : s.assignments ≡ (leave order g member counts).1.state.assignments =
            ground (arith, last) in
          subst IsExclusive same (remove-IsExclusive member g.state.assignments before)
      | inr others ↦
          let same : s'.assignments ≡ (leave order g member counts).1.state.assignments =
            ground (arith, others, e) in
          subst IsExclusive same v
    ]
