-- ===== src/Assignor.antt =====
-- src/partition_assignor.rs: round-robin assignment of partitions to the members of a group.
pub mod Total
pub mod Share
pub mod Only
pub mod Balance
pub mod Topics
pub mod Names
pub mod Exact
use Prim.Native.String.{compare}
use text.Mathlib.Text.{is_le}
use rmem_queue.Base.{
  ℕ, zero, suc, ◌+◌, ◌%◌, ℤ, pos, pos_part, String, false, ◌||◌, none, some, List, [], ◌∷◌, ◌++◌,
  length, get_elem?, retain, any, ◌==◌, int_eq, string_eq, if◌then◌else◌,
}
use rmem_queue.Base.Map
use rmem_queue.Base.Map.{Map}
use rmem_queue.Error.{Result, ok, or_panic, ◌>>=◌}
use rmem_queue.Partition.{is_empty}
use rmem_queue.TopicPartition.{TopicPartitionList, add_partition}
use rmem_queue.TopicPartition

-- `sort` on distinct texts.
unfoldable pub insert_sorted : String → List String → List String
insert_sorted x [] = x ∷ []
insert_sorted x (y ∷ ys) =
    let rest = y ∷ insert_sorted x ys in if is_le (compare x y) then x ∷ y ∷ ys else rest

unfoldable pub sort : List String → List String
unfolding insert_sorted
sort [] = []
sort (x ∷ xs) = insert_sorted x (sort xs)

-- A `HashSet` of the elements.
unfoldable pub dedup : List String → List String
dedup [] = []
dedup (x ∷ xs) = let rest = dedup xs in if any (λ y. y == x) xs then rest else x ∷ rest

abbrev pub concat : List (List String) → List String
concat [] = []
concat (xs ∷ rest) = xs ++ concat rest

unfoldable pub initial : List String → Map String TopicPartitionList
initial [] = []
initial (m ∷ ms) = (m, TopicPartition.new) ∷ initial ms

-- The members subscribed to a topic, in their sorted order.
unfoldable pub subscribed : Map String (List String) → String → List String → List String
subscribed member_topics topic members =
    retain
      (λ m. elim (Map.get m member_topics) [
        | some topics ↦ any (λ t. t == topic) topics
        | none ↦ false
      ])
      members

-- `assignments.get_mut(member_id).unwrap().add_partition(topic, p)`
unfoldable pub give :
    String → String → ℤ → Map String TopicPartitionList → Result (Map String TopicPartitionList)
give topic member p assignments = or_panic (Map.get member assignments) >>= λ tpl.
    ok (Map.insert member (add_partition tpl topic p) assignments)

-- The loop over the partitions `p..p + n` of a topic.
unfoldable pub assign_partitions :
    String
    → List String
    → ℕ
    → ℕ
    → Map String TopicPartitionList
    → Result (Map String TopicPartitionList)
assign_partitions topic members p zero assignments = ok assignments
assign_partitions topic members p (suc n) assignments = do
  member ← or_panic (get_elem? members (p % length members))
  assignments' ← give topic member (pos p) assignments
  assign_partitions topic members (p + 1) n assignments'

unfoldable pub assign_topic :
    Map String (List String)
    → Map String ℤ
    → List String
    → String
    → Map String TopicPartitionList
    → Result (Map String TopicPartitionList)
assign_topic member_topics counts members topic assignments = elim (Map.get topic counts) [
  | none ↦ ok assignments
  | some num_partitions ↦
      let subs = subscribed member_topics topic members in
      if is_empty subs || num_partitions == pos 0
      then ok assignments
      else assign_partitions topic subs 0 (pos_part num_partitions) assignments
]

unfoldable pub assign_topics :
    Map String (List String)
    → Map String ℤ
    → List String
    → List String
    → Map String TopicPartitionList
    → Result (Map String TopicPartitionList)
assign_topics member_topics counts members [] assignments = ok assignments
assign_topics member_topics counts members (topic ∷ topics) assignments =
    assign_topic member_topics counts members topic assignments >>= λ assignments'.
    assign_topics member_topics counts members topics assignments'

-- `RoundRobinAssignor::assign`. `order` is the order in which the `HashSet` of topics is iterated.
unfoldable pub assign :
    (List String → List String)
    → Map String (List String)
    → Map String ℤ
    → Result (Map String TopicPartitionList)
assign order member_topics counts =
    let members = sort (Map.keys member_topics) in
    let all_topics = order (dedup (concat (Map.values member_topics))) in
    assign_topics member_topics counts members all_topics (initial members)
