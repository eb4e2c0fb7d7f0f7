-- ===== src/ConsumerGroup/Told.antt =====
-- What `join` of src/consumer_group.rs tells the member that joins, and what the others know.
use rmem_queue.Base.{ℕ, ℤ, String, ◌≡◌, refl, some, List, string_eq, arith}
use rmem_queue.Assignor.{assign}
use rmem_queue.Assignor.Exact.{owns, assign-exact}
use rmem_queue.Assignor.Names.{names}
use rmem_queue.Assignor.Topics.{IsOrder}
use rmem_queue.Base.Map
use rmem_queue.Base.Map.{Map, get-insert_self}
use rmem_queue.ConsumerGroup.{ConsumerGroup, join, rebalance, registered, assignment}
use rmem_queue.ConsumerGroup.Join.{insert-is_empty}
use rmem_queue.Error.{ok}
use rmem_queue.TopicPartition.{TopicPartitionList}

-- A group after a member joined that was given an assignment.
abbrev pub after :
    ConsumerGroup → String → List String → Map String TopicPartitionList → ConsumerGroup
after g member topics a = record g {
  state = record (registered g.state member topics) { assignments = a };
}

-- A join is `assign` at the subscriptions that there are then.
pub join-after :
    (order : List String → List String) (g : ConsumerGroup) (member : String) (topics : List String)
    (counts : Map String ℤ) (a : Map String TopicPartitionList) (tpl : TopicPartitionList)
    → assign order (Map.insert member topics g.state.member_topics) counts ≡ ok a
    → Map.get member a ≡ some tpl
    → join order g member topics counts ≡ (ok tpl, after g member topics a)
unfolding join rebalance
join-after order g member topics counts a tpl e given =
    let someone =
      insert-is_empty member (record { member_id = member; subscribed_topics = topics })
        g.state.members in
    ground (arith, e, given, someone)

-- After a join the group has for each member with a subscription exactly the partitions that it owns
-- by the subscriptions that there are then and the counts given, and the member that joins is told
-- what the group has for it.
pub join-exact :
    (order : List String → List String) (g : ConsumerGroup) (member : String) (topics : List String)
    (counts : Map String ℤ) (m : String) (subscription : List String)
    → IsOrder order
    → Map.get m (Map.insert member topics g.state.member_topics) ≡ some subscription
    → let (r, g') = join order g member topics counts in
      let member_topics = Map.insert member topics g.state.member_topics in
      ((tpl : TopicPartitionList) × (r ≡ ok tpl) × (assignment g' member ≡ some tpl))
      × ((tpl : TopicPartitionList) × (assignment g' m ≡ some tpl)
          × ((t : String) (q : ℕ) → names tpl.elements t q ≡ owns member_topics counts m t q))
unfolding assignment
join-exact order g member topics counts m subscription o h =
    let member_topics = Map.insert member topics g.state.member_topics in
    let (a, e, exact) = assign-exact order member_topics counts o in
    let (tpl, given, _) =
      exact member topics (get-insert_self member topics g.state.member_topics) in
    rw (join-after order g member topics counts a tpl e given)
      ((tpl, refl, given), exact m subscription h)
