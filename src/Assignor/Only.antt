-- ===== src/Assignor/Only.antt =====
-- The assignor of src/partition_assignor.rs and those who are no members.
use rmem_queue.Base.{
  ℕ, zero, suc, ◌+◌, ◌%◌, ℤ, pos, pos_part, String, ◌≡◌, refl, ◌∙◌, Bool, false, ◌||◌, none, List,
  [], ◌∷◌, length, get_elem?, any, ◌==◌, int_eq, string_eq, Bool-cases, Option-cases, inl, inr,
  arith,
}
use rmem_queue.Assignor.{
  assign, assign_topics, assign_topic, assign_partitions, give, subscribed, initial, sort,
  insert_sorted,
}
use rmem_queue.Base.Map
use rmem_queue.Base.Map.{Map, get-insert}
use rmem_queue.Error.{ok, or_panic, bind-eq-ok}
use rmem_queue.Partition.{is_empty}
use rmem_queue.TopicPartition.{TopicPartitionList, add_partition}

abbrev pub has : String → List String → Bool
has m ms = any (λ x. x == m) ms

initial-absent : (m : String) (ms : List String) → has m ms ≡ false → Map.get m (initial ms) ≡ none
unfolding initial Map.get
initial-absent m [] h = refl
initial-absent m (x ∷ xs) h = ground (arith, h, initial-absent m xs)

has-insert_sorted : (m x : String) (xs : List String) → has m (insert_sorted x xs) ≡ has m (x ∷ xs)
unfolding insert_sorted
has-insert_sorted m x [] = refl
has-insert_sorted m x (y ∷ ys) = ground (arith, has-insert_sorted m x ys)

pub has-sort : (m : String) (xs : List String) → has m (sort xs) ≡ has m xs
unfolding sort
has-sort m [] = refl
has-sort m (x ∷ xs) = ground (arith, has-insert_sorted m x (sort xs), has-sort m xs)

pub has-keys :
    {V : Type 0} (m : String) (map : Map String V)
    → Map.get m map ≡ none
    → has m (Map.keys map) ≡ false
unfolding Map.get
has-keys m [] h = refl
has-keys m ((k, v) ∷ map) h = ground (arith, h, has-keys m map)

-- A member without an assignment does not get one by the assignments of others.
module _ (m : String) where
  give-absent :
      (topic x : String) (p : ℤ) (assignments a : Map String TopicPartitionList)
      → Map.get m assignments ≡ none
      → give topic x p assignments ≡ ok a
      → Map.get m a ≡ none
  unfolding give
  give-absent topic x p assignments a absent h =
      let (t, e, made) = bind-eq-ok (or_panic (Map.get x assignments)) _ h in
      ground (
        arith,
        absent,
        e,
        made,
        get-insert x m (add_partition t topic p) assignments,
        string_eq.beq_iff x m,
      )

  assign_partitions-absent :
      (topic : String) (subs : List String) (p n : ℕ)
      (assignments a : Map String TopicPartitionList)
      → Map.get m assignments ≡ none
      → assign_partitions topic subs p n assignments ≡ ok a
      → Map.get m a ≡ none
  unfolding assign_partitions
  assign_partitions-absent topic subs p zero assignments a absent h = cc
  assign_partitions-absent topic subs p (suc n) assignments a absent h =
      let (x, e, h1) = bind-eq-ok (or_panic (get_elem? subs (p % length subs))) _ h in
      let (given, g, h2) = bind-eq-ok (give topic x (pos p) assignments) _ h1 in
      assign_partitions-absent topic subs (p + 1) n given a
        (give-absent topic x (pos p) assignments given absent g) h2

  module _ (member_topics : Map String (List String)) (counts : Map String ℤ)
      (members : List String) where
    assign_topic-absent :
        (topic : String) (assignments a : Map String TopicPartitionList)
        → Map.get m assignments ≡ none
        → assign_topic member_topics counts members topic assignments ≡ ok a
        → Map.get m a ≡ none
    unfolding assign_topic
    assign_topic-absent topic assignments a absent h = elim (Option-cases (Map.get topic counts)) [
      | inl e ↦ ground (arith, e, h, absent)
      | inr (n, e) ↦
          let subs = subscribed member_topics topic members in
          elim (Bool-cases (is_empty subs || n == pos 0)) [
            | inl nobody ↦ ground (arith, e, nobody, h, absent)
            | inr somebody ↦
                assign_partitions-absent topic subs 0 (pos_part n) assignments a absent
                  (ground (arith, e, somebody, h))
          ]
    ]

    assign_topics-absent :
        (topics : List String) (assignments a : Map String TopicPartitionList)
        → Map.get m assignments ≡ none
        → assign_topics member_topics counts members topics assignments ≡ ok a
        → Map.get m a ≡ none
    unfolding assign_topics
    assign_topics-absent [] assignments a absent h = cc
    assign_topics-absent (topic ∷ topics) assignments a absent h =
        let (given, g, h1) =
          bind-eq-ok (assign_topic member_topics counts members topic assignments) _ h in
        assign_topics-absent topics given a (assign_topic-absent topic assignments given absent g)
          h1

-- The assignor gives nothing to one who is not a member.
pub assign-absent :
    (order : List String → List String) (member_topics : Map String (List String))
    (counts : Map String ℤ) (m : String) (a : Map String TopicPartitionList)
    → Map.get m member_topics ≡ none
    → assign order member_topics counts ≡ ok a
    → Map.get m a ≡ none
unfolding assign
assign-absent order member_topics counts m a absent h =
    let members = sort (Map.keys member_topics) in
    assign_topics-absent m member_topics counts members _ (initial members) a
      (initial-absent m members
        (has-sort m (Map.keys member_topics) ∙ has-keys m member_topics absent))
      h
