-- ===== src/Assignor/Exact.antt =====
-- What `assign` of src/partition_assignor.rs gives each member, over all topics.
use rmem_queue.Base.{
  ℕ, zero, suc, ◌+◌, ℤ, pos, pos_part, String, ◌≡◌, refl, ap, ◌∙◌, Bool, true, false, ◌&&◌, ◌||◌,
  none, some, List, [], ◌∷◌, ◌++◌, get_elem?, ◌==◌, ltb, int_eq, nat_eq, string_eq, Bool-cases,
  Option-cases, inl, inr, arith, append_assoc, append-nil,
}
use rmem_queue.Assignor.{
  assign, assign_topics, assign_topic, subscribed, initial, sort, dedup, concat,
}
use rmem_queue.Assignor.Only.{has, has-sort}
use rmem_queue.Assignor.Share.{is_owner, share, more, owner_cases, assign_partitions-share}
use rmem_queue.Assignor.Topics.{IsOrder, retain-satisfies, has-dedup, has-values}
use rmem_queue.Assignor.Total.{assign-Covers}
use rmem_queue.Assignor.Names.{names, names-append, share-names}
use rmem_queue.Base.Map
use rmem_queue.Base.Map.{Map}
use rmem_queue.Error.{ok, bind-eq-ok}
use rmem_queue.Partition.{is_empty}
use rmem_queue.TopicPartition.{TopicPartitionElem, TopicPartitionList}
use rmem_queue.TopicPartition

-- The partitions of all topics of a list that are the member's.
module _ (member_topics : Map String (List String)) (counts : Map String ℤ) where
  abbrev pub subscribers : String → List String
  subscribers topic = subscribed member_topics topic (sort (Map.keys member_topics))

  -- The topic has a partition `q`, and the member is the one whose turn it is among the subscribers.
  abbrev pub owns : String → String → ℕ → Bool
  owns m t q = elim (Map.get t counts) [
    | none ↦ false
    | some n ↦ ltb q (pos_part n) && is_owner (subscribers t) m q
  ]

  abbrev portion : String → String → List TopicPartitionElem
  portion m topic = elim (Map.get topic counts) [
    | none ↦ []
    | some n ↦ share topic (subscribers topic) m 0 (pos_part n)
  ]

  abbrev portions : String → List String → List TopicPartitionElem
  portions m [] = []
  portions m (topic ∷ topics) = portion m topic ++ portions m topics

  portion-names_own :
      (m topic t : String) (q : ℕ) → names (portion m topic) t q ≡ (topic == t) && owns m topic q
  portion-names_own m topic t q = elim (Option-cases (Map.get topic counts)) [
    | inl e ↦ ground (arith, e)
    | inr (n, e) ↦ ground (arith, e, share-names topic m (subscribers topic) t q 0 (pos_part n))
  ]

  portion-names :
      (m topic t : String) (q : ℕ) → names (portion m topic) t q ≡ (topic == t) && owns m t q
  portion-names m topic t q = elim (Bool-cases (topic == t)) [
    | inl same ↦
        portion-names_own m topic t q
        ∙ ap (λ x. (topic == t) && owns m x q) ((string_eq.beq_iff topic t).0 same)
    | inr other ↦ portion-names_own m topic t q ∙ ground (arith, other)
  ]

  portions-names :
      (m t : String) (q : ℕ) (topics : List String)
      → names (portions m topics) t q ≡ has t topics && owns m t q
  portions-names m t q [] = refl
  portions-names m t q (topic ∷ topics) =
      names-append (portion m topic) (portions m topics) t q
      ∙ ground (arith, portion-names m topic t q, portions-names m t q topics)

  nobody_share : (m topic : String) (p n : ℕ) → share topic [] m p n ≡ []
  nobody_share m topic p zero = refl
  nobody_share m topic p (suc n) = nobody_share m topic (p + 1) n

  share-none :
      (m topic : String) (n : ℤ)
      → is_empty (subscribers topic) || n == pos 0 ≡ true
      → share topic (subscribers topic) m 0 (pos_part n) ≡ []
  share-none m topic n h = go (subscribers topic) n h
    where
      go :
          (subs : List String) (n : ℤ)
          → is_empty subs || n == pos 0 ≡ true
          → share topic subs m 0 (pos_part n) ≡ []
      go [] n h = nobody_share m topic 0 (pos_part n)
      go (x ∷ subs) n h = rw ((int_eq.beq_iff n (pos 0)).0 (ground (arith, h))) refl

  assign_topic-portion :
      (m topic : String) (assignments a : Map String TopicPartitionList) (tpl : TopicPartitionList)
      → Map.get m assignments ≡ some tpl
      → assign_topic member_topics counts (sort (Map.keys member_topics)) topic assignments ≡ ok a
      → Map.get m a ≡ some (more tpl (portion m topic))
  unfolding assign_topic
  assign_topic-portion m topic assignments a tpl found h =
      elim (Option-cases (Map.get topic counts)) [
        | inl e ↦ ground (arith, e, h, found, append-nil tpl.elements)
        | inr (n, e) ↦ elim (Bool-cases (is_empty (subscribers topic) || n == pos 0)) [
          | inl nobody ↦
              ground
                (arith, e, nobody, h, found, append-nil tpl.elements, share-none m topic n nobody)
          | inr somebody ↦
              assign_partitions-share topic m (subscribers topic) 0 (pos_part n) assignments a tpl
                found (ground (arith, e, somebody, h))
              ∙ ground (arith, e)
        ]
      ]

  assign_topics-portions :
      (m : String) (topics : List String) (assignments a : Map String TopicPartitionList)
      (tpl : TopicPartitionList)
      → Map.get m assignments ≡ some tpl
      → assign_topics member_topics counts (sort (Map.keys member_topics)) topics assignments ≡ ok a
      → Map.get m a ≡ some (more tpl (portions m topics))
  unfolding assign_topics
  assign_topics-portions m [] assignments a tpl found h =
      ground (arith, h, found, append-nil tpl.elements)
  assign_topics-portions m (topic ∷ topics) assignments a tpl found h =
      let (given, g, h1) =
        bind-eq-ok
          (assign_topic member_topics counts (sort (Map.keys member_topics)) topic assignments) _
          h in
      assign_topics-portions m topics given a (more tpl (portion m topic))
        (assign_topic-portion m topic assignments given tpl found g) h1
      ∙ ap (λ l. some (record { elements = l }))
          (append_assoc tpl.elements (portion m topic) (portions m topics))

  subscriber-topics :
      (m t : String) (i : ℕ)
      → get_elem? (subscribers t) i ≡ some m
      → has t (concat (Map.values member_topics)) ≡ true
  unfolding subscribed
  subscriber-topics m t i h = elim (Option-cases (Map.get m member_topics)) [
    | inl e ↦ ground (arith, e, retain-satisfies _ (sort (Map.keys member_topics)) i h)
    | inr (topics, e) ↦
        has-values m t topics member_topics e
          (ground (arith, e, retain-satisfies _ (sort (Map.keys member_topics)) i h))
  ]

  -- A partition's owner is subscribed to its topic.
  owns-topics :
      (m t : String) (q : ℕ) → owns m t q ≡ true → has t (concat (Map.values member_topics)) ≡ true
  owns-topics m t q h = elim (Bool-cases (is_owner (subscribers t) m q)) [
    | inl e ↦ subscriber-topics m t _ ((owner_cases (subscribers t) m q).0 e)
    | inr e ↦ ground (arith, h, e)
  ]

initial-present :
    (m : String) (ms : List String)
    → has m ms ≡ true
    → Map.get m (initial ms) ≡ some TopicPartition.new
unfolding initial Map.get
initial-present m [] h = cc
initial-present m (x ∷ xs) h = ground (arith, h, initial-present m xs)

has-key :
    {V : Type 0} (m : String) (map : Map String V) (v : V)
    → Map.get m map ≡ some v
    → has m (Map.keys map) ≡ true
unfolding Map.get
has-key m [] v h = cc
has-key m ((k, w) ∷ map) v h = ground (arith, h, has-key m map v)

pub assigned-exact :
    (order : List String → List String) (member_topics : Map String (List String))
    (counts : Map String ℤ) (m : String) (topics : List String) (a : Map String TopicPartitionList)
    → IsOrder order
    → Map.get m member_topics ≡ some topics
    → assign order member_topics counts ≡ ok a
    → (tpl : TopicPartitionList) × (Map.get m a ≡ some tpl)
      × ((t : String) (q : ℕ) → names tpl.elements t q ≡ owns member_topics counts m t q)
unfolding assign
assigned-exact order member_topics counts m topics a o member h =
    let all_topics = order (dedup (concat (Map.values member_topics))) in
    let given = portions member_topics counts m all_topics in
    let started =
      initial-present m (sort (Map.keys member_topics))
        (has-sort m (Map.keys member_topics) ∙ has-key m member_topics topics member) in
    (
      record { elements = given },
      assign_topics-portions member_topics counts m all_topics _ a TopicPartition.new started h,
      λ t q.
          portions-names member_topics counts m t q all_topics
          ∙ ground (
            arith,
            o.same (dedup (concat (Map.values member_topics))) t,
            has-dedup t (concat (Map.values member_topics)),
            owns-topics member_topics counts m t q,
          ),
    )

-- The assignor succeeds, in whatever order the topics are taken, and gives each member exactly the
-- partitions that it owns: partition `q` of a topic if the count given is above `q` and the member stands
-- at index `q % k` among the `k` members subscribed to the topic, in their sorted order.
pub assign-exact :
    (order : List String → List String) (member_topics : Map String (List String))
    (counts : Map String ℤ)
    → IsOrder order
    → (a : Map String TopicPartitionList) × (assign order member_topics counts ≡ ok a)
      × ((m : String) (topics : List String)
          → Map.get m member_topics ≡ some topics
          → (tpl : TopicPartitionList) × (Map.get m a ≡ some tpl)
            × ((t : String) (q : ℕ) → names tpl.elements t q ≡ owns member_topics counts m t q))
assign-exact order member_topics counts o =
    let (a, e, _) = assign-Covers order member_topics counts in
    (a, e, λ m topics member. assigned-exact order member_topics counts m topics a o member e)
