-- ===== src/Assignor/Total.antt =====
-- An assignment never fails.
use rmem_queue.Base.{
  ℕ, zero, suc, ◌+◌, ◌%◌, ◌<◌, ℤ, pos, pos_part, String, ◌≡◌, refl, ◌∙◌, Bool, false, ◌||◌, Option,
  none, some, List, [], ◌∷◌, length, get_elem?, get_elem?_found, retain, ◌==◌, int_eq, string_eq,
  Bool-cases, inl, inr, arith, if_both,
}
use rmem_queue.Assignor.{
  assign, assign_topics, assign_topic, assign_partitions, give, subscribed, initial, sort,
}
use rmem_queue.Base.Map
use rmem_queue.Base.Map.{Map, get-insert, beq_self}
use rmem_queue.Error.{Result, ok}
use rmem_queue.Partition.{is_empty}
use rmem_queue.TopicPartition.{TopicPartitionList, add_partition}
use rmem_queue.TopicPartition

-- Every member has an assignment.
pub record Covers (members : List String) (assignments : Map String TopicPartitionList)
    : Type 0 where
  pub at :
      (i : ℕ) (m : String)
      → get_elem? members i ≡ some m
      → (tpl : TopicPartitionList) × (Map.get m assignments ≡ some tpl)

initial-Covers : (members : List String) → Covers members (initial members)
unfolding initial Map.get
initial-Covers [] = record { at = λ i m h. cc }
initial-Covers (x ∷ xs) = record {
  at = λ i m h. elim (Bool-cases (x == m)) [
    | inl same ↦ (TopicPartition.new, rw same refl)
    | inr other ↦ rw other (later x xs (initial-Covers xs) i m h other)
  ];
}
  where
    later :
        (x : String) (xs : List String) (c : Covers xs (initial xs)) (i : ℕ) (m : String)
        → get_elem? (x ∷ xs) i ≡ some m
        → (x == m) ≡ false
        → (tpl : TopicPartitionList) × (Map.get m (initial xs) ≡ some tpl)
    later x xs c zero m h other = absurd (ground (arith, string_eq.beq_iff x m, h, other))
    later x xs c (suc i) m h other = c.at i m h

insert-Covers :
    (members : List String) (assignments : Map String TopicPartitionList) (k : String)
    (tpl : TopicPartitionList)
    → Covers members assignments
    → Covers members (Map.insert k tpl assignments)
insert-Covers members assignments k tpl c = record {
  at = λ i m h. elim (Bool-cases (k == m)) [
    | inl same ↦ (tpl, get-insert k m tpl assignments ∙ rw same refl)
    | inr other ↦ let (t, e) = c.at i m h in (t, get-insert k m tpl assignments ∙ rw other e)
  ];
}

-- The calls that return assignments of the members.
abbrev Assigns : List String → Result (Map String TopicPartitionList) → Type 0
Assigns members r = (a : Map String TopicPartitionList) × (r ≡ ok a) × Covers members a

-- The members of one list are among those of another.
pub record Within (xs ys : List String) : Type 0 where
  pub found : (i : ℕ) (x : String) → get_elem? xs i ≡ some x → (j : ℕ) × (get_elem? ys j ≡ some x)

pub Within-cons : {xs ys : List String} (y : String) → Within xs ys → Within (y ∷ xs) (y ∷ ys)
Within-cons {xs} {ys} y w = record { found = at }
  where
    at :
        (i : ℕ) (x : String)
        → get_elem? (y ∷ xs) i ≡ some x
        → (j : ℕ) × (get_elem? (y ∷ ys) j ≡ some x)
    at zero x h = (0, h)
    at (suc i) x h = let (j, e) = w.found i x h in (suc j, e)

Within-later : {xs ys : List String} (y : String) → Within xs ys → Within xs (y ∷ ys)
Within-later y w = record { found = λ i x h. let (j, e) = w.found i x h in (suc j, e) }

retain-Within : (p : String → Bool) (xs : List String) → Within (retain p xs) xs
retain-Within p [] = record { found = λ i x h. cc }
retain-Within p (y ∷ ys) =
    let rest = retain-Within p ys in
    if_both (λ l. Within l (y ∷ ys)) (p y) (Within-cons y rest) (Within-later y rest)

module _ (members : List String) where
  give-Assigns :
      (topic m : String) (p : ℤ) (assignments : Map String TopicPartitionList)
      → (tpl : TopicPartitionList) × (Map.get m assignments ≡ some tpl)
      → Covers members assignments
      → Assigns members (give topic m p assignments)
  unfolding give
  give-Assigns topic m p assignments (tpl, e) c =
      (_, rw e refl, insert-Covers members assignments m (add_partition tpl topic p) c)

  assign_partitions-Assigns :
      (topic : String) (subs : List String) (p n : ℕ) (assignments : Map String TopicPartitionList)
      → Within subs members
      → 0 < length subs
      → Covers members assignments
      → Assigns members (assign_partitions topic subs p n assignments)
  unfolding assign_partitions
  assign_partitions-Assigns topic subs p zero assignments w h c = (assignments, refl, c)
  assign_partitions-Assigns topic subs p (suc n) assignments w h c =
      let (m, e) = get_elem?_found subs (p % length subs) (omega arith) in
      let (j, e') = w.found (p % length subs) m e in
      let (given, g, c') = give-Assigns topic m (pos p) assignments (c.at j m e') c in
      let (a, r, c'') = assign_partitions-Assigns topic subs (p + 1) n given w h c' in
      (a, rw (e, g) r, c'')

  module _ (member_topics : Map String (List String)) (counts : Map String ℤ) where
    assign_topic-Assigns :
        (topic : String) (assignments : Map String TopicPartitionList)
        → Covers members assignments
        → Assigns members (assign_topic member_topics counts members topic assignments)
    unfolding assign_topic subscribed
    assign_topic-Assigns topic assignments c = go (Map.get topic counts) refl
      where
        subs : List String
        subs = subscribed member_topics topic members

        positive : (xs : List String) → is_empty xs ≡ false → 0 < length xs
        positive [] h = cc
        positive (x ∷ xs) h = omega arith

        go :
            (o : Option ℤ)
            → Map.get topic counts ≡ o
            → Assigns members (assign_topic member_topics counts members topic assignments)
        go none e = rw (e, assign_topic) (assignments, refl, c)
        go (some n) e = elim (Bool-cases (is_empty subs || n == pos 0)) [
          | inl nobody ↦ (assignments, ground (arith, e, nobody), c)
          | inr somebody ↦
              let (a, r, c') =
                assign_partitions-Assigns topic subs 0 (pos_part n) assignments
                  (retain-Within _ members) (positive subs (ground (arith, somebody))) c in
              (a, ground (arith, e, somebody, r), c')
        ]

    assign_topics-Assigns :
        (topics : List String) (assignments : Map String TopicPartitionList)
        → Covers members assignments
        → Assigns members (assign_topics member_topics counts members topics assignments)
    unfolding assign_topics
    assign_topics-Assigns [] assignments c = (assignments, refl, c)
    assign_topics-Assigns (topic ∷ topics) assignments c =
        let (a, e, c') = assign_topic-Assigns topic assignments c in
        let (a', e', c'') = assign_topics-Assigns topics a c' in (a', rw e e', c'')

-- In whatever order the topics are taken, and whatever the counts say, the assignor succeeds without
-- a panic, and every member gets an assignment.
pub assign-Covers :
    (order : List String → List String) (member_topics : Map String (List String))
    (counts : Map String ℤ)
    → (a : Map String TopicPartitionList) × (assign order member_topics counts ≡ ok a)
      × Covers (sort (Map.keys member_topics)) a
unfolding assign
assign-Covers order member_topics counts =
    let members = sort (Map.keys member_topics) in
    assign_topics-Assigns members member_topics counts _ (initial members) (initial-Covers members)
