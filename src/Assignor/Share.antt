-- ===== src/Assignor/Share.antt =====
-- The partitions of a topic that each of its subscribers gets.
use rmem_queue.Base.{
  ℕ, zero, suc, ◌+◌, ◌%◌, ◌<◌, ◌≤◌, ℤ, pos, String, ◌≡◌, refl, ap, sym, ◌∙◌, Bool, true, false,
  none, some, List, [], ◌∷◌, ◌++◌, length, get_elem?, any, ◌==◌, int_eq, string_eq, Bool-cases,
  Option-cases, ◌↔◌, inl, inr, arith, if◌then◌else◌, append_assoc, append-nil,
}
use rmem_queue.Assignor.{assign_partitions, give}
use rmem_queue.Base.Map
use rmem_queue.Base.Map.{Map, get-insert, beq_self}
use rmem_queue.Error.{ok, or_panic, bind-eq-ok}
use rmem_queue.TopicPartition.{TopicPartitionElem, TopicPartitionList, add_partition, stored}

abbrev pub is_owner : List String → String → ℕ → Bool
is_owner subs m q = elim (get_elem? subs (q % length subs)) [ none ↦ false | some x ↦ x == m ]

-- The partitions `p..p + n` whose turn is the member's.
abbrev pub share : String → List String → String → ℕ → ℕ → List TopicPartitionElem
share topic subs m p zero = []
share topic subs m p (suc n) =
    let rest = share topic subs m (p + 1) n in
    if is_owner subs m p
    then record { topic = topic; partition = pos p; offset = stored } ∷ rest
    else rest

abbrev pub more : TopicPartitionList → List TopicPartitionElem → TopicPartitionList
more tpl elems = record { elements = tpl.elements ++ elems }

give_lem :
    (topic x m : String) (p : ℤ) (assignments a : Map String TopicPartitionList)
    (tpl : TopicPartitionList)
    → Map.get m assignments ≡ some tpl
    → give topic x p assignments ≡ ok a
    → Map.get m a ≡ some (if x == m then add_partition tpl topic p else tpl)
unfolding give
give_lem topic x m p assignments a tpl found h =
    let (t, e, made) = bind-eq-ok (or_panic (Map.get x assignments)) _ h in
    ground (
      arith,
      found,
      e,
      made,
      get-insert x m (add_partition t topic p) assignments,
      string_eq.beq_iff x m,
    )

abbrev elem_of : String → ℕ → TopicPartitionElem
elem_of topic p = record { topic = topic; partition = pos p; offset = stored }

pub owned :
    (subs : List String) (m x : String) (p : ℕ)
    → get_elem? subs (p % length subs) ≡ some x
    → is_owner subs m p ≡ (x == m)
owned subs m x p e = rw (e, is_owner) refl

step_more :
    (topic m : String) (subs : List String) (p n : ℕ) (tpl : TopicPartitionList)
    → more
        (if is_owner subs m p then add_partition tpl topic (pos p) else tpl)
        (share topic subs m (p + 1) n)
      ≡ more tpl (share topic subs m p (suc n))
step_more topic m subs p n tpl = elim (Bool-cases (is_owner subs m p)) [
  | inl e ↦ rw e (
      ap (λ l. record { elements = l })
        (append_assoc tpl.elements (elem_of topic p ∷ []) (share topic subs m (p + 1) n)))
  | inr e ↦ rw e refl
]

pub assign_partitions-share :
    (topic m : String) (subs : List String) (p n : ℕ)
    (assignments a : Map String TopicPartitionList) (tpl : TopicPartitionList)
    → Map.get m assignments ≡ some tpl
    → assign_partitions topic subs p n assignments ≡ ok a
    → Map.get m a ≡ some (more tpl (share topic subs m p n))
unfolding assign_partitions
assign_partitions-share topic m subs p zero assignments a tpl found h =
    let same : assignments ≡ a = cc in
    ap (Map.get m) (sym same)
    ∙ found
    ∙ ap (λ l. some (record { elements = l })) (sym (append-nil tpl.elements))
assign_partitions-share topic m subs p (suc n) assignments a tpl found h =
    let (x, e, h1) = bind-eq-ok (or_panic (get_elem? subs (p % length subs))) _ h in
    let (given, g, h2) = bind-eq-ok (give topic x (pos p) assignments) _ h1 in
    let at : get_elem? subs (p % length subs) ≡ some x = ground (arith, e) in
    let found' = give_lem topic x m (pos p) assignments given tpl found g in
    let found'' : Map.get m given
        ≡ some (if is_owner subs m p then add_partition tpl topic (pos p) else tpl) =
      found'
      ∙ ap (λ b. some (if b then add_partition tpl topic (pos p) else tpl))
          (sym (owned subs m x p at)) in
    assign_partitions-share topic m subs (p + 1) n given a _ found'' h2
    ∙ ap some (step_more topic m subs p n tpl)

abbrev pub has_partition : ℕ → List TopicPartitionElem → Bool
has_partition q elems = any (λ e. e.partition == pos q) elems

pub owner_cases :
    (subs : List String) (m : String) (q : ℕ)
    → (is_owner subs m q ≡ true) ↔ (get_elem? subs (q % length subs) ≡ some m)
owner_cases subs m q = elim (Option-cases (get_elem? subs (q % length subs))) [
  | inl e ↦ ((λ h. ground (arith, e, h)), (λ h. ground (arith, e, h)))
  | inr (x, e) ↦ (
    (λ h. ground (arith, e, h, string_eq.beq_iff x m)),
    (λ h. ground (arith, e, h, string_eq.beq_iff x m)),
  )
]

-- A share has exactly the partitions of its range whose turn is the member's.
share-has :
    (topic m : String) (subs : List String) (q p n : ℕ)
    → (has_partition q (share topic subs m p n) ≡ true)
      ↔ ((p ≤ q) × (q < p + n) × (get_elem? subs (q % length subs) ≡ some m))
share-has topic m subs q p zero = ((λ h. cc), (λ (a, b, c). absurd (ground (arith, a, b))))
share-has topic m subs q p (suc n) =
    let (to, from) = share-has topic m subs q (p + 1) n in
    let (owner_to, owner_from) = owner_cases subs m q in
    elim (Bool-cases (is_owner subs m p)) [
      | inl mine ↦ (
        (λ h. ground (arith, to, owner_to, mine, h)),
        (λ (a, b, c). ground (arith, from, mine, a, b, c)),
      )
      | inr other ↦ (
        (λ h. ground (arith, to, other, h)),
        (λ (a, b, c). ground (arith, from, owner_from, other, a, b, c)),
      )
    ]

-- When the partitions `p..p + n` of a topic are assigned to its subscribers, a member gets at the end
-- of its list exactly those whose number, modulo the number of subscribers, is the member's index:
-- each partition goes to one subscriber, and the old assignment stays.
pub assign_partitions-exact :
    (topic m : String) (subs : List String) (p n : ℕ)
    (assignments a : Map String TopicPartitionList) (tpl : TopicPartitionList)
    → Map.get m assignments ≡ some tpl
    → assign_partitions topic subs p n assignments ≡ ok a
    → (given : List TopicPartitionElem) × (Map.get m a
        ≡ some (record { elements = tpl.elements ++ given }))
      × ((q : ℕ)
          → (has_partition q given ≡ true)
            ↔ ((p ≤ q) × (q < p + n) × (get_elem? subs (q % length subs) ≡ some m)))
assign_partitions-exact topic m subs p n assignments a tpl found h = (
  share topic subs m p n,
  assign_partitions-share topic m subs p n assignments a tpl found h,
  λ q. share-has topic m subs q p n,
)
