-- ===== src/ConsumerGroup/Join.antt =====
-- Joining a group never fails: the new member gets an assignment.
use rmem_queue.Base.{
  ℕ, zero, suc, ℤ, String, ◌≡◌, refl, ap, false, some, List, [], ◌∷◌, get_elem?, ◌==◌, string_eq,
  Bool-cases, inl, inr, arith, if_both,
}
use Prim.Native.String.{compare}
use text.Mathlib.Text.{is_le}
use rmem_queue.Assignor.{sort, insert_sorted}
use rmem_queue.Assignor.Total.{Within, Within-cons, assign-Covers}
use rmem_queue.Base.Map
use rmem_queue.Base.Map.{Map, get-insert_self, beq_self}
use rmem_queue.ConsumerGroup.{ConsumerGroup, join, rebalance, registered, assignment}
use rmem_queue.Error.{ok}
use rmem_queue.Partition.{is_empty}
use rmem_queue.TopicPartition.{TopicPartitionList}

Within-self : (xs : List String) → Within xs xs
Within-self xs = record { found = λ i x h. (i, h) }

Within-trans : {xs ys zs : List String} → Within xs ys → Within ys zs → Within xs zs
Within-trans v w = record { found = λ i x h. let (j, e) = v.found i x h in w.found j x e }

past :
    {x y : String} {ys rest : List String} → Within (x ∷ ys) rest → Within (x ∷ y ∷ ys) (y ∷ rest)
past {x} {y} {ys} {rest} w = record { found = at }
  where
    at :
        (i : ℕ) (z : String)
        → get_elem? (x ∷ y ∷ ys) i ≡ some z
        → (j : ℕ) × (get_elem? (y ∷ rest) j ≡ some z)
    at zero z h = let (j, e) = w.found 0 z h in (suc j, e)
    at (suc zero) z h = (0, h)
    at (suc (suc i)) z h = let (j, e) = w.found (suc i) z h in (suc j, e)

insert_sorted-Within : (x : String) (xs : List String) → Within (x ∷ xs) (insert_sorted x xs)
unfolding insert_sorted
insert_sorted-Within x [] = Within-self (x ∷ [])
insert_sorted-Within x (y ∷ ys) =
    let later = past {y = y} (insert_sorted-Within x ys) in
    if_both (λ l. Within (x ∷ y ∷ ys) l) (is_le (compare x y)) (Within-self (x ∷ y ∷ ys)) later

pub sort-Within : (xs : List String) → Within xs (sort xs)
unfolding sort
sort-Within [] = Within-self []
sort-Within (x ∷ xs) =
    Within-trans (Within-cons x (sort-Within xs)) (insert_sorted-Within x (sort xs))

pub keys-found :
    {V : Type 0} (k : String) (v : V) (m : Map String V)
    → Map.get k m ≡ some v
    → (i : ℕ) × (get_elem? (Map.keys m) i ≡ some k)
unfolding Map.get
keys-found k v [] h = cc
keys-found k v ((j, w) ∷ m) h = elim (Bool-cases (j == k)) [
  | inl same ↦ (0, ap some ((string_eq.beq_iff j k).0 same))
  | inr other ↦ let (i, e) = keys-found k v m (cc (h, other)) in (suc i, e)
]

pub insert-is_empty :
    {V : Type 0} (k : String) (v : V) (m : Map String V) → is_empty (Map.insert k v m) ≡ false
unfolding Map.insert
insert-is_empty k v [] = refl
insert-is_empty k v ((j, w) ∷ m) = ground arith

-- Whatever the group, the topics and the counts, a member that joins gets an assignment, and the
-- group then reports that assignment for it.
pub join-assignment :
    (order : List String → List String) (g : ConsumerGroup) (member : String) (topics : List String)
    (counts : Map String ℤ)
    → (tpl : TopicPartitionList) × ((join order g member topics counts).0 ≡ ok tpl)
      × (assignment (join order g member topics counts).1 member ≡ some tpl)
unfolding join rebalance assignment
join-assignment order g member topics counts =
    let s = registered g.state member topics in
    let (a, e, covers) = assign-Covers order s.member_topics counts in
    let listed =
      keys-found member topics s.member_topics
        (get-insert_self member topics g.state.member_topics) in
    let (j, sorted) = (sort-Within (Map.keys s.member_topics)).found listed.0 member listed.1 in
    let (tpl, given) = covers.at j member sorted in
    let someone =
      insert-is_empty member (record { member_id = member; subscribed_topics = topics })
        g.state.members in
    (tpl, ground (arith, e, given, someone), ground (arith, e, given, someone))
