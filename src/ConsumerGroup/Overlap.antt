-- ===== src/ConsumerGroup/Overlap.antt =====
-- What `join` of src/consumer_group.rs leaves the members with that joined before.
use rmem_queue.Base.{
  ℕ, ◌+◌, ◌<◌, ℤ, pos, String, ◌≡◌, refl, ◌∙◌, true, false, some, List, [], ◌∷◌, ◌==◌, string_eq,
  Bool-cases, inl, inr, arith, ltb, length, ◌%◌, get_elem?,
}
use native.Mathlib.Nat.{mod-lt}
use Prim.Native.String.{compare}
use text.Mathlib.Text.{is_le}
use rmem_queue.Assignor.{sort, insert_sorted, subscribed}
use rmem_queue.Assignor.Exact.{owns, subscribers, assign-exact}
use rmem_queue.Assignor.Share.{is_owner, owned}
use rmem_queue.Assignor.Names.{names}
use rmem_queue.Assignor.Topics.{IsOrder}
use rmem_queue.Base.Map
use rmem_queue.Base.Map.{Map, get-insert_self, beq_self}
use rmem_queue.ConsumerGroup.{new, join}
use rmem_queue.ConsumerGroup.Told.{after, join-after}
use rmem_queue.Error.{ok}
use rmem_queue.TopicPartition.{TopicPartitionList}

-- Two members of a topic with at least two partitions.
module _ (a b t : String) (n : ℕ) (counts : Map String ℤ) (differ : a == b ≡ false)
    (counted : Map.get t counts ≡ some (pos (n + 2))) where
  one : Map String (List String)
  one = (a, t ∷ []) ∷ []

  both : Map String (List String)
  both = Map.insert b (t ∷ []) one

  alone : subscribers one counts t ≡ a ∷ []
  unfolding one subscribed sort insert_sorted Map.get
  alone = ground (arith, beq_self a, beq_self t)

  second :
      (j : ℕ) × (j < 2)
      × (get_elem? (subscribers both counts t) j ≡ some b)
      × (length (subscribers both counts t) ≡ 2)
  unfolding both one subscribed sort insert_sorted Map.get Map.insert
  second = elim (Bool-cases (is_le (compare a b))) [
    | inl e ↦ (
      1,
      omega arith,
      ground (arith, e, differ, beq_self a, beq_self b, beq_self t),
      ground (arith, e, differ, beq_self a, beq_self b, beq_self t),
    )
    | inr e ↦ (
      0,
      omega arith,
      ground (arith, e, differ, beq_self a, beq_self b, beq_self t),
      ground (arith, e, differ, beq_self a, beq_self b, beq_self t),
    )
  ]

  -- A partition is the member's whose turn it is.
  turn :
      (subs : List String) (m : String) (q k j : ℕ)
      → length subs ≡ k
      → q % k ≡ j
      → get_elem? subs j ≡ some m
      → is_owner subs m q ≡ true
  turn subs m q k j l r e =
      let here : get_elem? subs (q % length subs) ≡ some m = rw (l, r) e in
      owned subs m m q here ∙ beq_self m

  -- The first member has every partition while it is the only one.
  owns-alone : (q : ℕ) → owns one counts a t q ≡ ltb q (n + 2)
  owns-alone q =
      let zeroth : q % 1 ≡ 0 = omega (arith, mod-lt q {m = 1} (omega arith)) in
      let own = turn (a ∷ []) a q 1 0 refl zeroth refl in
      rw (owns, counted, alone, own) (ground arith)

  -- The second one has one of them by the time it has joined.
  owns-second : (q : ℕ) × (q < 2) × (owns both counts b t q ≡ true)
  owns-second =
      let (j, small, e, two) = second in
      let itself : j % 2 ≡ j = omega (arith, small) in
      let inside : ltb j (n + 2) ≡ true = ground (arith, small) in
      let own = turn (subscribers both counts t) b j 2 j two itself e in
      (j, small, rw (owns, counted, inside) own)

  -- When a member joins a new group for a topic with at least two partitions and another one joins
  -- for the same topic, with the same counts, the first is told that every partition is its own and
  -- the second that one of them is, so that both go by an assignment that names the same partition.
  pub join-overlap :
      (order : List String → List String) (group_id : String)
      → IsOrder order
      → let (r, g) = join order (new group_id) a (t ∷ []) counts in
        let (r', g') = join order g b (t ∷ []) counts in
        (tpl : TopicPartitionList) × (tpl' : TopicPartitionList) × (r ≡ ok tpl)
        × (r' ≡ ok tpl')
        × ((q : ℕ) → names tpl.elements t q ≡ ltb q (n + 2))
        × ((q : ℕ) × (names tpl.elements t q ≡ true) × (names tpl'.elements t q ≡ true))
  unfolding new one both Map.insert
  join-overlap order group_id o =
      let g = new group_id in
      let (given_one, e, exact) = assign-exact order one counts o in
      let (tpl, given, mine) = exact a (t ∷ []) (get-insert_self a (t ∷ []) []) in
      let (given_both, e', exact') = assign-exact order both counts o in
      let (tpl', given', mine') = exact' b (t ∷ []) (get-insert_self b (t ∷ []) one) in
      let all = λ (q : ℕ). mine t q ∙ owns-alone q in
      let (q, small, own) = owns-second in
      let inside : ltb q (n + 2) ≡ true = ground (arith, small) in
      rw
        (
          join-after order g a (t ∷ []) counts given_one tpl e given,
          join-after order (after g a (t ∷ []) given_one) b (t ∷ []) counts given_both tpl' e'
              given',
        )
        (tpl, tpl', refl, refl, all, (q, all q ∙ inside, mine' t q ∙ own))
