-- ===== src/Assignor/Balance.antt =====
-- How many partitions of a topic each subscriber gets.
use native.Mathlib.Nat.{
  suc-mod, mod-eq_of_lt, mod_self, mod-lt, div-add-mod, mul-add-div, div-eq_of_lt, div_self,
  zero-div, zero-mod,
}
use rmem_queue.Base.{
  ℕ, zero, suc, ◌+◌, ◌*◌, ◌/◌, ◌%◌, ◌<◌, String, ◌≡◌, ap, sym, ◌∙◌, Bool, some, List, ◌++◌, length,
  get_elem?, get_elem?-lt, ltb, nat_eq, nat_beq_iff, string_eq, ◌==◌, Bool-cases, inl, inr, arith,
  if◌then◌else◌,
}
use rmem_queue.Assignor.{assign_partitions}
use rmem_queue.Assignor.Share.{share, is_owner, owner_cases, assign_partitions-share}
use rmem_queue.Base.Map
use rmem_queue.Base.Map.{Map}
use rmem_queue.Error.{ok}
use rmem_queue.TopicPartition.{TopicPartitionElem, TopicPartitionList}

-- How many of the numbers below `n` are `j` modulo `k`.
abbrev pub turns : ℕ → ℕ → ℕ → ℕ
turns k j n = n / k + (if ltb j (n % k) then 1 else 0)

-- One more than a number: its quotient and remainder.
module _ (k n : ℕ) (positive : 0 < k) where
  suc-div : suc n / k ≡ n / k + suc (n % k) / k
  suc-div =
      let split : suc n ≡ k * (n / k) + suc (n % k) = omega (arith, div-add-mod n k) in
      ap (λ x. x / k) split ∙ mul-add-div positive (n / k) (suc (n % k))

  turns-suc :
      (j : ℕ) → j < k → turns k j (suc n) ≡ (if n % k == j then suc (turns k j n) else turns k j n)
  turns-suc j inside = elim (Bool-cases (ltb (suc (n % k)) k)) [
    | inl small ↦
        let r : suc n % k ≡ suc (n % k) = suc-mod n k ∙ mod-eq_of_lt (ground (arith, small)) in
        let q : suc n / k ≡ n / k =
          suc-div ∙ ap (◌+◌ (n / k)) (div-eq_of_lt (ground (arith, small))) ∙ omega arith in
        rw (r, q) (ground arith)
    | inr full ↦
        let whole : suc (n % k) ≡ k = ground (arith, full, mod-lt n positive) in
        let r : suc n % k ≡ 0 = suc-mod n k ∙ ap (λ x. x % k) whole ∙ mod_self k in
        let q : suc n / k ≡ n / k + 1 =
          suc-div ∙ ap (λ x. n / k + x / k) whole ∙ ap (◌+◌ (n / k)) (div_self positive) in
        rw (r, q) (ground (arith, whole))
  ]

module _ (topic m : String) (subs : List String) (j : ℕ) (at : get_elem? subs j ≡ some m)
    (once : (i : ℕ) → get_elem? subs i ≡ some m → i ≡ j) where
  owner_turn : (p : ℕ) → is_owner subs m p ≡ (p % length subs == j)
  owner_turn p =
      let (to, from) = owner_cases subs m p in
      elim (Bool-cases (p % length subs == j)) [
        | inl same ↦
            let here : p % length subs ≡ j = (nat_beq_iff (p % length subs) j).0 same in
            from (ap (get_elem? subs) here ∙ at) ∙ sym same
        | inr other ↦ elim (Bool-cases (is_owner subs m p)) [
          | inl mine ↦ absurd (ground (arith, other, once (p % length subs) (to mine)))
          | inr not_mine ↦ not_mine ∙ sym other
        ]
      ]

  length-share :
      (p n : ℕ)
      → length (share topic subs m p n) + turns (length subs) j p ≡ turns (length subs) j (p + n)
  length-share p zero = let e : p + 0 ≡ p = omega arith in rw e (omega arith)
  length-share p (suc n) =
      let inside = get_elem?-lt subs j at in
      let step = turns-suc (length subs) p (omega arith) j inside in
      let later : length (share topic subs m (p + 1) n) + turns (length subs) j (suc p)
          ≡ turns (length subs) j (p + suc n) =
        ap (λ x. length (share topic subs m (p + 1) n) + turns (length subs) j x) (omega arith)
        ∙ length-share (p + 1) n
        ∙ ap (turns (length subs) j) (omega arith) in
      let taken : Bool → ℕ =
        λ b. if b then suc (turns (length subs) j p) else turns (length subs) j p in
      elim (Bool-cases (p % length subs == j)) [
        | inl same ↦ rw (owner_turn p, same) (omega (arith, later, step ∙ ap taken same))
        | inr other ↦ rw (owner_turn p, other) (omega (arith, later, step ∙ ap taken other))
      ]

  -- When the `n` partitions of a topic are assigned to its subscribers, the one with index `j` gets
  -- `n / k` of them, where `k` is the number of subscribers, and one more if `j` is below `n % k`: so
  -- two of them never differ by more than one. What a member had before stays.
  pub assign_partitions-balanced :
      (n : ℕ) (assignments a : Map String TopicPartitionList) (tpl : TopicPartitionList)
      → Map.get m assignments ≡ some tpl
      → assign_partitions topic subs 0 n assignments ≡ ok a
      → (given : List TopicPartitionElem) × (Map.get m a
          ≡ some (record { elements = tpl.elements ++ given }))
        × (length given ≡ n / length subs + (if ltb j (n % length subs) then 1 else 0))
  assign_partitions-balanced n assignments a tpl found h =
      let none_yet : turns (length subs) j 0 ≡ 0 =
        rw (zero-div (length subs), zero-mod (length subs)) (ground arith) in
      let whole : turns (length subs) j (0 + n) ≡ turns (length subs) j n =
        ap (turns (length subs) j) (omega arith) in
      (
        share topic subs m 0 n,
        assign_partitions-share topic m subs 0 n assignments a tpl found h,
        omega (arith, length-share 0 n, none_yet, whole),
      )
