-- ===== src/Assignor/Names.antt =====
-- Which partitions a member's list names.
use rmem_queue.Base.{
  ℕ, zero, suc, ◌+◌, pos, String, ◌≡◌, refl, ap, Bool, ◌&&◌, ◌||◌, List, [], ◌∷◌, ◌++◌, any, ◌==◌,
  ltb, leb, int_eq, nat_eq, nat_beq_iff, string_eq, Bool-cases, inl, inr, arith,
}
use rmem_queue.Assignor.Share.{is_owner, share}
use rmem_queue.TopicPartition.{TopicPartitionElem}

-- The list names partition `q` of topic `t`.
abbrev pub names : List TopicPartitionElem → String → ℕ → Bool
names elems t q = any (λ (e : TopicPartitionElem). e.topic == t && e.partition == pos q) elems

pub names-append :
    (xs ys : List TopicPartitionElem) (t : String) (q : ℕ)
    → names (xs ++ ys) t q ≡ names xs t q || names ys t q
names-append [] ys t q = refl
names-append (x ∷ xs) ys t q = ground (arith, names-append xs ys t q)

pub share-names :
    (topic m : String) (subs : List String) (t : String) (q p n : ℕ)
    → names (share topic subs m p n) t q
      ≡ (topic == t) && (leb p q && (ltb q (p + n) && is_owner subs m q))
share-names topic m subs t q p zero = ground arith
share-names topic m subs t q p (suc n) = elim (Bool-cases (p == q)) [
  | inl here ↦
      let e : p ≡ q = (nat_beq_iff p q).0 here in
      ground (arith, share-names topic m subs t q (p + 1) n, e, ap (is_owner subs m) e)
  | inr other ↦ ground (arith, share-names topic m subs t q (p + 1) n, other)
]
