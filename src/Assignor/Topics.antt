-- ===== src/Assignor/Topics.antt =====
-- The topics that members are subscribed to, and the order in which the assignor takes them.
use rmem_queue.Base.{
  zero, suc, String, ◌≡◌, refl, ap, Bool, true, ◌||◌, some, List, [], ◌∷◌, ◌++◌, get_elem?, retain,
  ◌==◌, string_eq, Bool-cases, inl, inr, arith, ℕ,
}
use rmem_queue.Assignor.{dedup, concat}
use rmem_queue.Assignor.Only.{has}
use rmem_queue.Base.Map
use rmem_queue.Base.Map.{Map}

-- The iteration order of a set of topics: the same topics.
pub record IsOrder (order : List String → List String) : Type 0 where
  pub same : (topics : List String) (t : String) → has t (order topics) ≡ has t topics

pub retain-satisfies :
    (p : String → Bool) (xs : List String) (i : ℕ) {x : String}
    → get_elem? (retain p xs) i ≡ some x
    → p x ≡ true
retain-satisfies p [] i h = cc
retain-satisfies p (y ∷ ys) zero h = elim (Bool-cases (p y)) [
  | inl e ↦ ground (arith, h, e)
  | inr e ↦ retain-satisfies p ys zero (rw e at h)
]
retain-satisfies p (y ∷ ys) (suc i) h = elim (Bool-cases (p y)) [
  | inl e ↦ retain-satisfies p ys i (rw e at h)
  | inr e ↦ retain-satisfies p ys (suc i) (rw e at h)
]

has-append : (t : String) (xs ys : List String) → has t (xs ++ ys) ≡ has t xs || has t ys
has-append t [] ys = refl
has-append t (x ∷ xs) ys = ground (arith, has-append t xs ys)

pub has-dedup : (t : String) (xs : List String) → has t (dedup xs) ≡ has t xs
unfolding dedup
has-dedup t [] = refl
has-dedup t (x ∷ xs) = elim (Bool-cases (x == t)) [
  | inl same ↦
      ground (arith, has-dedup t xs, same, ap (λ y. has y xs) ((string_eq.beq_iff x t).0 same))
  | inr other ↦ ground (arith, has-dedup t xs, other)
]

pub has-values :
    (m t : String) (topics : List String) (member_topics : Map String (List String))
    → Map.get m member_topics ≡ some topics
    → has t topics ≡ true
    → has t (concat (Map.values member_topics)) ≡ true
unfolding Map.get
has-values m t topics [] found h = cc
has-values m t topics ((k, ts) ∷ rest) found h =
    ground (arith, has-append t ts (concat (Map.values rest)), has-values m t topics rest, found, h)
