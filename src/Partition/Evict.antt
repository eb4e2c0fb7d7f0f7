-- ===== src/Partition/Evict.antt =====
-- The eviction pass: it drops the shortest prefix after which no policy objects to the front.
use rmem_queue.Base.{
  ℕ, zero, suc, ◌≤◌, ◌<◌, ◌≡◌, refl, inl, inr, Bool, true, false, some, List, [], ◌∷◌, ◌++◌, arith,
  any, length, drop, Bool-cases,
}
use rmem_queue.Message.{StoredMessage}
use rmem_queue.Partition.{
  EvictionPolicy, time_eviction, capacity_eviction, policy_of, should_evict, evict_log,
  PartitionConfig, build_policies,
}

-- Some policy wants the front of the log gone; an empty log has no front.
unfoldable pub is_evictable : List EvictionPolicy → ℕ → List StoredMessage → Bool
is_evictable policies now [] = false
is_evictable policies now (front ∷ rest) =
    any (λ p. should_evict p now (suc (length rest)) front) policies

pub record IsLeastDrop (policies : List EvictionPolicy) (now : ℕ) (log : List StoredMessage) (k : ℕ)
    : Type 0 where
  pub within : k ≤ length log
  pub result : evict_log policies now log ≡ drop k log
  pub due : (i : ℕ) → i < k → is_evictable policies now (drop i log) ≡ true
  pub done : is_evictable policies now (drop k log) ≡ false

IsLeastDrop-suc :
    (policies : List EvictionPolicy) (now : ℕ) (m : StoredMessage) (ms : List StoredMessage) (k : ℕ)
    → is_evictable policies now (m ∷ ms) ≡ true
    → IsLeastDrop policies now ms k
    → IsLeastDrop policies now (m ∷ ms) (suc k)
unfolding evict_log is_evictable
IsLeastDrop-suc policies now m ms k e d = record {
  within = omega (arith, d.within);
  result = rw (e, evict_log) d.result;
  due = elim [ zero ↦ (λ h. e) | suc i ↦ (λ h. d.due i (omega arith)) ];
  done = d.done;
}

-- The pass ends, and drops the shortest prefix after which no policy wants the front gone.
pub evict_log_least :
    (policies : List EvictionPolicy) (now : ℕ) (log : List StoredMessage)
    → (k : ℕ) × IsLeastDrop policies now log k
unfolding evict_log is_evictable
evict_log_least policies now [] = (
  0,
  record { within = omega arith; result = refl; due = λ i h. absurd (omega arith); done = refl },
)
evict_log_least policies now (m ∷ ms) = elim (Bool-cases (is_evictable policies now (m ∷ ms))) [
  | inl e ↦
      let (k, d) = evict_log_least policies now ms in
      (suc k, IsLeastDrop-suc policies now m ms k e d)
  | inr e ↦ (
    0,
    record {
      within = omega arith;
      result = rw (e, evict_log);
      due = λ i h. absurd (omega arith);
      done = e;
    },
  )
]

any_capacity :
    (policies : List EvictionPolicy) (c now len : ℕ) (m : StoredMessage)
    → any (λ p. should_evict p now len m) (policies ++ capacity_eviction c ∷ []) ≡ false
    → len ≤ c
unfolding should_evict
any_capacity [] c now len m h = ground arith
any_capacity (p ∷ ps) c now len m h = ground (arith, any_capacity ps c now len m)

not_evictable-le :
    (policies : List EvictionPolicy) (c now : ℕ) (log : List StoredMessage)
    → is_evictable (policies ++ capacity_eviction c ∷ []) now log ≡ false
    → length log ≤ c
unfolding is_evictable
not_evictable-le policies c now [] h = omega arith
not_evictable-le policies c now (m ∷ ms) h = any_capacity policies c now (suc (length ms)) m h

-- With `retention_capacity` set the pass leaves at most that many messages.
pub evict_log_capacity :
    (config : PartitionConfig) (c now : ℕ) (log : List StoredMessage)
    → config.retention_capacity ≡ some c
    → length (evict_log (build_policies config) now log) ≤ c
unfolding build_policies
evict_log_capacity config c now log e =
    let ps = policy_of time_eviction config.retention_ms ++ capacity_eviction c ∷ [] in
    let (k, d) = evict_log_least ps now log in
    rw e (
      rw d.result
        (not_evictable-le (policy_of time_eviction config.retention_ms) c now (drop k log) d.done))
