-- ===== src/Action.antt =====
-- Calls on a shared object that may fail: the object comes back beside the result, since what was
-- written before a failure stays written.
pub mod Keeps
use rmem_queue.Error.{Result, ok, err, panic}

abbrev pub Action {ℓ} : Type ℓ → Type ℓ → Type ℓ
Action S A = S → Result A × S

module _ {ℓ} {S A B : Type ℓ} where
  abbrev pub next : Result A → (A → Action S B) → Action S B
  next (ok a) f s = f a s
  next (err e) f s = (err e, s)
  next panic f s = (panic, s)

  infixl 5 ◌>>=◌ ◌>>◌
  abbrev pub ◌>>=◌ : Action S A → (A → Action S B) → Action S B
  ◌>>=◌ m f s = next (m s).0 f (m s).1

  abbrev pub ◌>>◌ : Action S A → Action S B → Action S B
  m >> k = m >>= λ _. k

module _ {ℓ} {S A : Type ℓ} where
  abbrev pub pure : A → Action S A
  pure a s = (ok a, s)

  abbrev pub lift : Result A → Action S A
  lift r s = (r, s)

  -- A call that only reads the object.
  abbrev pub reads : (S → Result A) → Action S A
  reads f s = (f s, s)
