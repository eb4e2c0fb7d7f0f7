-- ===== src/Action/Keeps.antt =====
-- Calls that keep a property of the shared object, whether they succeed or fail.
use rmem_queue.Base.{◌≡◌, refl}
use rmem_queue.Action.{Action, next, ◌>>=◌, pure, reads}
use rmem_queue.Error.{Result, ok, err, panic}

pub record Keeps {S A : Type 0} (P : S → Type 0) (m : Action S A) : Type 0 where
  pub keeps : (s : S) → P s → P (m s).1

module _ {S : Type 0} {P : S → Type 0} where
  next-Keeps :
      {A B : Type 0} (r : Result A) (f : A → Action S B) (s : S)
      → P s
      → ((a : A) → Keeps P (f a))
      → P (next r f s).1
  next-Keeps (ok a) f s h k = (k a).keeps s h
  next-Keeps (err e) f s h k = h
  next-Keeps panic f s h k = h

  pub bind-Keeps :
      {A B : Type 0} {m : Action S A} {f : A → Action S B}
      → Keeps P m
      → ((a : A) → Keeps P (f a))
      → Keeps P (m >>= f)
  bind-Keeps {m = m} {f = f} k l = record {
    keeps = λ s h. next-Keeps (m s).0 f (m s).1 (k.keeps s h) l;
  }

  pub reads-Keeps : {A : Type 0} (f : S → Result A) → Keeps P (reads f)
  reads-Keeps f = record { keeps = λ s h. h }

  pub pure-Keeps : {A : Type 0} (a : A) → Keeps P (pure {S = S} a)
  pure-Keeps a = record { keeps = λ s h. h }

-- What a call returns, if it returns a value.
pub record Yields {S A : Type 0} (P : S → Type 0) (Q : A → Type 0) (m : Action S A) : Type 0 where
  pub yields : (s : S) → P s → (a : A) → (m s).0 ≡ ok a → Q a

module _ {S A B : Type 0} {P : S → Type 0} {Q : A → Type 0} where
  next-Keeps_yielded :
      (r : Result A) (f : A → Action S B) (s : S)
      → P s
      → ((a : A) → r ≡ ok a → Q a)
      → ((a : A) → Q a → Keeps P (f a))
      → P (next r f s).1
  next-Keeps_yielded (ok a) f s h q k = (k a (q a refl)).keeps s h
  next-Keeps_yielded (err e) f s h q k = h
  next-Keeps_yielded panic f s h q k = h

  pub bind-Keeps_yielded :
      {m : Action S A} {f : A → Action S B}
      → Keeps P m
      → Yields P Q m
      → ((a : A) → Q a → Keeps P (f a))
      → Keeps P (m >>= f)
  bind-Keeps_yielded {m} {f} k q l = record {
    keeps = λ s h. next-Keeps_yielded (m s).0 f (m s).1 (k.keeps s h) (q.yields s h) l;
  }
