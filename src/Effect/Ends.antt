-- ===== src/Effect/Ends.antt =====
-- What code that changes an object returns or raises, and what it leaves, in one predicate.
use h11_py.Util.{Exn, Result, ok, raise}
use h11_py.Util.Outcome.{Outcome}
use h11_py.Effect.{Eff, then_do}

module _ {S : Type 0} where
  abbrev pub Ends : {A : Type 0} → (A → S → Type 0) → (Exn → S → Type 0) → Result A × S → Type 0
  Ends P E (ok a, s) = P a s
  Ends P E (raise e, s) = E e s

  pub then-Ends :
      {A B : Type 0} (P : A → S → Type 0) (Q : B → S → Type 0) (E : Exn → S → Type 0)
      (m : Result A × S) (f : A → Eff S B)
      → Ends P E m
      → ((a : A) (s : S) → P a s → Ends Q E (f a s))
      → Ends Q E (then_do m f)
  then-Ends P Q E (ok a, s) f p h = h a s p
  then-Ends P Q E (raise e, s) f p h = p

  -- A computation that leaves the object alone.
  pub lift-Ends :
      {A : Type 0} (P : A → Type 0) (E : Exn → Type 0) (I : S → Type 0) (m : Result A) (s : S)
      → Outcome P E m
      → I s
      → Ends (λ a t. P a × I t) (λ e t. E e × I t) (m, s)
  lift-Ends P E I (ok a) s p i = (p, i)
  lift-Ends P E I (raise e) s p i = (p, i)

  pub weaken-Ends :
      {A : Type 0} (P Q : A → S → Type 0) (E F : Exn → S → Type 0) (m : Result A × S)
      → ((a : A) (s : S) → P a s → Q a s)
      → ((x : Exn) (s : S) → E x s → F x s)
      → Ends P E m
      → Ends Q F m
  weaken-Ends P Q E F (ok a, s) p e h = p a s h
  weaken-Ends P Q E F (raise x, s) p e h = e x s h

  pub anyhow : {A : Type 0} (m : Result A × S) → Ends (λ _ _. Unit) (λ _ _. Unit) m
  anyhow (ok a, s) = tt
  anyhow (raise x, s) = tt
