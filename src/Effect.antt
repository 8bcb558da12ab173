-- ===== src/Effect.antt =====
-- How the development writes methods that change an object and may raise.
pub mod Ends
use h11_py.Prelude.{Bool, true, false}
use h11_py.Util.{Exn, assertion_error, Result, ok, raise}

-- Code that changes an object of type `S` and may raise. What was changed before an exception stays
-- changed after it.
abbrev pub Eff : Type 0 → Type 0 → Type 0
Eff S A = S → Result A × S

module _ {S : Type 0} where
  abbrev pub return : {A : Type 0} → A → Eff S A
  return a s = (ok a, s)

  abbrev pub throw : {A : Type 0} → Exn → Eff S A
  throw e s = (raise e, s)

  abbrev pub then_do : {A B : Type 0} → Result A × S → (A → Eff S B) → Result B × S
  then_do (ok a, s) f = f a s
  then_do (raise e, s) f = (raise e, s)

  infixl 5 ◌>>=◌ ◌>>◌
  abbrev pub ◌>>=◌ : {A B : Type 0} → Eff S A → (A → Eff S B) → Eff S B
  ◌>>=◌ m f s = then_do (m s) f

  abbrev pub ◌>>◌ : {B : Type 0} → Eff S (Unit {0}) → Eff S B → Eff S B
  m >> k = m >>= λ _. k

  -- `assert b`
  abbrev pub assert : Bool → Eff S (Unit {0})
  assert true s = (ok tt, s)
  assert false s = (raise assertion_error, s)

  abbrev pub modify : (S → S) → Eff S (Unit {0})
  modify f s = (ok tt, f s)

  -- A computation that changes nothing.
  abbrev pub lift : {A : Type 0} → Result A → Eff S A
  lift r s = (r, s)

  abbrev pub get : Eff S S
  get s = (ok s, s)

-- A predicate on the object that the first part establishes and the rest keeps.
pub then_do_keeps :
    {S A B : Type 0} (P : S → Type 0) (m : Result A × S) (f : A → Eff S B)
    → P m.1
    → ((a : A) (s : S) → P s → P (f a s).1)
    → P (then_do m f).1
then_do_keeps P (ok a, s) f p keep = keep a s p
then_do_keeps P (raise e, s) f p keep = p
