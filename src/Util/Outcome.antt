-- ===== src/Util/Outcome.antt =====
-- What a call that may raise returns or raises, in one predicate.
use h11_py.Prelude.{String, Bool, true, false, ◌≡◌, refl, inl, inr, Option-cases}
use mathlib.Core.Path.{subst}
use h11_py.Bytes.{Bytes}
use h11_py.Regex.{Regex, fullmatch}
use h11_py.Util.{Exn, local_protocol_error, Result, ok, raise, ◌>>=◌, require, validate}

abbrev pub IsLocal : Exn → Type 0
IsLocal (local_protocol_error _ _) = Unit
IsLocal _ = ⊥

abbrev pub Outcome {ℓ} : {A : Type ℓ} → (A → Type 0) → (Exn → Type 0) → Result A → Type 0
Outcome P E (ok a) = P a
Outcome P E (raise e) = E e

-- No exception but a LocalProtocolError.
abbrev pub OnlyLocal {ℓ} : {A : Type ℓ} → Result A → Type 0
OnlyLocal m = Outcome (λ _. Unit) IsLocal m

pub bind-Outcome :
    {A B : Type 0} (P : A → Type 0) (Q : B → Type 0) (E : Exn → Type 0) (m : Result A)
    (f : A → Result B)
    → Outcome P E m
    → ((a : A) → P a → Outcome Q E (f a))
    → Outcome Q E (m >>= f)
bind-Outcome P Q E (ok a) f p h = h a p
bind-Outcome P Q E (raise e) f p h = p

pub then-OnlyLocal :
    {A B : Type 0} (m : Result A) (f : A → Result B)
    → OnlyLocal m
    → ((a : A) → OnlyLocal (f a))
    → OnlyLocal (m >>= f)
then-OnlyLocal (ok a) f p h = h a
then-OnlyLocal (raise e) f p h = p

-- The two halves of an outcome.
pub join-Outcome :
    {A : Type 0} (P : A → Type 0) (E : Exn → Type 0) (m : Result A)
    → ((a : A) → m ≡ ok a → P a)
    → Outcome (λ _. Unit) E m
    → Outcome P E m
join-Outcome P E (ok a) p e = p a refl
join-Outcome P E (raise x) p e = e

pub Outcome-eq-raise :
    {A : Type 0} (P : A → Type 0) (E : Exn → Type 0) (m : Result A) (e : Exn)
    → m ≡ raise e
    → Outcome P E m
    → E e
Outcome-eq-raise P E m e h p = subst (Outcome P E) h p

pub Outcome-eq-ok :
    {A : Type 0} (P : A → Type 0) (E : Exn → Type 0) (m : Result A) (a : A)
    → m ≡ ok a
    → Outcome P E m
    → P a
Outcome-eq-ok P E m a h p = subst (Outcome P E) h p

pub require-OnlyLocal : (b : Bool) (e : Exn) → IsLocal e → OnlyLocal (require b e)
require-OnlyLocal true e h = tt
require-OnlyLocal false e h = h

pub validate-OnlyLocal : (r : Regex) (s : Bytes) (msg : String) → OnlyLocal (validate r s msg)
unfolding validate
validate-OnlyLocal r s msg = elim (Option-cases (fullmatch r s)) [
  | inl e ↦ rw e tt
  | inr (g, e) ↦ rw e tt
]

pub validate-IsLocal :
    (r : Regex) (s : Bytes) (msg : String) {e : Exn} → validate r s msg ≡ raise e → IsLocal e
validate-IsLocal r s msg {e} h =
    Outcome-eq-raise (λ _. Unit) IsLocal (validate r s msg) e h (validate-OnlyLocal r s msg)
