-- ===== src/Util/Validate.antt =====
-- `validate` of h11/_util.py and the language of its pattern.
use h11_py.Prelude.{String, ◌≡◌, refl, ◌↔◌, inl, inr, Option-cases}
use h11_py.Bytes.{Bytes}
use h11_py.Regex.{Regex, Groups, fullmatch}
use h11_py.Regex.Language.{Matches}
use h11_py.Regex.Complete.{fullmatch_iff}
use h11_py.Util.{local_error, ok, raise, validate}

-- `validate` returns groups for the words of the pattern, and raises a LocalProtocolError with its
-- message for all other data.
pub validate_lem :
    (r : Regex) (s : Bytes) (msg : String)
    → (((g : Groups) × (validate r s msg ≡ ok g)) ↔ Matches r s)
      × ((validate r s msg ≡ raise (local_error msg)) ↔ (¬ (Matches r s)))
unfolding validate
validate_lem r s msg = elim (Option-cases (fullmatch r s)) [
  | inl e ↦
      let refuses : ¬ (Matches r s) = λ m. let q = (fullmatch_iff r s).1 m in cc in
      rw e ((λ q. cc, λ m. absurd (refuses m)), (λ h. refuses, λ h. refl))
  | inr (g, e) ↦
      let m = (fullmatch_iff r s).0 (g, e) in
      rw e ((λ q. m, λ m'. (g, refl)), (λ h. cc, λ no. absurd (no m)))
]
