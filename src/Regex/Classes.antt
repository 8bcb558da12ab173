-- ===== src/Regex/Classes.antt =====
-- The words of a repeated class.
use h11_py.Prelude.{ℕ, Bool, true, false, [], ◌∷◌, ◌++◌, ◌≡◌, refl, sym, ap, ◌∙◌}
use mathlib.Core.Path.{subst}
use h11_py.Bytes.{Bytes, is_empty}
use h11_py.Regex.{class, some_of}
use h11_py.Regex.Greedy.{AllIn}
use h11_py.Regex.Language.{Star, stop, more, Matches}

module _ (p : ℕ → Bool) where
  cons-AllIn :
      (c : ℕ) (w u v : Bytes) → u ≡ c ∷ [] → w ≡ u ++ v → p c ≡ true → AllIn p v → AllIn p w
  cons-AllIn c w u v e e' h a = subst (AllIn p) (sym (e' ∙ ap (λ r. r ++ v) e)) (h, a)

  Star-AllIn : {w : Bytes} → Star (Matches (class p)) w → AllIn p w
  Star-AllIn stop = tt
  Star-AllIn {w} (more u v e (c, e', h) st) = cons-AllIn c w u v e' e h (Star-AllIn st)

  -- A word of `[...]+` is not empty, and all its bytes are of the class.
  pub some_of-AllIn : (w : Bytes) → Matches (some_of p) w → AllIn p w × (is_empty w ≡ false)
  some_of-AllIn w (u, v, e, (c, e', h), st) =
      (cons-AllIn c w u v e' e h (Star-AllIn st), rw (e, e'))

  Star-AllIn_back : (w : Bytes) → AllIn p w → Star (Matches (class p)) w
  Star-AllIn_back [] a = stop
  Star-AllIn_back (c ∷ w) a = more (c ∷ []) w refl (c, refl, a.0) (Star-AllIn_back w a.1)

  -- And a word that is not empty and all of the class is one of `[...]+`.
  pub some_of-Matches : (w : Bytes) → AllIn p w → is_empty w ≡ false → Matches (some_of p) w
  some_of-Matches [] a e = cc
  some_of-Matches (c ∷ w) a e = (c ∷ [], w, refl, (c, refl, a.0), Star-AllIn_back w a.1)
