-- ===== src/Regex/Greedy.antt =====
-- Lemmas on greedy repetition of a class.
use h11_py.Prelude.{
  ℕ, zero, suc, ◌≤◌, Bool, true, false, some, [], ◌∷◌, ◌++◌, ltb, length, take, ◌≡◌, ap, ◌∙◌, arith,
  length-append, take-length_append,
}
use h11_py.Bytes.{Bytes}
use h11_py.Regex.{class, Groups, Cont, between, star_loop, run, any_of, some_of, at_most}

abbrev pub AllIn : (ℕ → Bool) → Bytes → Type 0
AllIn p [] = Unit
AllIn p (c ∷ s) = (p c ≡ true) × AllIn p s

-- The bytes of the class end here.
abbrev pub Stops : (ℕ → Bool) → Bytes → Type 0
Stops p [] = Unit
Stops p (c ∷ s) = p c ≡ false

pub between-append : (w rest : Bytes) → between (w ++ rest) rest ≡ w
between-append w rest =
    ap (λ n. take n (w ++ rest)) (omega (arith, length-append w rest)) ∙ take-length_append w rest

lt_suc : (n : ℕ) → ltb n (suc n) ≡ true
lt_suc n = ground arith

module _ {R : Type 0} (p : ℕ → Bool) where
  star_loop-class :
      (n : ℕ) (w rest : Bytes) (k : Cont R) (g : Groups) {r : R}
      → length w ≤ n
      → AllIn p w
      → Stops p rest
      → k rest g ≡ some r
      → star_loop (run (class p)) n k (w ++ rest) g ≡ some r
  unfolding run
  star_loop-class zero [] rest k g l h s e = e
  star_loop-class zero (c ∷ w) rest k g l h s e = absurd (omega arith)
  star_loop-class (suc n) [] [] k g l h s e = e
  star_loop-class (suc n) [] (c ∷ rest) k g l h s e = rw s e
  star_loop-class (suc n) (c ∷ w) rest k g l h s e =
      rw (h.0, lt_suc (length (w ++ rest)), star_loop-class n w rest k g (omega arith) h.1 s e)

  pub run-any_of :
      (w rest : Bytes) (k : Cont R) (g : Groups) {r : R}
      → AllIn p w
      → Stops p rest
      → k rest g ≡ some r
      → run (any_of p) k (w ++ rest) g ≡ some r
  unfolding run
  run-any_of w rest k g h s e =
      star_loop-class (length (w ++ rest)) w rest k g (omega (arith, length-append w rest)) h s e

  pub run-some_of :
      (c : ℕ) (w rest : Bytes) (k : Cont R) (g : Groups) {r : R}
      → AllIn p (c ∷ w)
      → Stops p rest
      → k rest g ≡ some r
      → run (some_of p) k (c ∷ (w ++ rest)) g ≡ some r
  unfolding run
  run-some_of c w rest k g h s e = rw h.0 (unfold run in run-any_of w rest k g h.1 s e)

  pub run-at_most :
      (n : ℕ) (w rest : Bytes) (k : Cont R) (g : Groups) {r : R}
      → length w ≤ n
      → AllIn p w
      → Stops p rest
      → k rest g ≡ some r
      → run (at_most n (class p)) k (w ++ rest) g ≡ some r
  unfolding run
  run-at_most zero [] rest k g l h s e = e
  run-at_most zero (c ∷ w) rest k g l h s e = absurd (omega arith)
  run-at_most (suc n) [] [] k g l h s e = e
  run-at_most (suc n) [] (c ∷ rest) k g l h s e = rw s e
  run-at_most (suc n) (c ∷ w) rest k g l h s e =
      rw (h.0, run-at_most n w rest k g (omega arith) h.1 s e)
