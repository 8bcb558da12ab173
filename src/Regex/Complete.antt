-- ===== src/Regex/Complete.antt =====
-- The matcher of a pattern on the words of its language.
use h11_py.Prelude.{
  ℕ, zero, suc, ◌≤◌, Bool, true, false, Option, none, some, [], ◌∷◌, ◌++◌, ltb, length, ◌≡◌, refl,
  sym, ap, ◌∙◌, ◌↔◌, inl, inr, arith, length-append,
}
use mathlib.Core.Path.{subst}
use mathlib.Core.List.{append_assoc, append-nil}
use h11_py.Bytes.{Bytes}
use h11_py.Regex.{
  Regex, nothing, class, seq, alt, star, group, Groups, Cont, between, star_loop, run, at_end,
  fullmatch,
}
use h11_py.Regex.Language.{Star, stop, more, Matches, fullmatch-Matches}

module _ {R : Type 0} where
  abbrev Succeeds : Cont R → Bytes → Type 0
  Succeeds k s = (g : Groups) → (x : R) × (k s g ≡ some x)

  abbrev IsComplete : (Cont R → Cont R) → (Bytes → Type 0) → Type 0
  IsComplete f P = (k : Cont R) (u v : Bytes) → P u → Succeeds k v → Succeeds (f k) (u ++ v)

  some_case :
      (o other : Option R)
      → ((x : R) × (other ≡ some x))
      → (x : R) × (elim o [ some r ↦ some r | none ↦ other ] ≡ some x)
  some_case none other s = s
  some_case (some r) other s = (r, refl)

  star_loop-stop :
      (f : Cont R → Cont R) (n : ℕ) (k : Cont R) (s : Bytes)
      → Succeeds k s
      → Succeeds (star_loop f n k) s
  unfolding star_loop
  star_loop-stop f zero k s h g = h g
  star_loop-stop f (suc n) k s h g = some_case _ (k s g) (h g)

  taken :
      (b : Bool) (o : Option R) {r : R}
      → b ≡ true
      → o ≡ some r
      → elim b [ true ↦ o | false ↦ none ] ≡ some r
  taken true o e h = h
  taken false o e h = cc

  -- One more round, which reads something.
  star_loop-more :
      (f : Cont R → Cont R) (P : Bytes → Type 0)
      → IsComplete f P
      → (n : ℕ) (k : Cont R) (c : ℕ) (u rest : Bytes) → P (c ∷ u)
      → Succeeds (star_loop f n k) rest
      → Succeeds (star_loop f (suc n) k) ((c ∷ u) ++ rest)
  unfolding star_loop
  star_loop-more f P complete n k c u rest p h g =
      let (x, e) = complete next (c ∷ u) rest p again g in (x, rw (e, star_loop))
    where
      next : Cont R
      next s' g' = elim (ltb (length s') (length ((c ∷ u) ++ rest))) [
        | true ↦ star_loop f n k s' g'
        | false ↦ none
      ]

      less : ltb (length rest) (length ((c ∷ u) ++ rest)) ≡ true
      less = let l = length-append u rest in ground arith

      again : Succeeds next rest
      again g' = let (x, e) = h g' in (x, taken _ (star_loop f n k rest g') less e)

  star_loop_complete :
      (f : Cont R → Cont R) (P : Bytes → Type 0)
      → IsComplete f P
      → (n : ℕ) (k : Cont R) (u v : Bytes) → length (u ++ v) ≤ n
      → Star P u
      → Succeeds k v
      → Succeeds (star_loop f n k) (u ++ v)
  star_loop_complete f P complete n k u v l stop h g = star_loop-stop f n k v h g
  star_loop_complete f P complete n k w rest l (more [] v e p st) h g =
      subst (λ r. Succeeds (star_loop f n k) (r ++ rest)) (sym e)
        (star_loop_complete f P complete n k v rest (subst (λ r. length (r ++ rest) ≤ n) e l) st h)
        g
  star_loop_complete f P complete zero k w rest l (more (c ∷ u) v e p st) h g =
      absurd (omega (arith, subst (λ r. length (r ++ rest) ≤ 0) e l))
  star_loop_complete f P complete (suc n) k w rest l (more (c ∷ u) v e p st) h g =
      let whole = ap (λ r. r ++ rest) e ∙ append_assoc (c ∷ u) v rest in
      let short = subst (λ r. length r ≤ suc n) whole l in
      let bound : length (v ++ rest) ≤ n = omega (arith, length-append u (v ++ rest)) in
      subst (λ r. (x : R) × (star_loop f (suc n) k r g ≡ some x)) (sym whole)
        (star_loop-more f P complete n k c u (v ++ rest) p
          (star_loop_complete f P complete n k v rest bound st h) g)

  class_complete : (p : ℕ → Bool) → IsComplete (run (class p)) (Matches (class p))
  unfolding run
  class_complete p k u v (c, e, m) h g =
      let (x, e') = h g in
      subst (λ w. (x : R) × (run (class p) k (w ++ v) g ≡ some x)) (sym e)
        (x, taken (p c) (k v g) m e')

  left_case :
      (o other : Option R) {x : R}
      → o ≡ some x
      → (x : R) × (elim o [ some r ↦ some r | none ↦ other ] ≡ some x)
  left_case (some r) other h = (r, refl)
  left_case none other h = cc

  run_complete : (a : Regex) → IsComplete (run a) (Matches a)
  unfolding run
  run_complete nothing k u v m h g = subst (λ w. Succeeds k (w ++ v)) (sym m) h g
  run_complete (class p) k u v m h g = class_complete p k u v m h g
  run_complete (seq a b) k w v (w1, w2, e, m, n) h g =
      subst (λ r. (x : R) × (run (seq a b) k r g ≡ some x))
        (sym (ap (λ r. r ++ v) e ∙ append_assoc w1 w2 v))
        (run_complete a (run b k) w1 (w2 ++ v) m (run_complete b k w2 v n h) g)
  run_complete (alt a b) k u v (inl m) h g =
      let (x, e) = run_complete a k u v m h g in left_case _ (run b k (u ++ v) g) e
  run_complete (alt a b) k u v (inr m) h g =
      some_case _ (run b k (u ++ v) g) (run_complete b k u v m h g)
  run_complete (star a) k u v m h g =
      star_loop_complete (run a) (Matches a) (run_complete a) (length (u ++ v)) k u v (omega arith)
        m h g
  run_complete (group name a) k u v m h g =
      run_complete a (λ s' g'. k s' ((name, between (u ++ v) s') ∷ g')) u v m (λ g'. h _) g

-- The matcher accepts exactly the words of the pattern.
pub fullmatch_iff :
    (a : Regex) (s : Bytes) → ((g : Groups) × (fullmatch a s ≡ some g)) ↔ Matches a s
unfolding fullmatch
fullmatch_iff a s = (
  λ q. fullmatch-Matches a s q.1,
  λ m.
      subst (λ r. (g : Groups) × (fullmatch a r ≡ some g)) (append-nil s)
        (run_complete a at_end s [] m (λ g. (g, refl)) []),
)
