-- ===== src/Regex/Language.antt =====
-- The language of a pattern, and lemmas on what the matcher accepts.
use h11_py.Prelude.{
  ℕ, zero, suc, Bool, true, false, Option, none, some, [], ◌∷◌, ◌++◌, ltb, length, ◌≡◌, refl, sym,
  ap, ◌∙◌, ◌⊎◌, inl, inr, Bool-cases, Option-cases,
}
use h11_py.Bytes.{Bytes}
use h11_py.Regex.{
  Regex, nothing, class, seq, alt, star, group, Groups, Cont, between, star_loop, run, at_end,
  fullmatch,
}
use mathlib.Core.Path.{subst}
use mathlib.Core.List.{append_assoc, append-nil}

pub data Star (P : Bytes → Type 0) : Bytes → Type 0 where
  stop : Star P []
  more : {w : Bytes} (u v : Bytes) → w ≡ u ++ v → P u → Star P v → Star P w

abbrev pub Matches : Regex → Bytes → Type 0
Matches nothing w = w ≡ []
Matches (class p) w = (c : ℕ) × (w ≡ c ∷ []) × (p c ≡ true)
Matches (seq a b) w = (u : Bytes) × (v : Bytes) × (w ≡ u ++ v) × Matches a u × Matches b v
Matches (alt a b) w = Matches a w ⊎ Matches b w
Matches (star a) w = Star (Matches a) w
Matches (group name a) w = Matches a w

module _ {R : Type 0} where
  -- A word of `P` was read off `s`, and `k` made `x` of the rest.
  abbrev Found : (Bytes → Type 0) → Cont R → Bytes → R → Type 0
  Found P k s x = (u : Bytes) × (v : Bytes) × (s ≡ u ++ v) × P u × ((g : Groups) × (k v g ≡ some x))

  abbrev IsSound : (Cont R → Cont R) → (Bytes → Type 0) → Type 0
  IsSound f P = (k : Cont R) (s : Bytes) (g : Groups) (x : R) → f k s g ≡ some x → Found P k s x

  class_sound : (p : ℕ → Bool) → IsSound (run (class p)) (Matches (class p))
  unfolding run
  class_sound p k [] g x h = cc
  class_sound p k (c ∷ s) g x h = elim (Bool-cases (p c)) [
    | inl e ↦ (c ∷ [], s, refl, (c, refl, e), (g, rw (e, star_loop) at h))
    | inr e ↦ let h' = rw e at h in cc
  ]

  -- Two words read one after the other.
  joined :
      (P : Bytes → Type 0) {Q : Bytes → Type 0} (k : Cont R) {s : Bytes} (u : Bytes) {v : Bytes}
      (x : R)
      → s ≡ u ++ v
      → ((w : Bytes) → Q w → P (u ++ w))
      → Found Q k v x
      → Found P k s x
  joined P k u x e put (w, rest, e', m, found) =
      (u ++ w, rest, e ∙ ap (λ r. u ++ r) e' ∙ sym (append_assoc u w rest), put w m, found)

  taken :
      (b : Bool) (o : Option R) {r : R} → elim b [ true ↦ o | false ↦ none ] ≡ some r → o ≡ some r
  taken true o h = h
  taken false o h = cc

  star_loop_sound :
      (f : Cont R → Cont R) (P : Bytes → Type 0)
      → IsSound f P
      → (n : ℕ) → IsSound (star_loop f n) (Star P)
  unfolding star_loop
  star_loop_sound f P sound zero k s g x h = ([], s, refl, stop, (g, h))
  star_loop_sound f P sound (suc n) k s g x h = elim (Option-cases (f next s g)) [
    | inl e ↦ ([], s, refl, stop, (g, rw (e, star_loop) at h))
    | inr (r, e) ↦
        let (u, v, c, m, (g', h')) = sound next s g r e in
        let read = taken (ltb (length v) (length s)) (star_loop f n k v g') h' in
        joined (Star P) k u x c (λ w st. more u w refl m st)
          (star_loop_sound f P sound n k v g' x (read ∙ (rw (e, star_loop) at h)))
  ]
    where
      next : Cont R
      next s' g' = elim (ltb (length s') (length s)) [ true ↦ star_loop f n k s' g' | false ↦ none ]

  run_sound : (a : Regex) → IsSound (run a) (Matches a)
  unfolding run
  run_sound nothing k s g x h = ([], s, refl, refl, (g, h))
  run_sound (class p) k s g x h = class_sound p k s g x h
  run_sound (seq a b) k s g x h =
      let (u, v, c, m, (g', h')) = run_sound a (run b k) s g x h in
      joined (Matches (seq a b)) k u x c (λ w n. (u, w, refl, m, n)) (run_sound b k v g' x h')
  run_sound (alt a b) k s g x h = elim (Option-cases (run a k s g)) [
    | inl e ↦ let (u, v, c, m, found) = run_sound b k s g x (rw e at h) in (u, v, c, inr m, found)
    | inr (r, e) ↦
        let (u, v, c, m, found) = run_sound a k s g x (e ∙ (rw e at h)) in (u, v, c, inl m, found)
  ]
  run_sound (star a) k s g x h =
      star_loop_sound (run a) (Matches a) (run_sound a) (length s) k s g x h
  run_sound (group name a) k s g x h =
      let (u, v, c, m, (g', h')) =
        run_sound a (λ s' g'. k s' ((name, between s s') ∷ g')) s g x h in
      (u, v, c, m, ((name, between s v) ∷ g', h'))

-- What the matcher accepts is a word of the pattern.
pub fullmatch-Matches : (a : Regex) (s : Bytes) {g : Groups} → fullmatch a s ≡ some g → Matches a s
unfolding fullmatch
fullmatch-Matches a s {g} h = whole a s (run_sound a at_end s [] g h)
  where
    whole : {x : Groups} (a : Regex) (s : Bytes) → Found (Matches a) at_end s x → Matches a s
    whole a s (u, [], c, m, found) = subst (Matches a) (sym (c ∙ append-nil u)) m
    whole a s (u, b ∷ v, c, m, (g, h)) = cc
