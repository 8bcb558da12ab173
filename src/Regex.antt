-- ===== src/Regex.antt =====
-- Python's `re` as h11 uses it: byte patterns with classes, sequences, choices, repetition and named
-- groups, matched greedily with backtracking.
pub mod Greedy
pub mod Language
pub mod Complete
pub mod Classes
use h11_py.Prelude.{
  ℕ, zero, suc, ◌-◌, String, Bool, true, false, Option, none, some, List, [], ◌∷◌, ltb, length,
  take,
}
use h11_py.Bytes.{Bytes, is_empty}

pub data Regex : Type 0 where
  nothing : Regex
  class : (ℕ → Bool) → Regex
  seq : Regex → Regex → Regex
  alt : Regex → Regex → Regex
  star : Regex → Regex
  group : String → Regex → Regex

-- The groups matched so far, the last one first.
abbrev pub Groups : Type 0
Groups = List (String × Bytes)

-- What is to be done with the rest of the input.
abbrev pub Cont : Type 0 → Type 0
Cont R = Bytes → Groups → Option R

abbrev pub or_else {ℓ} : {R : Type ℓ} → Option R → Option R → Option R
or_else (some r) other = some r
or_else none other = other

-- What was read between two suffixes of the input.
abbrev pub between : Bytes → Bytes → Bytes
between s s' = take (length s - length s') s

-- A round that reads nothing ends the repetition, so the input's length bounds the rounds.
unfoldable pub star_loop : {R : Type 0} → (Cont R → Cont R) → ℕ → Cont R → Cont R
star_loop f zero k s g = k s g
star_loop f (suc n) k s g =
    elim (f
      (λ s' g'. elim (ltb (length s') (length s)) [ true ↦ star_loop f n k s' g' | false ↦ none ]) s
      g) [ some r ↦ some r | none ↦ k s g ]

unfoldable pub run : {R : Type 0} → Regex → Cont R → Cont R
unfolding star_loop
run nothing k s g = k s g
run (class p) k [] g = none
run (class p) k (c ∷ s) g = elim (p c) [ true ↦ k s g | false ↦ none ]
run (seq a b) k s g = run a (run b k) s g
run (alt a b) k s g = elim (run a k s g) [ some r ↦ some r | none ↦ run b k s g ]
run (star a) k s g = star_loop (run a) (length s) k s g
run (group name a) k s g = run a (λ s' g'. k s' ((name, between s s') ∷ g')) s g

abbrev pub at_end : Cont Groups
at_end [] g = some g
at_end (_ ∷ _) g = none

-- `regex.fullmatch(s)`
unfoldable pub fullmatch : Regex → Bytes → Option Groups
unfolding run
fullmatch r s = run r at_end s []

-- `regex.match(s)`: the groups and what follows the match.
unfoldable pub match_prefix : Regex → Bytes → Option (Groups × Bytes)
unfolding run
match_prefix r s = run r (λ s' g. some (g, s')) s []

abbrev pub any_of : (ℕ → Bool) → Regex
any_of p = star (class p)

abbrev pub some_of : (ℕ → Bool) → Regex
some_of p = seq (class p) (star (class p))

abbrev pub opt : Regex → Regex
opt r = alt r nothing

-- `r{1,n + 1}` after its first `r`.
abbrev pub at_most : ℕ → Regex → Regex
at_most zero r = nothing
at_most (suc n) r = opt (seq r (at_most n r))
