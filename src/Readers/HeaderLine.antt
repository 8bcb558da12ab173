-- ===== src/Readers/HeaderLine.antt =====
-- The lines that `write_headers` of h11/_writers.py writes, and the pattern that h11/_readers.py parses
-- them with.
use mathlib.Core.List.{append_assoc, append-nil}
use mathlib.Core.Path.{subst}
use h11_py.Prelude.{
  ℕ, zero, suc, ◌≤◌, ltb, Bool, true, false, none, some, [], ◌∷◌, ◌++◌, ◌≡◌, refl, sym, ap, ◌∙◌,
  inl, inr, arith, length, length-append,
}
use h11_py.Util.{ok, validate}
use h11_py.Bytes.{Bytes, bytes}
use h11_py.Regex.{
  Groups, Cont, Regex, group, seq, star, some_of, at_end, run, star_loop, fullmatch, between,
}
use h11_py.Regex.Greedy.{AllIn, Stops, run-some_of, run-any_of, between-append}
use h11_py.Regex.Classes.{some_of-AllIn}
use h11_py.Regex.Language.{Matches, Star, stop, more}
use h11_py.Readers.RequestLine.{run-group}
use h11_py.Abnf.{
  token, field_value, header_field, ows, is_tchar, is_blank, is_vchar_or_obs_text, lit,
}

-- A word of `[...]+` by its first byte.
abbrev pub Run : (ℕ → Bool) → Bytes → Type 0
Run p w = (c : ℕ) × (u : Bytes) × (w ≡ c ∷ u) × AllIn p (c ∷ u)

pub some_of-Run : (p : ℕ → Bool) (w : Bytes) → Matches (some_of p) w → Run p w
some_of-Run p [] m = let n = (some_of-AllIn p [] m).1 in cc
some_of-Run p (c ∷ w) m = (c, w, refl, (some_of-AllIn p (c ∷ w) m).0)

run-word :
    {R : Type 0} (p : ℕ → Bool) (w rest : Bytes) (k : Cont R) (g : Groups) {r : R}
    → Matches (some_of p) w
    → Stops p rest
    → k rest g ≡ some r
    → run (some_of p) k (w ++ rest) g ≡ some r
run-word p w rest k g m s e =
    let (c, u, q, a) = some_of-Run p w m in rw q (run-some_of p c u rest k g a s e)

-- Blanks and then visible bytes.
abbrev Word : Regex
Word = seq (some_of is_blank) (some_of is_vchar_or_obs_text)

vchar_not_blank : (c : ℕ) → is_vchar_or_obs_text c ≡ true → is_blank c ≡ false
vchar_not_blank c h = ground arith

blank_no_vchar : (c : ℕ) → is_blank c ≡ true → is_vchar_or_obs_text c ≡ false
blank_no_vchar c h = ground arith

vchars-Stops :
    (w rest : Bytes) → Matches (some_of is_vchar_or_obs_text) w → Stops is_blank (w ++ rest)
vchars-Stops w rest m =
    let (c, u, q, a) = some_of-Run is_vchar_or_obs_text w m in rw q (vchar_not_blank c a.0)

blanks-Stops :
    (w rest : Bytes) → Matches (some_of is_blank) w → Stops is_vchar_or_obs_text (w ++ rest)
blanks-Stops w rest m = let (c, u, q, a) = some_of-Run is_blank w m in rw q (blank_no_vchar c a.0)

words-Stops : {w : Bytes} → Star (Matches Word) w → Stops is_vchar_or_obs_text w
words-Stops stop = tt
words-Stops {w} (more u v e (a, b, e', m, n) st) =
    rw (e, e', append_assoc a b v) (blanks-Stops a (b ++ v) m)

word_longer :
    (a b v : Bytes) → Matches (some_of is_blank) a → suc (length v) ≤ length (a ++ (b ++ v))
word_longer a b v m =
    let (c, u, q, h) = some_of-Run is_blank a m in
    rw q (omega (arith, length-append u (b ++ v), length-append b v))

pub is_shorter : (m n : ℕ) → suc m ≤ n → ltb m n ≡ true
is_shorter m n h = ground arith

run-Word :
    {R : Type 0} (a b v : Bytes) (k : Cont R) (g : Groups) {r : R}
    → Matches (some_of is_blank) a
    → Matches (some_of is_vchar_or_obs_text) b
    → Stops is_vchar_or_obs_text v
    → k v g ≡ some r
    → run Word k (a ++ (b ++ v)) g ≡ some r
unfolding run
run-Word a b v k g m p s h =
    run-word is_blank a (b ++ v) (run (some_of is_vchar_or_obs_text) k) g m (vchars-Stops b v p)
      (run-word is_vchar_or_obs_text b v k g p s h)

-- A round of a repetition that reads something.
pub star_loop-round :
    {R : Type 0} (f : Cont R → Cont R) (n : ℕ) (k : Cont R) (w : Bytes) (g : Groups) {r : R}
    → f
        (λ s' g'. elim (ltb (length s') (length w)) [ true ↦ star_loop f n k s' g' | false ↦ none ])
        w
        g
      ≡ some r
    → star_loop f (suc n) k w g ≡ some r
unfolding star_loop
star_loop-round f n k w g h = rw (star_loop, h) refl

no_words :
    {R : Type 0} (n : ℕ) (k : Cont R) (g : Groups) {r : R}
    → k [] g ≡ some r
    → star_loop (run Word) n k [] g ≡ some r
unfolding run star_loop
no_words zero k g h = h
no_words (suc n) k g h = h

star_loop-words :
    {R : Type 0} (n : ℕ) (k : Cont R) (g : Groups) {r : R} {w : Bytes}
    → Star (Matches Word) w
    → length w ≤ n
    → k [] g ≡ some r
    → star_loop (run Word) n k w g ≡ some r
star_loop-words n k g stop l h = no_words n k g h
star_loop-words zero k g {w = w} (more u v e (a, b, e', m, p) st) l h =
    let q : w ≡ a ++ (b ++ v) = e ∙ ap (λ x. x ++ v) e' ∙ append_assoc a b v in
    let t = word_longer a b v m in let l' = rw q at l in absurd (omega arith)
star_loop-words (suc n) k g {r = r} {w = w} (more u v e (a, b, e', m, p) st) l h =
    let q : w ≡ a ++ (b ++ v) = e ∙ ap (λ x. x ++ v) e' ∙ append_assoc a b v in
    let t = word_longer a b v m in
    let l' = rw q at l in
    let later = star_loop-words n k g st (omega arith) h in
    subst (λ x. star_loop (run Word) (suc n) k x g ≡ some r) (sym q)
      (star_loop-round (run Word) n k (a ++ (b ++ v)) g
        (run-Word a b v _ g m p (words-Stops st) (rw (is_shorter _ _ t) later)))

-- All of a field's value is read, when the line ends with it.
run-field_value :
    {R : Type 0} (v : Bytes) (k : Cont R) (g : Groups) {r : R}
    → Matches field_value v
    → k [] g ≡ some r
    → run field_value k v g ≡ some r
unfolding run
run-field_value v k g (inl (u, w, e, m, st)) h =
    rw
      (
        e,
        run-word is_vchar_or_obs_text u w (run (star Word) k) g m (words-Stops st)
            (star_loop-words (length w) k g st (omega arith) h),
      )
      refl
run-field_value v k g {r = r} (inr e) h = subst (λ x. run field_value k x g ≡ some r) (sym e) h

value-Stops : (v : Bytes) → Matches field_value v → Stops is_blank v
value-Stops v (inl (u, w, e, m, st)) = rw e (vchars-Stops u w m)
value-Stops v (inr e) = rw e tt

pub between-all : (w : Bytes) → between w [] ≡ w
between-all w = ap (λ s. between s []) (sym (append-nil w)) ∙ between-append w []

abbrev after_colon : Regex
after_colon = seq ows (seq (group "field_value" field_value) ows)

run-after_colon :
    (v : Bytes) (g : Groups)
    → Matches field_value v
    → run after_colon at_end (bytes " " ++ v) g ≡ some (("field_value", v) ∷ g)
unfolding run
run-after_colon v g m =
    run-any_of is_blank (bytes " ") v (run (seq (group "field_value" field_value) ows) at_end) g
      (refl, tt) (value-Stops v m)
      (run-field_value v (λ s' g'. run ows at_end s' (("field_value", between v s') ∷ g')) g m
        (rw (between-all v) refl))

abbrev pub written_header : Bytes → Bytes → Bytes
written_header name value = name ++ (bytes ": " ++ value)

fullmatch-written_header :
    (name value : Bytes)
    → Matches token name
    → Matches field_value value
    → fullmatch header_field (written_header name value)
      ≡ some (("field_value", value) ∷ ("field_name", name) ∷ [])
unfolding fullmatch run
fullmatch-written_header name value m n =
    run-group "field_name" is_tchar name (bytes ": " ++ value)
      (run (seq (lit (bytes ":")) after_colon) at_end) [] m refl
      (run-after_colon value (("field_name", name) ∷ []) n)

pub validate-written_header :
    (name value : Bytes)
    → Matches token name
    → Matches field_value value
    → validate header_field (written_header name value) "illegal header line: {!r}"
      ≡ ok (("field_value", value) ∷ ("field_name", name) ∷ [])
unfolding validate
validate-written_header name value m n = rw (fullmatch-written_header name value m n) refl
