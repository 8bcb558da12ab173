-- ===== src/Readers/StatusLine.antt =====
-- The line that `write_any_response` of h11/_writers.py writes, and the pattern that h11/_readers.py
-- parses it with.
use mathlib.Core.Path.{subst}
use h11_py.Prelude.{
  ℕ, zero, suc, ◌/◌, ◌%◌, ◌≤◌, ◌<◌, Bool, true, some, [], ◌∷◌, ◌++◌, ◌≡◌, refl, sym, ap, ◌∙◌, ◌⊎◌,
  inl, inr, arith, length, Bool-cases,
}
use h11_py.Util.{ok, validate}
use h11_py.Bytes.{Bytes, bytes}
use h11_py.Numeral.{numeral, digit}
use h11_py.Numeral.Three.{three, numeral-three, is_digit-digit}
use h11_py.Regex.{
  Groups, Cont, Regex, class, alt, group, seq, opt, at_end, run, star_loop, fullmatch, between,
}
use h11_py.Regex.Greedy.{between-append}
use h11_py.Regex.Language.{Matches, Star, stop, more}
use h11_py.Readers.HeaderLine.{star_loop-round, is_shorter, between-all}
use h11_py.Abnf.{
  status_line, status_code, reason_phrase, is_digit, is_blank, is_vchar_or_obs_text, lit,
}

byte_of :
    (p q : ℕ → Bool) {u : Bytes}
    → Matches (alt (class p) (class q)) u
    → (c : ℕ) × (u ≡ c ∷ []) × ((p c ≡ true) ⊎ (q c ≡ true))
byte_of p q (inl (c, e, m)) = (c, e, inl m)
byte_of p q (inr (c, e, m)) = (c, e, inr m)

run-opt :
    {R : Type 0} (a : Regex) (k : Cont R) (s : Bytes) (g : Groups) {r : R}
    → run a k s g ≡ some r
    → run (opt a) k s g ≡ some r
unfolding run
run-opt a k s g h = rw h refl

run-class :
    {R : Type 0} (p : ℕ → Bool) (c : ℕ) (rest : Bytes) (k : Cont R) (g : Groups) {r : R}
    → p c ≡ true
    → k rest g ≡ some r
    → run (class p) k (c ∷ rest) g ≡ some r
unfolding run
run-class p c rest k g m h = rw m h

module _ {R : Type 0} (p q : ℕ → Bool) where
  run-either :
      (c : ℕ) (v : Bytes) (k : Cont R) (g : Groups) {r : R}
      → (p c ≡ true) ⊎ (q c ≡ true)
      → k v g ≡ some r
      → run (alt (class p) (class q)) k (c ∷ v) g ≡ some r
  unfolding run
  run-either c v k g (inl m) h = rw (m, h) refl
  run-either c v k g (inr m) h = elim (Bool-cases (p c)) [
    | inl e ↦ rw (e, h) refl
    | inr e ↦ rw (e, m) (rw h refl)
  ]

  none_read :
      (n : ℕ) (k : Cont R) (g : Groups) {r : R}
      → k [] g ≡ some r
      → star_loop (run (alt (class p) (class q))) n k [] g ≡ some r
  unfolding run star_loop
  none_read zero k g h = h
  none_read (suc n) k g h = h

  star_loop-either :
      (n : ℕ) (k : Cont R) (g : Groups) {r : R} {w : Bytes}
      → Star (Matches (alt (class p) (class q))) w
      → length w ≤ n
      → k [] g ≡ some r
      → star_loop (run (alt (class p) (class q))) n k w g ≡ some r
  star_loop-either n k g stop l h = none_read n k g h
  star_loop-either zero k g {w = w} (more u v e m st) l h =
      let (c, e', _) = byte_of p q m in
      let q' : w ≡ c ∷ v = e ∙ ap (λ x. x ++ v) e' in let l' = rw q' at l in absurd (omega arith)
  star_loop-either (suc n) k g {r = r} {w = w} (more u v e m st) l h =
      let (c, e', b) = byte_of p q m in
      let q' : w ≡ c ∷ v = e ∙ ap (λ x. x ++ v) e' in
      let l' = rw q' at l in
      let later = star_loop-either n k g st (omega arith) h in
      subst (λ x. star_loop (run (alt (class p) (class q))) (suc n) k x g ≡ some r) (sym q')
        (star_loop-round (run (alt (class p) (class q))) n k (c ∷ v) g
          (run-either c v _ g b (rw (is_shorter (length v) (length (c ∷ v)) (omega arith)) later)))

abbrev pub written_status : ℕ → Bytes → Bytes
written_status n reason = bytes "HTTP/1.1 " ++ (numeral 10 n ++ (bytes " " ++ reason))

run-reason :
    (reason : Bytes) (g : Groups)
    → Matches reason_phrase reason
    → run
        (opt (seq (lit (bytes " ")) (group "reason" reason_phrase)))
        at_end
        (bytes " " ++ reason)
        g
      ≡ some (("reason", reason) ∷ g)
unfolding run
run-reason reason g m =
    run-opt (seq (lit (bytes " ")) (group "reason" reason_phrase)) at_end (bytes " " ++ reason) g (
      star_loop-either is_blank is_vchar_or_obs_text (length reason)
        (λ s' g'. at_end s' (("reason", between reason s') ∷ g')) g m (omega arith)
        (rw (between-all reason) refl))

run-status_code :
    {R : Type 0} (a b c : ℕ) (rest : Bytes) (k : Cont R) (g : Groups) {r : R}
    → is_digit a ≡ true
    → is_digit b ≡ true
    → is_digit c ≡ true
    → k rest (("status_code", a ∷ b ∷ c ∷ []) ∷ g) ≡ some r
    → run (group "status_code" status_code) k (a ∷ b ∷ c ∷ rest) g ≡ some r
unfolding run
run-status_code a b c rest k g x y z h =
    let stored : Cont _ = λ s' g'. k s' (("status_code", between (a ∷ b ∷ c ∷ rest) s') ∷ g') in
    run-class is_digit a (b ∷ c ∷ rest) (run (seq (class is_digit) (class is_digit)) stored) g x (
      run-class is_digit b (c ∷ rest) (run (class is_digit) stored) g y
        (run-class is_digit c rest stored g z (rw (between-append (a ∷ b ∷ c ∷ []) rest) h)))

abbrev after_version : Regex
after_version = seq (lit (bytes " ")) (
    seq (group "status_code" status_code)
      (opt (seq (lit (bytes " ")) (group "reason" reason_phrase))))

run-after_version :
    (n : ℕ) (reason : Bytes) (g : Groups)
    → 100 ≤ n
    → n < 1000
    → Matches reason_phrase reason
    → run after_version at_end (bytes " " ++ (numeral 10 n ++ (bytes " " ++ reason))) g
      ≡ some (("reason", reason) ∷ ("status_code", numeral 10 n) ∷ g)
unfolding run
run-after_version n reason g low high m = rw (numeral-three n low high) (
    run-status_code (digit (n / 10 / 10)) (digit (n / 10 % 10)) (digit (n % 10))
      (bytes " " ++ reason)
      (run (opt (seq (lit (bytes " ")) (group "reason" reason_phrase))) at_end) g
      (is_digit-digit (n / 10 / 10) (omega arith)) (is_digit-digit (n / 10 % 10) (omega arith))
      (is_digit-digit (n % 10) (omega arith)) (run-reason reason (("status_code", three n) ∷ g) m))

fullmatch-written_status :
    (n : ℕ) (reason : Bytes)
    → 100 ≤ n
    → n < 1000
    → Matches reason_phrase reason
    → fullmatch status_line (written_status n reason)
      ≡ some
          (("reason", reason) ∷ ("status_code", numeral 10 n) ∷ ("http_version", bytes "1.1") ∷ [])
unfolding fullmatch run
fullmatch-written_status n reason low high m =
    let rest = bytes " " ++ (numeral 10 n ++ (bytes " " ++ reason)) in
    run-after_version n reason (("http_version", between (bytes "1.1" ++ rest) rest) ∷ []) low high
      m
    ∙ ap (λ v. some (("reason", reason) ∷ ("status_code", numeral 10 n) ∷ ("http_version", v) ∷ []))
        (between-append (bytes "1.1") rest)

pub validate-written_status :
    (n : ℕ) (reason : Bytes)
    → 100 ≤ n
    → n < 1000
    → Matches reason_phrase reason
    → validate status_line (written_status n reason) "illegal status line: {!r}"
      ≡ ok (("reason", reason) ∷ ("status_code", numeral 10 n) ∷ ("http_version", bytes "1.1") ∷ [])
unfolding validate
validate-written_status n reason low high m = rw (fullmatch-written_status n reason low high m) refl
