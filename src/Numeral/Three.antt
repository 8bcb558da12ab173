-- ===== src/Numeral/Three.antt =====
-- `str(n)` of a number of three digits.
use mathlib.Core.Path.{subst}
use h11_py.Prelude.{
  ℕ, zero, suc, ◌-◌, ◌/◌, ◌%◌, ◌≤◌, ◌<◌, true, false, ltb, [], ◌∷◌, ◌≡◌, refl, arith,
}
use h11_py.Bytes.{Bytes}
use h11_py.Abnf.{is_digit}
use h11_py.Numeral.{digit, numeral_from, numeral}

abbrev pub three : ℕ → Bytes
three n = digit (n / 10 / 10) ∷ digit (n / 10 % 10) ∷ digit (n % 10) ∷ []

one_digit : (fuel n : ℕ) → n < 10 → numeral_from 10 fuel n ≡ digit n ∷ []
unfolding numeral_from
one_digit zero n h = refl
one_digit (suc fuel) n h = let e : ltb n 10 ≡ true = ground arith in rw e refl

three_digits : (fuel n : ℕ) → 100 ≤ n → n < 1000 → numeral_from 10 (suc (suc fuel)) n ≡ three n
unfolding numeral_from
three_digits fuel n low high =
    let e : ltb n 10 ≡ false = ground arith in
    let e' : ltb (n / 10) 10 ≡ false = ground arith in
    rw (e, e', one_digit fuel (n / 10 / 10) (omega arith)) refl

pub numeral-three : (n : ℕ) → 100 ≤ n → n < 1000 → numeral 10 n ≡ three n
unfolding numeral
numeral-three n low high =
    let e : suc (suc (n - 2)) ≡ n = omega arith in
    subst (λ fuel. numeral_from 10 fuel n ≡ three n) e (three_digits (n - 2) n low high)

pub is_digit-digit : (d : ℕ) → d < 10 → is_digit (digit d) ≡ true
is_digit-digit d h = ground arith
