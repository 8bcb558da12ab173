-- ===== src/Numeral/Value.antt =====
-- Printed numbers (`str(n)`, `"%x" % n`) have the value that they were printed from.
use h11_py.Prelude.{
  ℕ, zero, suc, ◌+◌, ◌*◌, ◌/◌, ◌%◌, ◌≤◌, ◌<◌, [], ◌∷◌, ◌++◌, ◌≡◌, refl, ◌∙◌, arith, ltb, inl, inr,
  Bool-cases, ltb→lt,
}
use h11_py.Bytes.{Bytes}
use h11_py.Numeral.{digit, digit_value, value_from, int, numeral_from, numeral}

value_from-append :
    (base acc c : ℕ) (s : Bytes)
    → value_from base acc (s ++ (c ∷ [])) ≡ value_from base acc s * base + digit_value c
unfolding value_from
value_from-append base acc c [] = refl
value_from-append base acc c (d ∷ s) = value_from-append base (acc * base + digit_value d) c s

pub digit_value-digit : (d : ℕ) → d < 16 → digit_value (digit d) ≡ d
digit_value-digit d h = ground arith

div-le : (base n fuel : ℕ) → 2 ≤ base → base ≤ n → n ≤ suc fuel → n / base ≤ fuel
div-le base n fuel b h k = grind arith

mod_small : (base n : ℕ) → 2 ≤ base → base ≤ 16 → n % base < 16
mod_small base n b c = grind arith

digits_sum : (base n q : ℕ) {d : ℕ} → q ≡ n / base → d ≡ n % base → q * base + d ≡ n
digits_sum base n q e f = rw (e, f) (grind arith)

int-numeral_from :
    (base fuel n : ℕ) → 2 ≤ base → base ≤ 16 → n ≤ fuel → int base (numeral_from base fuel n) ≡ n
unfolding int numeral_from
int-numeral_from base zero n b c h = omega (arith, digit_value-digit n)
int-numeral_from base (suc fuel) n b c h = elim (Bool-cases (ltb n base)) [
  | inl small ↦ rw small (omega (arith, digit_value-digit n, ltb→lt n base small))
  | inr large ↦ rw large (
      value_from-append base 0 (digit (n % base)) (numeral_from base fuel (n / base))
      ∙ digits_sum base n (value_from base 0 (numeral_from base fuel (n / base)))
          (int-numeral_from base fuel (n / base) b c (div-le base n fuel b (ground arith) h))
          (digit_value-digit (n % base) (mod_small base n b c)))
]

-- Reading a printed number gives the number, in base 10 and in base 16.
pub int-numeral : (base n : ℕ) → 2 ≤ base → base ≤ 16 → int base (numeral base n) ≡ n
unfolding numeral
int-numeral base n b c = int-numeral_from base n n b c (omega arith)
