-- ===== src/Numeral/Hex.antt =====
-- The form of `"%x" % n`: hexadecimal digits, and how many.
use h11_py.Prelude.{
  ℕ, zero, suc, ◌/◌, ◌%◌, ◌^◌, ◌≤◌, ◌<◌, Bool, true, [], ◌∷◌, ◌++◌, ◌≡◌, refl, arith, ltb, length,
  inl, inr, Bool-cases, ltb→lt, length-append,
}
use native.Mathlib.Nat.{pow-suc}
use h11_py.Abnf.{is_hexdig}
use h11_py.Bytes.{Bytes}
use h11_py.Numeral.{digit, numeral_from, numeral}
use h11_py.Regex.Greedy.{AllIn}

is_hexdig-digit : (d : ℕ) → d < 16 → is_hexdig (digit d) ≡ true
is_hexdig-digit d h = ground arith

pub AllIn-concat :
    (p : ℕ → Bool) (s : Bytes) (c : ℕ) → AllIn p s → p c ≡ true → AllIn p (s ++ (c ∷ []))
AllIn-concat p [] c h e = (e, tt)
AllIn-concat p (d ∷ s) c h e = (h.0, AllIn-concat p s c h.1 e)

numeral_from-AllIn : (fuel n : ℕ) → n ≤ fuel → AllIn is_hexdig (numeral_from 16 fuel n)
unfolding numeral_from
numeral_from-AllIn zero n h = (is_hexdig-digit n (omega arith), tt)
numeral_from-AllIn (suc fuel) n h = elim (Bool-cases (ltb n 16)) [
  | inl small ↦ rw small (is_hexdig-digit n (ltb→lt n 16 small), tt)
  | inr large ↦ rw large (
      AllIn-concat is_hexdig (numeral_from 16 fuel (n / 16)) (digit (n % 16))
        (numeral_from-AllIn fuel (n / 16) (ground arith)) (is_hexdig-digit (n % 16) (omega arith)))
]

pub numeral-AllIn : (n : ℕ) → AllIn is_hexdig (numeral 16 n)
unfolding numeral
numeral-AllIn n = numeral_from-AllIn n n (omega arith)

div-lt : (n k : ℕ) → n < 16 ^ suc (suc k) → n / 16 < 16 ^ suc k
div-lt n k h = let e = pow-suc 16 (suc k) in omega arith

cons_of :
    (s : Bytes)
    → (0 < length s) × (length s ≤ 20)
    → (c : ℕ) × (w : Bytes) × (s ≡ c ∷ w) × (length w ≤ 19)
cons_of [] h = absurd (omega arith)
cons_of (c ∷ w) h = (c, w, refl, omega arith)

length-numeral_from :
    (fuel n k : ℕ)
    → n < 16 ^ suc k
    → (0 < length (numeral_from 16 fuel n)) × (length (numeral_from 16 fuel n) ≤ suc k)
unfolding numeral_from
length-numeral_from zero n k h = (omega arith, omega arith)
length-numeral_from (suc fuel) n zero h = elim (Bool-cases (ltb n 16)) [
  | inl small ↦ rw small (omega arith, omega arith)
  | inr large ↦ absurd (ground arith)
]
length-numeral_from (suc fuel) n (suc k) h =
    let shorter = length-numeral_from fuel (n / 16) k (div-lt n k h) in
    let longer = length-append (numeral_from 16 fuel (n / 16)) (digit (n % 16) ∷ []) in
    elim (Bool-cases (ltb n 16)) [
      | inl small ↦ rw small (omega arith, omega arith)
      | inr large ↦ rw large (omega arith, omega arith)
    ]

-- A printed number below 16 ^ 20 has between one and twenty digits.
pub numeral-cons :
    (n : ℕ) → n < 16 ^ 20 → (c : ℕ) × (w : Bytes) × (numeral 16 n ≡ c ∷ w) × (length w ≤ 19)
unfolding numeral
numeral-cons n h = cons_of (numeral_from 16 n n) (length-numeral_from n n 19 h)
