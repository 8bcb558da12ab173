-- ===== src/Numeral.antt =====
-- Python's `int(s)` and `int(s, 16)` of digits, and `str(n)` and `"%x" % n`.
pub mod Three
pub mod Value
pub mod Hex
use h11_py.Prelude.{ℕ, zero, suc, ◌+◌, ◌-◌, ◌*◌, ◌/◌, ◌%◌, [], ◌∷◌, ◌++◌, ltb, leb, if◌then◌else◌}
use h11_py.Bytes.{Bytes}

-- The value of a digit; the letters stand for ten to fifteen in either case.
abbrev pub digit_value : ℕ → ℕ
digit_value c = if leb c b'9' then c - 48 else if leb c b'F' then c - 55 else c - 87

abbrev pub digit : ℕ → ℕ
digit d = if ltb d 10 then 48 + d else 87 + d

unfoldable pub value_from : ℕ → ℕ → Bytes → ℕ
value_from base acc [] = acc
value_from base acc (c ∷ s) = value_from base (acc * base + digit_value c) s

-- `int(s, base)` on digits of that base, which the patterns have checked, and if the base is 10, on no
-- more of them than the interpreter's limit: the status code has three, and `_body_framing` is modelled
-- with the limit. Base 16 has none.
unfoldable pub int : ℕ → Bytes → ℕ
unfolding value_from
int base = value_from base 0

-- The number bounds its digits, so it is fuel enough.
unfoldable pub numeral_from : ℕ → ℕ → ℕ → Bytes
numeral_from base zero n = digit n ∷ []
numeral_from base (suc fuel) n =
    let rest = numeral_from base fuel (n / base) in
    if ltb n base then digit n ∷ [] else rest ++ (digit (n % base) ∷ [])

-- `str(n)` at base 10 and `"%x" % n` at base 16.
unfoldable pub numeral : ℕ → ℕ → Bytes
unfolding numeral_from
numeral base n = numeral_from base n n
