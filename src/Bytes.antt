-- ===== src/Bytes.antt =====
-- Python's `bytes`, as lists of numbers, with the methods that h11 calls. A number stands for a byte,
-- so the source's values are below 256; no function here needs that.
use Prim.Native.Char.{code}
use h11_py.Prelude.{
  ℕ, suc, ◌+◌, ◌-◌, String, Bool, true, false, ◌&&◌, ◌||◌, Option, none, some, List, [], ◌∷◌, ◌++◌,
  ltb, leb, ◌==◌, if◌then◌else◌, drop,
}

abbrev pub Bytes : Type 0
Bytes = List ℕ

-- A bytes literal: the code points of its text, all ASCII.
abbrev pub bytes : String → Bytes
bytes String.[] = []
bytes (String.◌∷◌ c s) = code c ∷ bytes s

abbrev pub within : ℕ → ℕ → ℕ → Bool
within lo hi c = leb lo c && leb c hi

abbrev pub cr : ℕ
cr = 13

abbrev pub lf : ℕ
lf = 10

-- `bool(s)`, negated.
abbrev pub is_empty {ℓ} : {A : Type ℓ} → List A → Bool
is_empty [] = true
is_empty (_ ∷ _) = false

-- `a == b`
unfoldable pub eq_bytes : Bytes → Bytes → Bool
eq_bytes [] [] = true
eq_bytes (x ∷ xs) (y ∷ ys) = x == y && eq_bytes xs ys
eq_bytes _ _ = false

-- `a < b`, by the first difference.
unfoldable pub lt_bytes : Bytes → Bytes → Bool
lt_bytes [] [] = false
lt_bytes [] (y ∷ ys) = true
lt_bytes (x ∷ xs) [] = false
lt_bytes (x ∷ xs) (y ∷ ys) = ltb x y || (x == y && lt_bytes xs ys)

-- `s.startswith(sub)`
unfoldable pub starts_with : Bytes → Bytes → Bool
starts_with [] s = true
starts_with (x ∷ sub) [] = false
starts_with (x ∷ sub) (y ∷ s) = x == y && starts_with sub s

-- The place of the first occurrence.
unfoldable pub find_first : Bytes → Bytes → Option ℕ
unfolding starts_with
find_first sub [] = if starts_with sub [] then some 0 else none
find_first sub (x ∷ s) =
    if starts_with sub (x ∷ s)
    then some 0
    else elim (find_first sub s) [ some i ↦ some (suc i) | none ↦ none ]

-- `s.find(sub, start)`, with `none` for -1.
unfoldable pub find : Bytes → Bytes → ℕ → Option ℕ
unfolding find_first
find sub s start = elim (find_first sub (drop start s)) [ some i ↦ some (start + i) | none ↦ none ]

-- `b" \t\n\r\x0b\f"`
abbrev pub is_space : ℕ → Bool
is_space c = c == b' ' || within 9 13 c

-- `s.lstrip()`
unfoldable pub lstrip : Bytes → Bytes
lstrip [] = []
lstrip (c ∷ s) = if is_space c then lstrip s else c ∷ s

-- `s.rstrip()`
unfoldable pub rstrip : Bytes → Bytes
rstrip [] = []
rstrip (c ∷ s) = let rest = rstrip s in if is_space c && is_empty rest then [] else c ∷ rest

unfoldable pub strip : Bytes → Bytes
unfolding lstrip rstrip
strip s = rstrip (lstrip s)

abbrev pub cons_first : ℕ → List Bytes → List Bytes
cons_first c [] = (c ∷ []) ∷ []
cons_first c (l ∷ ls) = (c ∷ l) ∷ ls

-- `s.split(sep)` at a separator of one byte.
unfoldable pub split : ℕ → Bytes → List Bytes
split sep [] = [] ∷ []
split sep (c ∷ s) = let rest = split sep s in if c == sep then [] ∷ rest else cons_first c rest

abbrev pub is_upper : ℕ → Bool
is_upper c = within b'A' b'Z' c

abbrev pub is_lower : ℕ → Bool
is_lower c = within b'a' b'z' c

abbrev pub lower_byte : ℕ → ℕ
lower_byte c = if is_upper c then c + 32 else c

abbrev pub upper_byte : ℕ → ℕ
upper_byte c = if is_lower c then c - 32 else c

-- `s.lower()`
unfoldable pub lower : Bytes → Bytes
lower [] = []
lower (c ∷ s) = lower_byte c ∷ lower s

-- `s.title()`; the flag says that the byte before is a letter.
unfoldable pub title_from : Bool → Bytes → Bytes
title_from after [] = []
title_from after (c ∷ s) =
    (if after then lower_byte c else upper_byte c) ∷ title_from (is_upper c || is_lower c) s

unfoldable pub title : Bytes → Bytes
unfolding title_from
title = title_from false

-- `b"".join(ss)`
abbrev pub join : List Bytes → Bytes
join [] = []
join (s ∷ ss) = s ++ join ss
