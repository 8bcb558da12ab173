-- ===== src/ReceiveBuffer/Search.antt =====
-- The two searches of h11/_receivebuffer.py: what has been looked at need not be looked at again.
use h11_py.Prelude.{
  ℕ, zero, suc, ◌+◌, ◌-◌, ◌≤◌, Bool, true, false, ◌&&◌, Option, none, some, [], ◌∷◌, ◌++◌, ◌==◌,
  if◌then◌else◌, length, drop, ◌≡◌, refl, arith,
}
use h11_py.Bytes.{Bytes, cr, lf, starts_with, find_first, find}
use h11_py.Regex.{match_prefix}
use h11_py.ReceiveBuffer.{blank_line_regex, read_count, blank_line_end, search, crlf}

-- Nothing is hit at the first `n` places.
abbrev pub NoHit : (Bytes → Bool) → ℕ → Bytes → Type 0
NoHit hit zero s = Unit
NoHit hit (suc n) [] = Unit
NoHit hit (suc n) (c ∷ s) = (hit (c ∷ s) ≡ false) × NoHit hit n s

-- A hit shows in the first `w` bytes, so it stays missing when more bytes come.
abbrev pub SeesWindow : (Bytes → Bool) → ℕ → Type 0
SeesWindow hit w = (s x : Bytes) → w ≤ length s → hit s ≡ false → hit (s ++ x) ≡ false

pub NoHit-append :
    (hit : Bytes → Bool) (w : ℕ) (see : SeesWindow hit (suc w)) (n : ℕ) (s x : Bytes)
    → n ≤ length s - w
    → NoHit hit n s
    → NoHit hit n (s ++ x)
NoHit-append hit w see zero s x b h = tt
NoHit-append hit w see (suc n) [] x b h = absurd (omega arith)
NoHit-append hit w see (suc n) (c ∷ s) x b h =
    (see (c ∷ s) x (omega arith) h.0, NoHit-append hit w see n s x (omega arith) h.1)

-- Where a blank line ends that starts with the first byte.
abbrev pub blank_at : Bytes → Option ℕ
blank_at (a ∷ b ∷ c ∷ s) =
    if a == lf && b == lf then some 2 else if a == lf && b == cr && c == lf then some 3 else none
blank_at (a ∷ b ∷ []) = if a == lf && b == lf then some 2 else none
blank_at _ = none

abbrev pub is_blank : Bytes → Bool
is_blank s = elim (blank_at s) [ some _ ↦ true | none ↦ false ]

pub match_blank : (s : Bytes) → read_count s (match_prefix blank_line_regex s) ≡ blank_at s
unfolding match_prefix
match_blank [] = refl
match_blank (a ∷ []) = ground arith
match_blank (a ∷ b ∷ []) = ground arith
match_blank (a ∷ b ∷ c ∷ s) = ground arith

pub is_blank_window : SeesWindow is_blank 3
is_blank_window (a ∷ b ∷ c ∷ s) x l h = h
is_blank_window [] x l h = elim l [ ]
is_blank_window (a ∷ []) x l h = absurd (omega arith)
is_blank_window (a ∷ b ∷ []) x l h = absurd (omega arith)

abbrev pub is_crlf : Bytes → Bool
is_crlf = starts_with crlf

pub is_crlf_window : SeesWindow is_crlf 2
unfolding starts_with
is_crlf_window (a ∷ b ∷ s) x l h = h
is_crlf_window [] x l h = elim l [ ]
is_crlf_window (a ∷ []) x l h = absurd (omega arith)

-- A search that finds nothing has looked at every place.
pub blank_line_end-NoHit : (n : ℕ) (s : Bytes) → blank_line_end s ≡ none → NoHit is_blank n s
unfolding blank_line_end
blank_line_end-NoHit zero s h = tt
blank_line_end-NoHit (suc n) [] h = tt
blank_line_end-NoHit (suc n) (c ∷ s) h = (
  ground (arith, match_blank (c ∷ s)),
  blank_line_end-NoHit n s (ground (arith, match_blank (c ∷ s))),
)

pub find_first-NoHit : (n : ℕ) (s : Bytes) → find_first crlf s ≡ none → NoHit is_crlf n s
unfolding find_first
find_first-NoHit zero s h = tt
find_first-NoHit (suc n) [] h = tt
find_first-NoHit (suc n) (c ∷ s) h = (ground arith, find_first-NoHit n s (ground arith))

abbrev later : ℕ → Option ℕ → Option ℕ
later n none = none
later n (some i) = some (n + i)

blank_line_end-skip :
    (n : ℕ) (s : Bytes)
    → NoHit is_blank n s
    → later n (blank_line_end (drop n s)) ≡ blank_line_end s
unfolding blank_line_end
blank_line_end-skip zero s h = ground arith
blank_line_end-skip (suc n) [] h = refl
blank_line_end-skip (suc n) (c ∷ s) h =
    ground (arith, match_blank (c ∷ s), blank_line_end-skip n s h.1)

find_first-skip :
    (n : ℕ) (s : Bytes)
    → NoHit is_crlf n s
    → later n (find_first crlf (drop n s)) ≡ find_first crlf s
unfolding find_first
find_first-skip zero s h = ground arith
find_first-skip (suc n) [] h = refl
find_first-skip (suc n) (c ∷ s) h = ground (arith, find_first-skip n s h.1)

-- Starting behind places that were looked at finds what a search from the start finds.
pub search-NoHit : (s : Bytes) (n : ℕ) → NoHit is_blank n s → search s n ≡ blank_line_end s
unfolding search
search-NoHit s n h = ground (arith, blank_line_end-skip n s h)

pub find-NoHit : (s : Bytes) (n : ℕ) → NoHit is_crlf n s → find crlf s n ≡ find_first crlf s
unfolding find
find-NoHit s n h = ground (arith, find_first-skip n s h)
