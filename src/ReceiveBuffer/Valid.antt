-- ===== src/ReceiveBuffer/Valid.antt =====
-- The buffer's invariant, and the extractions of h11/_receivebuffer.py against searches from the start.
use h11_py.Prelude.{
  ℕ, suc, ◌+◌, ◌-◌, ◌≤◌, Bool, true, false, Option, none, some, List, [], ◌∷◌, map, ◌⊎◌, ◌==◌,
  if◌then◌else◌, length, take, drop, ◌≡◌, refl, arith, Option-cases, length-append, inl, inr,
  Bool-cases,
}
use h11_py.Util.{ok}
use h11_py.Bytes.{Bytes, is_empty, eq_bytes, lf, split, cons_first, find_first}
use h11_py.ReceiveBuffer.{
  ReceiveBuffer, new, append, extract, maybe_extract_at_most, crlf, maybe_extract_next_line, chomp,
  ends_blank, but_last_two, maybe_extract_lines, blank_line_end, take_lines,
}
use h11_py.ReceiveBuffer.Search.{
  blank_at, match_blank, NoHit, NoHit-append, is_blank, is_blank_window, is_crlf, is_crlf_window,
  blank_line_end-NoHit, find_first-NoHit, search-NoHit, find-NoHit,
}

-- Neither search has passed over a separator, and neither has looked so far that bytes still to come
-- could make one.
pub record IsValid (b : ReceiveBuffer) : Type 0 where
  pub line_seen : NoHit is_crlf (b.next_line_search - 1) b.content
  pub line_bound : b.next_line_search ≤ length b.content
  pub lines_seen : NoHit is_blank b.multiple_lines_search b.content
  pub lines_bound : b.multiple_lines_search ≤ length b.content - 2

pub new-IsValid : IsValid new
new-IsValid = record {
  line_seen = tt;
  line_bound = omega arith;
  lines_seen = tt;
  lines_bound = omega arith;
}

-- `+=` keeps the invariant.
pub append-IsValid : (x : Bytes) (b : ReceiveBuffer) → IsValid b → IsValid (append x b)
unfolding append
append-IsValid x b v = record {
  line_seen =
      NoHit-append is_crlf 1 is_crlf_window (b.next_line_search - 1) b.content x (omega arith)
        v.line_seen;
  line_bound = omega (arith, length-append b.content x);
  lines_seen =
      NoHit-append is_blank 2 is_blank_window b.multiple_lines_search b.content x (omega arith)
        v.lines_seen;
  lines_bound = omega (arith, length-append b.content x);
}

extract-IsValid : (n : ℕ) (b : ReceiveBuffer) → IsValid (extract n b).1
unfolding extract
extract-IsValid n b = record {
  line_seen = tt;
  line_bound = omega arith;
  lines_seen = tt;
  lines_bound = omega arith;
}

-- `maybe_extract_at_most`, by a search-free description.
pub maybe_extract_at_most-IsValid :
    (n : ℕ) (b : ReceiveBuffer) → IsValid b → IsValid (maybe_extract_at_most n b).1
unfolding maybe_extract_at_most
maybe_extract_at_most-IsValid n b v = elim (Bool-cases (is_empty (take n b.content))) [
  | inl e ↦ rw e v
  | inr e ↦ rw e (extract-IsValid n b)
]

abbrev pub cut_line : Option ℕ → Bytes → Option Bytes × Bytes
cut_line none s = (none, s)
cut_line (some i) s = (some (take (i + 2) s), drop (i + 2) s)

-- What `maybe_extract_next_line` returns and leaves, by a search from the start.
abbrev pub first_line : Bytes → Option Bytes × Bytes
first_line s = cut_line (find_first crlf s) s

-- The incremental search for a line finds the line that a search from the start of the buffer finds,
-- and leaves the invariant.
pub maybe_extract_next_line_lem :
    (b : ReceiveBuffer)
    → IsValid b
    → ((maybe_extract_next_line b).0 ≡ (first_line b.content).0)
      × ((maybe_extract_next_line b).1.content ≡ (first_line b.content).1)
      × IsValid (maybe_extract_next_line b).1
unfolding maybe_extract_next_line extract
maybe_extract_next_line_lem b v =
    let found = find-NoHit b.content (b.next_line_search - 1) v.line_seen in
    elim (Option-cases (find_first crlf b.content)) [
      | inl e ↦
          rw (found, e)
            (
              refl,
              refl,
              record {
                line_seen = find_first-NoHit (length b.content - 1) b.content e;
                line_bound = omega arith;
                lines_seen = v.lines_seen;
                lines_bound = v.lines_bound;
              },
            )
      | inr (i, e) ↦ rw (found, e) (refl, refl, extract-IsValid (i + 2) b)
    ]

abbrev pub cut_lines : Option ℕ → Bytes → Option (List Bytes) × Bytes
cut_lines none s = (none, s)
cut_lines (some n) s = (some (but_last_two (map chomp (split lf (take n s)))), drop n s)

-- What `maybe_extract_lines` returns and leaves, by a search from the start.
abbrev pub first_lines : Bytes → Option (List Bytes) × Bytes
first_lines s =
    if eq_bytes (take 1 s) (lf ∷ [])
    then (some [], drop 1 s)
    else if eq_bytes (take 2 s) crlf
    then (some [], drop 2 s)
    else cut_lines (blank_line_end s) s

-- At least three lines, of which the last two are blank.
abbrev ends_two_blank : List Bytes → Bool
ends_two_blank (a ∷ b ∷ c ∷ ls) = ends_blank (b ∷ c ∷ ls)
ends_two_blank _ = false

ends_two_blank-ends_blank : (ls : List Bytes) → ends_two_blank ls ≡ true → ends_blank ls ≡ true
unfolding ends_blank
ends_two_blank-ends_blank (a ∷ b ∷ c ∷ ls) h = h
ends_two_blank-ends_blank [] h = cc
ends_two_blank-ends_blank (a ∷ []) h = cc
ends_two_blank-ends_blank (a ∷ b ∷ []) h = cc

ends_two_blank-cons :
    (c : ℕ) (ls : List Bytes)
    → ends_two_blank (map chomp ls) ≡ true
    → (ends_two_blank (map chomp ([] ∷ ls)) ≡ true)
      × (ends_two_blank (map chomp (cons_first c ls)) ≡ true)
unfolding ends_blank
ends_two_blank-cons c [] h = cc
ends_two_blank-cons c (x ∷ []) h = cc
ends_two_blank-cons c (x ∷ y ∷ []) h = cc
ends_two_blank-cons c (x ∷ y ∷ z ∷ ls) h = (h, h)

ends_two_blank-split :
    (c : ℕ) (s : Bytes)
    → ends_two_blank (map chomp (split lf s)) ≡ true
    → ends_two_blank (map chomp (split lf (c ∷ s))) ≡ true
unfolding split
ends_two_blank-split c s h = elim (Bool-cases (c == lf)) [
  | inl e ↦ rw e (ends_two_blank-cons c (split lf s) h).0
  | inr e ↦ rw e (ends_two_blank-cons c (split lf s) h).1
]

blank_at-ends_two_blank :
    (s : Bytes) {n : ℕ}
    → blank_at s ≡ some n
    → ends_two_blank (map chomp (split lf (take n s))) ≡ true
unfolding split chomp ends_blank
blank_at-ends_two_blank [] h = cc
blank_at-ends_two_blank (a ∷ []) h = cc
blank_at-ends_two_blank (a ∷ b ∷ []) h = ground arith
blank_at-ends_two_blank (a ∷ b ∷ c ∷ s) h = ground arith

pub blank_line_end-cons :
    (c : ℕ) (s : Bytes) {n : ℕ}
    → blank_line_end (c ∷ s) ≡ some n
    → (blank_at (c ∷ s) ≡ some n) ⊎ ((m : ℕ) × (blank_line_end s ≡ some m) × (n ≡ suc m))
unfolding blank_line_end
blank_line_end-cons c s h = ground (arith, match_blank (c ∷ s))

blank_line_end-ends_two_blank :
    (s : Bytes) {n : ℕ}
    → blank_line_end s ≡ some n
    → ends_two_blank (map chomp (split lf (take n s))) ≡ true
blank_line_end-ends_two_blank [] h = unfold blank_line_end in cc
blank_line_end-ends_two_blank (c ∷ s) h = elim (blank_line_end-cons c s h) [
  | inl e ↦ blank_at-ends_two_blank (c ∷ s) e
  | inr (m, e, k) ↦ rw k (ends_two_blank-split c (take m s) (blank_line_end-ends_two_blank s e))
]

take_lines_lem :
    (b : ReceiveBuffer) (found : Option ℕ)
    → IsValid b
    → blank_line_end b.content ≡ found
    → ((take_lines found b).0 ≡ ok (cut_lines found b.content).0)
      × ((take_lines found b).1.content ≡ (cut_lines found b.content).1)
      × IsValid (take_lines found b).1
unfolding extract
take_lines_lem b none v e = (
  refl,
  refl,
  record {
    line_seen = v.line_seen;
    line_bound = v.line_bound;
    lines_seen = blank_line_end-NoHit (length b.content - 2) b.content e;
    lines_bound = omega arith;
  },
)
take_lines_lem b (some n) v e =
    let asserted = ends_two_blank-ends_blank _ (blank_line_end-ends_two_blank b.content e) in
    rw asserted (refl, refl, extract-IsValid n b)

-- The incremental search for a blank line finds the lines that a search from the start of the buffer
-- finds, the assertion on the last two lines holds, and the invariant is left.
pub maybe_extract_lines_lem :
    (b : ReceiveBuffer)
    → IsValid b
    → ((maybe_extract_lines b).0 ≡ ok (first_lines b.content).0)
      × ((maybe_extract_lines b).1.content ≡ (first_lines b.content).1)
      × IsValid (maybe_extract_lines b).1
unfolding maybe_extract_lines
maybe_extract_lines_lem b v = elim (Bool-cases (eq_bytes (take 1 b.content) (lf ∷ []))) [
  | inl e ↦ rw e (refl, refl, extract-IsValid 1 b)
  | inr e ↦ rw e (elim (Bool-cases (eq_bytes (take 2 b.content) crlf)) [
    | inl k ↦ rw k (refl, refl, extract-IsValid 2 b)
    | inr k ↦
        rw (k, search-NoHit b.content b.multiple_lines_search v.lines_seen)
          (take_lines_lem b (blank_line_end b.content) v refl)
  ])
]
