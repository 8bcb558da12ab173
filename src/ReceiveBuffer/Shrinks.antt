-- ===== src/ReceiveBuffer/Shrinks.antt =====
-- How much the extractions of h11/_receivebuffer.py leave in the buffer.
use h11_py.Prelude.{
  ℕ, zero, suc, ◌+◌, ◌-◌, ◌≤◌, ◌<◌, true, false, Option, none, some, [], ◌∷◌, length, take, drop,
  length-drop, map, ◌≡◌, refl, inl, inr, arith, Bool-cases, Option-cases,
}
use h11_py.Effect.Ends.{Ends}
use h11_py.Bytes.{Bytes, is_empty, eq_bytes, cr, lf, split, find}
use h11_py.ReceiveBuffer.{
  ReceiveBuffer, extract, maybe_extract_at_most, crlf, maybe_extract_next_line, chomp, ends_blank,
  maybe_extract_lines, blank_line_end, search, take_lines,
}
use h11_py.ReceiveBuffer.Search.{blank_at}
use h11_py.ReceiveBuffer.Valid.{blank_line_end-cons}

-- Something that was extracted is gone from the buffer.
abbrev pub Shrinks : {A : Type 0} → ℕ → Option A → ReceiveBuffer → Type 0
Shrinks n none b = length b.content ≤ n
Shrinks n (some _) b = length b.content < n

taken : (n : ℕ) (s : Bytes) → is_empty (take n s) ≡ false → length (drop n s) < length s
taken zero s h = cc
taken (suc n) [] h = cc
taken (suc n) (c ∷ s) h = omega (arith, length-drop n s)

pub maybe_extract_at_most-Shrinks :
    (n : ℕ) (b : ReceiveBuffer)
    → Shrinks (length b.content) (maybe_extract_at_most n b).0 (maybe_extract_at_most n b).1
unfolding maybe_extract_at_most extract
maybe_extract_at_most-Shrinks n b = elim (Bool-cases (is_empty (take n b.content))) [
  | inl h ↦ rw h (omega arith)
  | inr h ↦ rw h (taken n b.content h)
]

pub maybe_extract_next_line-le :
    (b : ReceiveBuffer) → length (maybe_extract_next_line b).1.content ≤ length b.content
unfolding maybe_extract_next_line extract
maybe_extract_next_line-le b = elim (Option-cases (find crlf b.content (b.next_line_search - 1))) [
  | inl h ↦ rw h (omega arith)
  | inr (i, h) ↦ rw h (omega (arith, length-drop (i + 2) b.content))
]

positive_end : (s : Bytes) {n : ℕ} → blank_at s ≡ some n → 0 < n
positive_end [] h = cc
positive_end (a ∷ []) h = cc
positive_end (a ∷ b ∷ []) h = ground arith
positive_end (a ∷ b ∷ c ∷ s) h = ground arith

blank_line_end-lt : (s : Bytes) {n : ℕ} → blank_line_end s ≡ some n → (0 < n) × (0 < length s)
blank_line_end-lt [] h = unfold blank_line_end in cc
blank_line_end-lt (c ∷ s) {n} h = elim (blank_line_end-cons c s h) [
  | inl e ↦ (positive_end (c ∷ s) e, omega arith)
  | inr (m, e, k) ↦ (omega arith, omega arith)
]

search-lt : (s : Bytes) (start : ℕ) {n : ℕ} → search s start ≡ some n → length (drop n s) < length s
unfolding search
search-lt s start {n} h = elim (Option-cases (blank_line_end (drop start s))) [
  | inl e ↦ let k = rw (search, e) at h in cc
  | inr (m, e) ↦
      let k = rw (search, e) at h in
      let (p, q) = blank_line_end-lt (drop start s) e in
      let same : start + m ≡ n = cc in omega (arith, length-drop n s, length-drop start s)
]

take_lines-Shrinks :
    (b : ReceiveBuffer) (found : Option ℕ)
    → ((n : ℕ) → found ≡ some n → length (drop n b.content) < length b.content)
    → Ends (λ ls b'. Shrinks (length b.content) ls b') (λ _ _. Unit) (take_lines found b)
unfolding extract
take_lines-Shrinks b none h = omega arith
take_lines-Shrinks b (some n) h =
    elim (Bool-cases (ends_blank (map chomp (split lf (take n b.content))))) [
      | inl e ↦ rw e (h n refl)
      | inr e ↦ rw e tt
    ]

first_byte :
    (s : Bytes) (n : ℕ) (c : ℕ) (cs : Bytes)
    → eq_bytes (take (suc n) s) (c ∷ cs) ≡ true
    → length (drop (suc n) s) < length s
unfolding eq_bytes
first_byte [] n c cs h = cc
first_byte (x ∷ s) n c cs h = omega (arith, length-drop n s)

pub maybe_extract_lines-Shrinks :
    (b : ReceiveBuffer)
    → Ends (λ ls b'. Shrinks (length b.content) ls b') (λ _ _. Unit) (maybe_extract_lines b)
unfolding maybe_extract_lines extract
maybe_extract_lines-Shrinks b = elim (Bool-cases (eq_bytes (take 1 b.content) (lf ∷ []))) [
  | inl e ↦ rw e (first_byte b.content 0 lf [] e)
  | inr e ↦ rw e (elim (Bool-cases (eq_bytes (take 2 b.content) crlf)) [
    | inl k ↦ rw k (first_byte b.content 1 cr (lf ∷ []) k)
    | inr k ↦ rw k (
        take_lines-Shrinks b (search b.content b.multiple_lines_search)
          (λ n h. search-lt b.content b.multiple_lines_search h))
  ])
]
