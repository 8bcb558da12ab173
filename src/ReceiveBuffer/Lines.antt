-- ===== src/ReceiveBuffer/Lines.antt =====
-- A header block that a peer writes is read back by `maybe_extract_lines` (h11/_receivebuffer.py).
use mathlib.Core.List.{append_assoc}
use h11_py.Prelude.{
  ℕ, suc, ◌+◌, Bool, true, false, Option, none, some, List, [], ◌∷◌, ◌++◌, map, ◌==◌, ◌≡◌, refl,
  sym, ap, ◌∙◌, arith, length, take, length-append, take-length_append, drop-length_append,
}
use h11_py.Util.{ok}
use h11_py.Bytes.{Bytes, cr, lf, is_empty, eq_bytes, split}
use h11_py.ReceiveBuffer.{
  ReceiveBuffer, crlf, chomp, but_last_two, blank_line_end, maybe_extract_lines,
}
use h11_py.ReceiveBuffer.Search.{blank_at, match_blank}
use h11_py.ReceiveBuffer.Valid.{IsValid, cut_lines, first_lines, maybe_extract_lines_lem}

-- Either line ending is accepted.
abbrev pub eol : Bool → Bytes
eol true = crlf
eol false = lf ∷ []

-- Each line with its ending, a blank line with ending `e`, and what follows.
abbrev pub block : List (Bytes × Bool) → Bool → Bytes → Bytes
block [] e rest = eol e ++ rest
block ((l, f) ∷ ls) e rest = l ++ (eol f ++ block ls e rest)

abbrev pub NoLf : Bytes → Type 0
NoLf [] = Unit
NoLf (c ∷ s) = ((c == lf) ≡ false) × NoLf s

abbrev pub ends_cr : Bytes → Bool
ends_cr [] = false
ends_cr (c ∷ []) = c == cr
ends_cr (c ∷ d ∷ s) = ends_cr (d ∷ s)

-- A line is not blank, holds no LF, and does not end in CR.
abbrev pub IsLine : Bytes → Type 0
IsLine l = (is_empty l ≡ false) × NoLf l × (ends_cr l ≡ false)

abbrev pub AreLines : List (Bytes × Bool) → Type 0
AreLines [] = Unit
AreLines ((l, f) ∷ ls) = IsLine l × AreLines ls

abbrev pub texts : List (Bytes × Bool) → List Bytes
texts [] = []
texts ((l, f) ∷ ls) = l ∷ texts ls

split-line : (l s : Bytes) → NoLf l → split lf (l ++ (lf ∷ s)) ≡ l ∷ split lf s
unfolding split
split-line [] s h = refl
split-line (c ∷ l) s h = rw (h.0, split-line l s h.1)

NoLf-cr : (l : Bytes) → NoLf l → NoLf (l ++ (cr ∷ []))
NoLf-cr [] h = (refl, tt)
NoLf-cr (c ∷ l) h = (h.0, NoLf-cr l h.1)

chomp-cr : (l : Bytes) → chomp (l ++ (cr ∷ [])) ≡ l
unfolding chomp
chomp-cr [] = refl
chomp-cr (c ∷ []) = refl
chomp-cr (c ∷ d ∷ l) = ap (λ r. c ∷ r) (chomp-cr (d ∷ l))

chomp-ends_cr : (l : Bytes) → ends_cr l ≡ false → chomp l ≡ l
unfolding chomp
chomp-ends_cr [] h = refl
chomp-ends_cr (c ∷ []) h = rw h
chomp-ends_cr (c ∷ d ∷ l) h = ap (λ r. c ∷ r) (chomp-ends_cr (d ∷ l) h)

chomp-split-line :
    (l : Bytes) (f : Bool) (s : Bytes)
    → IsLine l
    → map chomp (split lf (l ++ (eol f ++ s))) ≡ l ∷ map chomp (split lf s)
chomp-split-line l true s h =
    rw (sym (append_assoc l (cr ∷ []) (lf ∷ s)), split-line _ s (NoLf-cr l h.1), chomp-cr l)
chomp-split-line l false s h = rw (split-line l s h.1, chomp-ends_cr l h.2)

chomp-split-block :
    (ls : List (Bytes × Bool)) (e : Bool)
    → AreLines ls
    → map chomp (split lf (block ls e [])) ≡ texts ls ++ ([] ∷ [] ∷ [])
unfolding split chomp
chomp-split-block [] true h = refl
chomp-split-block [] false h = refl
chomp-split-block ((l, f) ∷ ls) e h =
    chomp-split-line l f _ h.0 ∙ ap (λ r. l ∷ r) (chomp-split-block ls e h.1)

but_last_two-append : (ls : List Bytes) (a b : Bytes) → but_last_two (ls ++ (a ∷ b ∷ [])) ≡ ls
unfolding but_last_two
but_last_two-append [] a b = refl
but_last_two-append (x ∷ []) a b = refl
but_last_two-append (x ∷ y ∷ []) a b = refl
but_last_two-append (x ∷ y ∷ z ∷ ls) a b = ap (λ r. x ∷ r) (but_last_two-append (y ∷ z ∷ ls) a b)

block-append :
    (ls : List (Bytes × Bool)) (e : Bool) (rest : Bytes) → block ls e rest ≡ block ls e [] ++ rest
block-append [] true rest = refl
block-append [] false rest = refl
block-append ((l, true) ∷ ls) e rest = simp (block-append ls e rest, append_assoc)
block-append ((l, false) ∷ ls) e rest = simp (block-append ls e rest, append_assoc)

blank_at-ne : (c : ℕ) (s : Bytes) → (c == lf) ≡ false → blank_at (c ∷ s) ≡ none
blank_at-ne c [] h = refl
blank_at-ne c (a ∷ []) h = rw h
blank_at-ne c (a ∷ b ∷ s) h = rw h

blank_line_end-later :
    (c : ℕ) (s : Bytes) {n : ℕ}
    → blank_at (c ∷ s) ≡ none
    → blank_line_end s ≡ some n
    → blank_line_end (c ∷ s) ≡ some (suc n)
unfolding blank_line_end
blank_line_end-later c s h e = ground (arith, match_blank (c ∷ s))

blank_line_end-here :
    (c : ℕ) (s : Bytes) {n : ℕ} → blank_at (c ∷ s) ≡ some n → blank_line_end (c ∷ s) ≡ some n
unfolding blank_line_end
blank_line_end-here c s h = ground (arith, match_blank (c ∷ s))

blank_line_end-line :
    (l s : Bytes) {n : ℕ}
    → NoLf l
    → blank_line_end s ≡ some n
    → blank_line_end (l ++ s) ≡ some (length l + n)
blank_line_end-line [] s h e = e ∙ ap some (omega arith)
blank_line_end-line (c ∷ l) s h e =
    blank_line_end-later c (l ++ s) (blank_at-ne c (l ++ s) h.0) (blank_line_end-line l s h.1 e)
    ∙ ap some (omega arith)

-- A line's LF begins no blank line if another line follows.
blank_at_line :
    (l : Bytes) (f : Bool) (s : Bytes) → IsLine l → blank_at (lf ∷ (l ++ (eol f ++ s))) ≡ none
blank_at_line [] f s h = cc
blank_at_line (c ∷ []) true s h = ground arith
blank_at_line (c ∷ []) false s h = ground arith
blank_at_line (c ∷ d ∷ l) f s h = ground arith

blank_line_end-eol :
    (f : Bool) (s : Bytes) {n : ℕ}
    → blank_line_end (lf ∷ s) ≡ some (suc n)
    → blank_line_end (eol f ++ s) ≡ some (length (eol f) + n)
blank_line_end-eol true s e =
    blank_line_end-later cr (lf ∷ s) (blank_at-ne cr (lf ∷ s) refl) e ∙ ap some (omega arith)
blank_line_end-eol false s e = e ∙ ap some (omega arith)

blank_at-lf : (s : Bytes) → blank_at (lf ∷ lf ∷ s) ≡ some 2
blank_at-lf [] = refl
blank_at-lf (c ∷ s) = refl

-- From the LF of a line on, a block's blank line ends where the block does.
blank_line_end-block :
    (ls : List (Bytes × Bool)) (e : Bool) (rest : Bytes)
    → AreLines ls
    → blank_line_end (lf ∷ block ls e rest) ≡ some (suc (length (block ls e [])))
blank_line_end-block [] true rest h = blank_line_end-here lf (crlf ++ rest) refl
blank_line_end-block [] false rest h = blank_line_end-here lf (lf ∷ rest) (blank_at-lf rest)
blank_line_end-block ((l, f) ∷ ls) e rest h =
    blank_line_end-later lf _ (blank_at_line l f _ h.0)
      (blank_line_end-line l _ h.0.1 (blank_line_end-eol f _ (blank_line_end-block ls e rest h.1)))
    ∙ ap some (
        omega
          (arith, length-append l (eol f ++ block ls e []), length-append (eol f) (block ls e [])))

first_byte :
    (l : Bytes) (f : Bool) (s : Bytes)
    → IsLine l
    → (eq_bytes (take 1 (l ++ (eol f ++ s))) (lf ∷ []) ≡ false)
      × (eq_bytes (take 2 (l ++ (eol f ++ s))) crlf ≡ false)
unfolding eq_bytes
first_byte [] f s h = cc
first_byte (c ∷ []) true s h = ground arith
first_byte (c ∷ []) false s h = ground arith
first_byte (c ∷ d ∷ l) f s h = ground arith

cut_lines-block :
    (ls : List (Bytes × Bool)) (e : Bool) (rest : Bytes) {n : ℕ}
    → AreLines ls
    → n ≡ length (block ls e [])
    → cut_lines (some n) (block ls e rest) ≡ (some (texts ls), rest)
cut_lines-block ls e rest h k = rw (
  k,
  block-append ls e rest,
  take-length_append (block ls e []) rest,
  drop-length_append (block ls e []) rest,
  chomp-split-block ls e h,
  but_last_two-append (texts ls),
)

first_lines-block :
    (l : Bytes) (f : Bool) (ls : List (Bytes × Bool)) (e : Bool) (rest : Bytes)
    → AreLines ((l, f) ∷ ls)
    → first_lines (block ((l, f) ∷ ls) e rest) ≡ (some (l ∷ texts ls), rest)
first_lines-block l f ls e rest h =
    let first = first_byte l f (block ls e rest) h.0 in
    let ends =
      blank_line_end-line l _ h.0.1 (blank_line_end-eol f _ (blank_line_end-block ls e rest h.1)) in
    rw (first.0, first.1, ends)
      (cut_lines-block ((l, f) ∷ ls) e rest h (
        omega
          (arith, length-append l (eol f ++ block ls e []), length-append (eol f) (block ls e []))))

-- However the bytes of a header block came in, once the buffer holds lines that are not blank, hold
-- no LF and do not end in CR, each ended by LF or CRLF, and then a blank line, `maybe_extract_lines`
-- returns these lines and leaves what follows the blank line.
pub maybe_extract_lines-block :
    (b : ReceiveBuffer) (l : Bytes) (f : Bool) (ls : List (Bytes × Bool)) (e : Bool) (rest : Bytes)
    → IsValid b
    → AreLines ((l, f) ∷ ls)
    → b.content ≡ block ((l, f) ∷ ls) e rest
    → ((maybe_extract_lines b).0 ≡ ok (some (l ∷ texts ls)))
      × ((maybe_extract_lines b).1.content ≡ rest)
maybe_extract_lines-block b l f ls e rest v h c =
    let (out, left, _) = maybe_extract_lines_lem b v in
    let read = ap first_lines c ∙ first_lines-block l f ls e rest h in
    (
      out ∙ ap (λ (t : Option (List Bytes) × Bytes). ok t.0) read,
      left ∙ ap (λ (t : Option (List Bytes) × Bytes). t.1) read,
    )
