-- ===== src/Readers/Chunks.antt =====
-- What `ChunkedWriter` (h11/_writers.py) writes, `ChunkedReader` (h11/_readers.py) reads.
use mathlib.Core.Path.{subst}
use h11_py.Prelude.{
  ℕ, suc, ◌^◌, ◌<◌, ◌-◌, true, false, Option, some, List, [], ◌∷◌, ◌++◌, ◌==◌, ltb, ◌≡◌, ◌⊎◌, inl,
  inr, refl, sym, ap, ◌∙◌, arith, length, take, drop, take-length_append, drop-length_append,
}
use h11_py.Util.{ok, Result, validate}
use h11_py.Abnf.{chunk_header}
use h11_py.Bytes.{Bytes, is_empty, eq_bytes}
use h11_py.Numeral.{numeral, int}
use h11_py.Numeral.Hex.{numeral-AllIn}
use h11_py.Numeral.Value.{int-numeral}
use h11_py.ReceiveBuffer.{
  ReceiveBuffer, crlf, extract, maybe_extract_at_most, maybe_extract_next_line,
}
use h11_py.ReceiveBuffer.Valid.{
  IsValid, first_line, first_lines, maybe_extract_lines_lem, maybe_extract_next_line_lem,
  maybe_extract_at_most-IsValid,
}
use h11_py.Readers.{
  Reading, ChunkedReader, new_chunked, read_chunk, read_chunk_data, read_chunked, read_trailer,
}
use h11_py.Readers.ChunkHeader.{first_line-hex, validate-chunk_header}
use h11_py.Events.{Event, new_data, end_of_message, new_end_of_message}
use h11_py.Headers.{normalize_and_validate}
use h11_py.Regex.{fullmatch}
use h11_py.Readers.Parse

maybe_extract_at_most-append :
    (b : ReceiveBuffer) (d rest : Bytes)
    → IsValid b
    → b.content ≡ d ++ rest
    → is_empty d ≡ false
    → ((maybe_extract_at_most (length d) b).0 ≡ some d)
      × ((maybe_extract_at_most (length d) b).1.content ≡ rest)
      × IsValid (maybe_extract_at_most (length d) b).1
unfolding maybe_extract_at_most extract
maybe_extract_at_most-append b d rest v c e =
    let taken : take (length d) b.content ≡ d =
      ap (take (length d)) c ∙ take-length_append d rest in
    let left : drop (length d) b.content ≡ rest =
      ap (drop (length d)) c ∙ drop-length_append d rest in
    let full : is_empty (take (length d) b.content) ≡ false = ap is_empty taken ∙ e in
    (rw full (ap some taken), rw full left, maybe_extract_at_most-IsValid (length d) b v)

-- The reader has read a chunk, and not yet the line end behind it.
abbrev pub at_line_end : ChunkedReader
at_line_end = record { bytes_in_chunk = 0; bytes_to_discard = 2; reading_trailer = false }

-- The reader stands before `stream`, with or without the line end of the chunk before.
pub record Before (s : Reading ChunkedReader) (stream : Bytes) : Type 0 where
  pub valid : IsValid s.buffer
  pub place :
      ((s.reader ≡ new_chunked) × (s.buffer.content ≡ stream))
      ⊎ ((s.reader ≡ at_line_end) × (s.buffer.content ≡ crlf ++ stream))

abbrev pub fresh : ReceiveBuffer → Reading ChunkedReader
fresh b = record { reader = new_chunked; buffer = b }

-- A call first drops that line end.
pub read_chunked-Before :
    (s : Reading ChunkedReader) (stream : Bytes)
    → Before s stream
    → (b : ReceiveBuffer) × IsValid b
      × (b.content ≡ stream)
      × (read_chunked s ≡ read_chunk (fresh b))
unfolding read_chunked
read_chunked-Before s stream h = elim h.place [
  | inl (r, c) ↦ (s.buffer, h.valid, c, rw r)
  | inr (r, c) ↦
      let (out, left, valid) = maybe_extract_at_most-append s.buffer crlf stream h.valid c refl in
      ((maybe_extract_at_most 2 s.buffer).1, valid, left, rw (r, out))
]

-- A whole chunk of `n` bytes is to come.
abbrev inside : ℕ → ReceiveBuffer → Reading ChunkedReader
inside n b = record {
  reader = record { bytes_in_chunk = n; bytes_to_discard = 0; reading_trailer = false };
  buffer = b;
}

pos : (n : ℕ) → ltb 0 (suc n) ≡ true
pos n = ground arith

sub_self : (n : ℕ) → n - n ≡ 0
sub_self n = omega arith

abbrev pub ReadsData : Bytes → Bytes → Result (Option Event) × Reading ChunkedReader → Type 0
ReadsData d rest m = (m.0 ≡ ok (some (new_data d true true))) × Before m.1 rest

read_chunk_data-append :
    (b : ReceiveBuffer) (d rest : Bytes)
    → IsValid b
    → b.content ≡ d ++ (crlf ++ rest)
    → is_empty d ≡ false
    → ReadsData d rest (read_chunk_data true (inside (length d) b))
unfolding read_chunk_data
read_chunk_data-append b [] rest v c e = cc
read_chunk_data-append b (x ∷ d) rest v c e =
    let (out, left, valid) = maybe_extract_at_most-append b (x ∷ d) (crlf ++ rest) v c e in
    rw (pos (length d), out, sub_self (length (x ∷ d)))
      (refl, record { valid = valid; place = inr (refl, left) })

-- The bytes of a chunk, as `send_chunk` writes them.
abbrev pub chunk : Bytes → Bytes → Bytes
chunk d rest = numeral 16 (length d) ++ (crlf ++ (d ++ (crlf ++ rest)))

ne_zero : (d : Bytes) → is_empty d ≡ false → (length d == 0) ≡ false
ne_zero [] e = cc
ne_zero (x ∷ d) e = ground arith

read_chunk-chunk :
    (b : ReceiveBuffer) (d rest : Bytes)
    → IsValid b
    → b.content ≡ chunk d rest
    → is_empty d ≡ false
    → length d < 16 ^ 20
    → ReadsData d rest (read_chunk (fresh b))
unfolding read_chunk
read_chunk-chunk b d rest v c e l =
    let (out, left, valid) = maybe_extract_next_line_lem b v in
    let line =
      ap first_line c ∙ first_line-hex (numeral 16 (length d)) _ (numeral-AllIn (length d)) in
    let header = out ∙ ap (λ (t : Option Bytes × Bytes). t.0) line in
    let behind = left ∙ ap (λ (t : Option Bytes × Bytes). t.1) line in
    rw
      (
        header,
        validate-chunk_header (length d) l,
        int-numeral 16 (length d) (omega arith) (omega arith),
        ne_zero d e,
      )
      (read_chunk_data-append (maybe_extract_next_line b).1 d rest valid behind e)

first_lines-crlf : (rest : Bytes) → first_lines (crlf ++ rest) ≡ (some [], rest)
unfolding eq_bytes
first_lines-crlf rest = refl

validate-zero :
    validate chunk_header ((b'0' ∷ []) ++ crlf) "illegal chunk header: {!r}"
    ≡ ok (("chunk_size", b'0' ∷ []) ∷ [])
unfolding validate fullmatch
validate-zero = refl

trailer-nil : Parse.trailer [] ≡ ok (end_of_message [])
unfolding Parse.trailer Parse.decode_header_lines new_end_of_message normalize_and_validate
trailer-nil = refl

pub read_chunked-chunk :
    (s : Reading ChunkedReader) (d rest : Bytes)
    → Before s (chunk d rest)
    → is_empty d ≡ false
    → length d < 16 ^ 20
    → ReadsData d rest (read_chunked s)
read_chunked-chunk s d rest h e l =
    let (b, v, c, same) = read_chunked-Before s _ h in
    subst (ReadsData d rest) (sym same) (read_chunk-chunk b d rest v c e l)

-- The end of a body with no trailers, as `end_chunks` writes it.
pub read_chunk-end :
    (b : ReceiveBuffer) (rest : Bytes)
    → IsValid b
    → b.content ≡ (b'0' ∷ []) ++ (crlf ++ (crlf ++ rest))
    → ((read_chunk (fresh b)).0 ≡ ok (some (end_of_message [])))
      × ((read_chunk (fresh b)).1.buffer.content ≡ rest)
unfolding read_chunk read_trailer int
read_chunk-end b rest v c =
    let (out, left, valid) = maybe_extract_next_line_lem b v in
    let line = ap first_line c ∙ first_line-hex (b'0' ∷ []) (crlf ++ rest) (refl, tt) in
    let header = out ∙ ap (λ (t : Option Bytes × Bytes). t.0) line in
    let behind = left ∙ ap (λ (t : Option Bytes × Bytes). t.1) line in
    let (none_left, rest_left, _) = maybe_extract_lines_lem (maybe_extract_next_line b).1 valid in
    let blank = ap first_lines behind ∙ first_lines-crlf rest in
    let lines = none_left ∙ ap (λ (t : Option (List Bytes) × Bytes). ok t.0) blank in
    let after = rest_left ∙ ap (λ (t : Option (List Bytes) × Bytes). t.1) blank in
    rw (header, validate-zero, lines, trailer-nil) (refl, after)
