-- ===== src/Readers/ChunkOutcome.antt =====
-- What `ChunkedReader.__call__` (h11/_readers.py) returns or raises, and the buffer that it leaves.
use h11_py.Prelude.{
  ℕ, ◌-◌, Bool, true, false, ltb, ◌==◌, Option, none, some, List, length, ◌≡◌, inl, inr, arith,
  Bool-cases,
}
use h11_py.Util.{group_of, or_empty, validate}
use h11_py.Util.Outcome.{IsLocal, validate-OnlyLocal}
use h11_py.Effect.{return}
use h11_py.Effect.Ends.{then-Ends, lift-Ends}
use h11_py.Bytes.{Bytes}
use h11_py.Numeral.{int}
use h11_py.Abnf.{chunk_header}
use h11_py.Events.WellFormed.{IsEvent}
use h11_py.ReceiveBuffer.{maybe_extract_at_most, maybe_extract_next_line, maybe_extract_lines}
use h11_py.ReceiveBuffer.Valid.{
  IsValid, maybe_extract_at_most-IsValid, maybe_extract_next_line_lem, maybe_extract_lines_lem,
}
use h11_py.Readers.{
  Reading, ChunkedReader, on_buffer, trailer_event, read_trailer, give_chunk, read_chunk_data,
  open_chunk, read_chunk, discard_bytes, read_chunked,
}
use h11_py.Readers.Parse.{trailer}
use h11_py.Readers.Lines.{trailer-GivesEvent}
use h11_py.Readers.Outcome.{Reads}

read_eom-Reads :
    (ls : Option (List Bytes)) (s : Reading ChunkedReader)
    → IsValid s.buffer
    → Reads (trailer_event ls s)
read_eom-Reads none s v = (tt, v)
read_eom-Reads (some lines) s v =
    then-Ends (λ e s. IsEvent e × IsValid s.buffer) _ _ (trailer lines, s)
      (λ eom. return (some eom))
      (lift-Ends IsEvent IsLocal (λ s. IsValid s.buffer) (trailer lines) s
        (trailer-GivesEvent lines) v)
      (λ e s' p. p)

read_trailer-Reads : (s : Reading ChunkedReader) → IsValid s.buffer → Reads (read_trailer s)
unfolding read_trailer
read_trailer-Reads s v =
    then-Ends (λ ls s. IsValid s.buffer) _ _ (on_buffer maybe_extract_lines s) trailer_event
      (let (out, _, v') = maybe_extract_lines_lem s.buffer v in rw out v')
      (λ ls s' v'. read_eom-Reads ls s' v')

give_chunk-Reads :
    (start : Bool) (o : Option Bytes) (s : Reading ChunkedReader)
    → IsValid s.buffer
    → Reads (give_chunk start o s)
give_chunk-Reads start none s v = (tt, v)
give_chunk-Reads start (some x) s v = (tt, v)

read_chunk_data-Reads :
    (start : Bool) (s : Reading ChunkedReader)
    → ltb 0 s.reader.bytes_in_chunk ≡ true
    → IsValid s.buffer
    → Reads (read_chunk_data start s)
unfolding read_chunk_data
read_chunk_data-Reads start s h v = rw h (
    give_chunk-Reads start (maybe_extract_at_most s.reader.bytes_in_chunk s.buffer).0
      (record s { buffer = (maybe_extract_at_most s.reader.bytes_in_chunk s.buffer).1 })
      (maybe_extract_at_most-IsValid s.reader.bytes_in_chunk s.buffer v))

positive : (n : ℕ) → n == 0 ≡ false → ltb 0 n ≡ true
positive n h = ground arith

not_positive : (n : ℕ) → ltb 0 n ≡ false → n == 0 ≡ true
not_positive n h = ground arith

open_chunk-Reads :
    (o : Option Bytes) (s : Reading ChunkedReader) → IsValid s.buffer → Reads (open_chunk o s)
open_chunk-Reads none s v = (tt, v)
open_chunk-Reads (some header) s v =
    then-Ends (λ g s. Unit × IsValid s.buffer) _ _
      (validate chunk_header header "illegal chunk header: {!r}", s) _
      (lift-Ends (λ g. Unit) IsLocal (λ s. IsValid s.buffer)
        (validate chunk_header header "illegal chunk header: {!r}") s
        (validate-OnlyLocal chunk_header header "illegal chunk header: {!r}") v)
      (λ g s' p.
        let size = int 16 (or_empty (group_of "chunk_size" g)) in
        elim (Bool-cases (size == 0)) [
          | inl e ↦ rw e (read_trailer-Reads _ p.1)
          | inr e ↦ rw e (
              read_chunk_data-Reads true
                (record s' { reader = record s'.reader { bytes_in_chunk = size } })
                (positive size e) p.1)
        ])

read_chunk-Reads :
    (s : Reading ChunkedReader)
    → s.reader.bytes_to_discard == 0 ≡ true
    → IsValid s.buffer
    → Reads (read_chunk s)
unfolding read_chunk
read_chunk-Reads s h v = rw h (elim (Bool-cases (s.reader.bytes_in_chunk == 0)) [
  | inl e ↦ rw e (
      let (_, _, v') = maybe_extract_next_line_lem s.buffer v in
      open_chunk-Reads (maybe_extract_next_line s.buffer).0
        (record s { buffer = (maybe_extract_next_line s.buffer).1 }) v')
  | inr e ↦ rw e (read_chunk_data-Reads false s (positive s.reader.bytes_in_chunk e) v)
])

discard_bytes-Reads :
    (o : Option Bytes) (s : Reading ChunkedReader) → IsValid s.buffer → Reads (discard_bytes o s)
discard_bytes-Reads none s v = (tt, v)
discard_bytes-Reads (some x) s v =
    let left = s.reader.bytes_to_discard - length x in
    elim (Bool-cases (ltb 0 left)) [
      | inl e ↦ rw e (tt, v)
      | inr e ↦ rw e (
          read_chunk-Reads (record s { reader = record s.reader { bytes_to_discard = left } })
            (not_positive left e) v)
    ]

pub read_chunked-Reads : (s : Reading ChunkedReader) → IsValid s.buffer → Reads (read_chunked s)
unfolding read_chunked
read_chunked-Reads s v = elim (Bool-cases s.reader.reading_trailer) [
  | inl e ↦ simp e (read_trailer-Reads s v)
  | inr e ↦ simp e (elim (Bool-cases (ltb 0 s.reader.bytes_to_discard)) [
    | inl k ↦ rw k (
        discard_bytes-Reads (maybe_extract_at_most s.reader.bytes_to_discard s.buffer).0
          (record s { buffer = (maybe_extract_at_most s.reader.bytes_to_discard s.buffer).1 })
          (maybe_extract_at_most-IsValid s.reader.bytes_to_discard s.buffer v))
    | inr k ↦ rw k (read_chunk-Reads s (not_positive s.reader.bytes_to_discard k) v)
  ])
]
