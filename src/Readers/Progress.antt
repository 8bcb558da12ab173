-- ===== src/Readers/Progress.antt =====
-- How much a call of a reader (h11/_readers.py) leaves in the buffer.
use h11_py.Prelude.{
  ℕ, ◌-◌, ◌≤◌, ◌<◌, Bool, true, false, ltb, ◌==◌, Option, none, some, List, length, inl, inr, arith,
  Bool-cases,
}
use h11_py.Util.{Result, ok, raise, Result-cases, group_of, or_empty, validate}
use h11_py.Effect.{then_do, return}
use h11_py.Effect.Ends.{Ends, then-Ends, weaken-Ends}
use h11_py.Bytes.{Bytes}
use h11_py.Numeral.{int}
use h11_py.Abnf.{chunk_header}
use h11_py.Events.{
  Event, request, informational_response, response, data_, end_of_message, connection_closed,
  new_end_of_message,
}
use h11_py.ReceiveBuffer.{
  ReceiveBuffer, maybe_extract_at_most, maybe_extract_next_line, maybe_extract_lines,
  is_next_line_obviously_invalid_request_line, is_drained,
}
use h11_py.ReceiveBuffer.Shrinks.{
  Shrinks, maybe_extract_at_most-Shrinks, maybe_extract_next_line-le, maybe_extract_lines-Shrinks,
}
use h11_py.Readers.{
  Reading, ContentLengthReader, ChunkedReader, on_buffer, give_body, read_content_length,
  trailer_event, read_trailer, give_chunk, read_chunk_data, open_chunk, read_chunk, discard_bytes,
  read_chunked, read_http10,
}
use h11_py.Readers.Parse.{map_data, parse_request, parse_response, trailer}
use h11_py.Readers.Table.{
  Reader, idle_client, send_response_server, expect_nothing, by_content_length, by_chunks,
  until_eof, parse_lines, read_lines, read_nothing, rebuilt, stateless, infallible, call_reader,
}

-- Every event but an EndOfMessage has taken something out of a buffer of `n` bytes.
abbrev pub Consumes : ℕ → Option Event → ReceiveBuffer → Type 0
Consumes n (some (request r)) b = length b.content < n
Consumes n (some (informational_response r)) b = length b.content < n
Consumes n (some (response r)) b = length b.content < n
Consumes n (some (data_ d)) b = length b.content < n
Consumes n _ b = length b.content ≤ n

abbrev pub Reads : {R : Type 0} → ℕ → Result (Option Event) × Reading R → Type 0
Reads n m = Ends (λ e s. Consumes n e s.buffer) (λ _ _. Unit) m

shrunk-Consumes :
    (n : ℕ) (e : Event) (b : ReceiveBuffer) → length b.content < n → Consumes n (some e) b
shrunk-Consumes n (request r) b h = h
shrunk-Consumes n (informational_response r) b h = h
shrunk-Consumes n (response r) b h = h
shrunk-Consumes n (data_ d) b h = h
shrunk-Consumes n (end_of_message hs) b h = omega arith
shrunk-Consumes n connection_closed b h = omega arith

lifted-Consumes :
    {S : Type 0} (n : ℕ) (m : Result Event) (buffer : S → ReceiveBuffer) (s : S)
    → length (buffer s).content < n
    → Ends (λ e t. Consumes n e (buffer t)) (λ _ _. Unit) (then_do (m, s) (λ e. return (some e)))
lifted-Consumes n (ok e) buffer s h = shrunk-Consumes n e (buffer s) h
lifted-Consumes n (raise x) buffer s h = tt

parse_lines-Consumes :
    (n : ℕ) (parse : List Bytes → Result Event) (ls : Option (List Bytes)) (b : ReceiveBuffer)
    → Shrinks n ls b
    → Ends (λ e b. Consumes n e b) (λ _ _. Unit) (parse_lines parse ls b)
parse_lines-Consumes n parse (some lines) b h = lifted-Consumes n (parse lines) (λ b. b) b h
parse_lines-Consumes n parse none b h =
    elim (Bool-cases (is_next_line_obviously_invalid_request_line b)) [
      | inl e ↦ rw e tt
      | inr e ↦ rw e h
    ]

read_lines-Consumes :
    (parse : List Bytes → Result Event) (b : ReceiveBuffer)
    → Ends (λ e b'. Consumes (length b.content) e b') (λ _ _. Unit) (read_lines parse b)
unfolding read_lines
read_lines-Consumes parse b =
    then-Ends _ _ _ (maybe_extract_lines b) (parse_lines parse) (maybe_extract_lines-Shrinks b)
      (λ ls b' h. parse_lines-Consumes (length b.content) parse ls b' h)

read_nothing-Consumes :
    (b : ReceiveBuffer)
    → Ends (λ e b'. Consumes (length b.content) e b') (λ _ _. Unit) (read_nothing b)
unfolding read_nothing
read_nothing-Consumes b = elim (Bool-cases (is_drained b)) [
  | inl e ↦ rw e (omega arith)
  | inr e ↦ rw e tt
]

give_body-Consumes :
    (n : ℕ) (o : Option Bytes) (s : Reading ContentLengthReader)
    → Shrinks n o s.buffer
    → Reads n (give_body o s)
give_body-Consumes n none s h = h
give_body-Consumes n (some x) s h = h

read_content_length-Consumes :
    (s : Reading ContentLengthReader) → Reads (length s.buffer.content) (read_content_length s)
unfolding read_content_length new_end_of_message
read_content_length-Consumes s = elim (Bool-cases (s.reader.remaining == 0)) [
  | inl e ↦ rw e (omega arith)
  | inr e ↦ rw e (
      give_body-Consumes (length s.buffer.content)
        (maybe_extract_at_most s.reader.remaining s.buffer).0
        (record s { buffer = (maybe_extract_at_most s.reader.remaining s.buffer).1 })
        (maybe_extract_at_most-Shrinks s.reader.remaining s.buffer))
]

trailer_event-Consumes :
    (n : ℕ) (ls : Option (List Bytes)) (s : Reading ChunkedReader)
    → Shrinks n ls s.buffer
    → Reads n (trailer_event ls s)
trailer_event-Consumes n none s h = h
trailer_event-Consumes n (some lines) s h = lifted-Consumes n (trailer lines) (λ s. s.buffer) s h

on_buffer-Ends :
    {A : Type 0} (P : A → ReceiveBuffer → Type 0) (m : Result A × ReceiveBuffer)
    (s : Reading ChunkedReader)
    → Ends P (λ _ _. Unit) m
    → Ends (λ a t. P a t.buffer) (λ _ _. Unit) (m.0, record s { buffer = m.1 })
on_buffer-Ends P (ok a, b) s h = h
on_buffer-Ends P (raise x, b) s h = h

Shrinks-le :
    {A : Type 0} (m n : ℕ) (o : Option A) (b : ReceiveBuffer)
    → m ≤ n
    → Shrinks m o b
    → Shrinks n o b
Shrinks-le m n none b l h = omega arith
Shrinks-le m n (some a) b l h = omega arith

Shrinks_le :
    {A : Type 0} (n : ℕ) (o : Option A) (b : ReceiveBuffer) → Shrinks n o b → length b.content ≤ n
Shrinks_le n none b h = h
Shrinks_le n (some a) b h = omega arith

module _ (n : ℕ) where
  -- The buffer of a chunked reader, part of the way through a call.
  abbrev Within : Reading ChunkedReader → Type 0
  Within s = length s.buffer.content ≤ n

  read_trailer-Consumes : (s : Reading ChunkedReader) → Within s → Reads n (read_trailer s)
  unfolding read_trailer
  read_trailer-Consumes s w =
      then-Ends (λ ls s'. Shrinks n ls s'.buffer) _ _ (on_buffer maybe_extract_lines s)
        trailer_event
        (on_buffer-Ends (Shrinks n) (maybe_extract_lines s.buffer) s (
          weaken-Ends _ _ _ _ (maybe_extract_lines s.buffer)
            (λ ls b h. Shrinks-le (length s.buffer.content) n ls b w h) (λ _ _ u. u)
            (maybe_extract_lines-Shrinks s.buffer)))
        (λ ls s' h. trailer_event-Consumes n ls s' h)

  at_most :
      (k : ℕ) (s : Reading ChunkedReader)
      → Within s
      → Shrinks n (maybe_extract_at_most k s.buffer).0 (maybe_extract_at_most k s.buffer).1
  at_most k s w =
      Shrinks-le (length s.buffer.content) n (maybe_extract_at_most k s.buffer).0
        (maybe_extract_at_most k s.buffer).1 w (maybe_extract_at_most-Shrinks k s.buffer)

  give_chunk-Consumes :
      (start : Bool) (o : Option Bytes) (s : Reading ChunkedReader)
      → Shrinks n o s.buffer
      → Reads n (give_chunk start o s)
  give_chunk-Consumes start none s h = h
  give_chunk-Consumes start (some x) s h = h

  read_chunk_data-Consumes :
      (start : Bool) (s : Reading ChunkedReader) → Within s → Reads n (read_chunk_data start s)
  unfolding read_chunk_data
  read_chunk_data-Consumes start s w = elim (Bool-cases (ltb 0 s.reader.bytes_in_chunk)) [
    | inl e ↦ rw e (
        give_chunk-Consumes start (maybe_extract_at_most s.reader.bytes_in_chunk s.buffer).0
          (record s { buffer = (maybe_extract_at_most s.reader.bytes_in_chunk s.buffer).1 })
          (at_most s.reader.bytes_in_chunk s w))
    | inr e ↦ rw e tt
  ]

  open_chunk-Consumes :
      (o : Option Bytes) (s : Reading ChunkedReader) → Within s → Reads n (open_chunk o s)
  open_chunk-Consumes none s w = w
  open_chunk-Consumes (some header) s w =
      elim (Result-cases (validate chunk_header header "illegal chunk header: {!r}")) [
        | inr (x, e) ↦ rw e tt
        | inl (g, e) ↦ rw e (
            let size = int 16 (or_empty (group_of "chunk_size" g)) in
            elim (Bool-cases (size == 0)) [
              | inl k ↦ rw k (read_trailer-Consumes _ w)
              | inr k ↦ rw k (
                  read_chunk_data-Consumes true
                    (record s { reader = record s.reader { bytes_in_chunk = size } }) w)
            ])
      ]

  read_chunk-Consumes : (s : Reading ChunkedReader) → Within s → Reads n (read_chunk s)
  unfolding read_chunk
  read_chunk-Consumes s w = elim (Bool-cases (s.reader.bytes_to_discard == 0)) [
    | inr e ↦ rw e tt
    | inl e ↦ rw e (elim (Bool-cases (s.reader.bytes_in_chunk == 0)) [
      | inl k ↦ rw k (
          open_chunk-Consumes (maybe_extract_next_line s.buffer).0
            (record s { buffer = (maybe_extract_next_line s.buffer).1 })
            (omega (arith, maybe_extract_next_line-le s.buffer)))
      | inr k ↦ rw k (read_chunk_data-Consumes false s w)
    ])
  ]

  discard_bytes-Consumes :
      (o : Option Bytes) (s : Reading ChunkedReader) → Within s → Reads n (discard_bytes o s)
  discard_bytes-Consumes none s w = w
  discard_bytes-Consumes (some x) s w =
      let left = s.reader.bytes_to_discard - length x in
      elim (Bool-cases (ltb 0 left)) [
        | inl e ↦ rw e w
        | inr e ↦ rw e (
            read_chunk-Consumes (record s { reader = record s.reader { bytes_to_discard = left } })
              w)
      ]

  read_chunked-Consumes : (s : Reading ChunkedReader) → Within s → Reads n (read_chunked s)
  unfolding read_chunked
  read_chunked-Consumes s w = elim (Bool-cases s.reader.reading_trailer) [
    | inl e ↦ simp e (read_trailer-Consumes s w)
    | inr e ↦ simp e (elim (Bool-cases (ltb 0 s.reader.bytes_to_discard)) [
      | inl k ↦ rw k (
          discard_bytes-Consumes (maybe_extract_at_most s.reader.bytes_to_discard s.buffer).0
            (record s { buffer = (maybe_extract_at_most s.reader.bytes_to_discard s.buffer).1 })
            (Shrinks_le n _ _ (at_most s.reader.bytes_to_discard s w)))
      | inr k ↦ rw k (read_chunk-Consumes s w)
    ])
  ]

mapped :
    (n : ℕ) (o : Option Bytes) (b : ReceiveBuffer)
    → Shrinks n o b
    → Ends (λ e b'. Consumes n e b') (λ _ _. Unit) (infallible (map_data o, b))
mapped n none b h = h
mapped n (some x) b h = h

read_http10-Consumes :
    (b : ReceiveBuffer)
    → Ends (λ e b'. Consumes (length b.content) e b') (λ _ _. Unit) (infallible (read_http10 b))
unfolding read_http10
read_http10-Consumes b =
    mapped (length b.content) (maybe_extract_at_most 999999999 b).0
      (maybe_extract_at_most 999999999 b).1 (maybe_extract_at_most-Shrinks 999999999 b)

stateless-Consumes :
    (n : ℕ) (rd : Reader) (m : Result (Option Event) × ReceiveBuffer)
    → Ends (λ e b. Consumes n e b) (λ _ _. Unit) m
    → Reads n (stateless rd m)
stateless-Consumes n rd (ok e, b) h = h
stateless-Consumes n rd (raise x, b) h = h

rebuilt-Consumes :
    {R : Type 0} (n : ℕ) (make : R → Reader) (m : Result (Option Event) × Reading R)
    → Reads n m
    → Reads n (rebuilt make m)
rebuilt-Consumes n make (ok e, s) h = h
rebuilt-Consumes n make (raise x, s) h = h

-- A call of any reader leaves no more in the buffer than there was, and less if it returns an event
-- that is no EndOfMessage.
pub call_reader-Consumes :
    (rd : Reader) (b : ReceiveBuffer) → Reads (length b.content) (call_reader rd b)
unfolding call_reader
call_reader-Consumes idle_client b =
    stateless-Consumes (length b.content) idle_client (read_lines parse_request b)
      (read_lines-Consumes parse_request b)
call_reader-Consumes send_response_server b =
    stateless-Consumes (length b.content) send_response_server (read_lines parse_response b)
      (read_lines-Consumes parse_response b)
call_reader-Consumes expect_nothing b =
    stateless-Consumes (length b.content) expect_nothing (read_nothing b) (read_nothing-Consumes b)
call_reader-Consumes (by_content_length c) b =
    rebuilt-Consumes (length b.content) by_content_length
      (read_content_length (record { reader = c; buffer = b }))
      (read_content_length-Consumes (record { reader = c; buffer = b }))
call_reader-Consumes (by_chunks c) b =
    rebuilt-Consumes (length b.content) by_chunks (read_chunked (record { reader = c; buffer = b }))
      (read_chunked-Consumes (length b.content) (record { reader = c; buffer = b }) (omega arith))
call_reader-Consumes until_eof b =
    stateless-Consumes (length b.content) until_eof (infallible (read_http10 b))
      (read_http10-Consumes b)
