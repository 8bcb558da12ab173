-- ===== src/Readers.antt =====
-- h11/_readers.py: the readers. A reader is an object with its own state, so a call of one changes the
-- pair of that state and the receive buffer.
pub mod HeaderLine
pub mod Answered
pub mod StatusLine
pub mod Written
pub mod RequestLine
pub mod Parse
pub mod Table
pub mod ChunkHeader
pub mod Chunks
pub mod Body
pub mod Counted
pub mod Lines
pub mod Outcome
pub mod ChunkOutcome
pub mod Called
pub mod Progress
use h11_py.Prelude.{
  ℕ, ◌-◌, Bool, true, false, Option, none, some, List, [], ◌∷◌, ltb, ◌==◌, if◌then◌else◌, length,
}
use h11_py.Effect.{Eff, return, assert, modify, lift, get, ◌>>=◌, ◌>>◌}
use h11_py.Util.{ok, group_of, or_empty, validate}
use h11_py.Bytes.{Bytes}
use h11_py.Numeral.{int}
use h11_py.Abnf.{chunk_header}
use h11_py.Events.{Event, new_data, new_end_of_message}
use h11_py.ReceiveBuffer.{
  ReceiveBuffer, maybe_extract_at_most, maybe_extract_next_line, maybe_extract_lines,
}

-- A reader's object and the buffer that it is called with.
pub record Reading (R : Type 0) : Type 0 where
  pub reader : R
  pub buffer : ReceiveBuffer

module _ {R : Type 0} where
  -- A method of the buffer.
  abbrev pub on_buffer : {A : Type 0} → Eff ReceiveBuffer A → Eff (Reading R) A
  on_buffer m s = let (r, b) = m s.buffer in (r, record s { buffer = b })

  abbrev pub extracted :
      {A : Type 0} → (ReceiveBuffer → Option A × ReceiveBuffer) → Eff (Reading R) (Option A)
  extracted f s = let (a, b) = f s.buffer in (ok a, record s { buffer = b })

  abbrev pub set_reader : R → Eff (Reading R) (Unit {0})
  set_reader r = modify λ s. record s { reader = r }

pub record ContentLengthReader : Type 0 where
  pub length : ℕ
  pub remaining : ℕ

-- After `data = buf.maybe_extract_at_most(self._remaining)`.
abbrev pub give_body : Option Bytes → Eff (Reading ContentLengthReader) (Option Event)
give_body none = return none
give_body (some content) = do
  s ← get
  set_reader (record s.reader { remaining = s.reader.remaining - length content })
  return (some (new_data content false false))

-- `ContentLengthReader.__call__`
unfoldable pub read_content_length : Eff (Reading ContentLengthReader) (Option Event)
read_content_length s =
    if s.reader.remaining == 0
    then (do eom ← lift (new_end_of_message false none); return (some eom)) s
    else (do content ← extracted (maybe_extract_at_most s.reader.remaining); give_body content) s

pub record ChunkedReader : Type 0 where
  pub bytes_in_chunk : ℕ
  pub bytes_to_discard : ℕ
  pub reading_trailer : Bool

abbrev pub new_chunked : ChunkedReader
new_chunked = record { bytes_in_chunk = 0; bytes_to_discard = 0; reading_trailer = false }

abbrev pub Chunked : Type 0 → Type 0
Chunked A = Eff (Reading ChunkedReader) A

abbrev pub trailer_event : Option (List Bytes) → Chunked (Option Event)
trailer_event none = return none
trailer_event (some lines) = do eom ← lift (Parse.trailer lines); return (some eom)

-- `if self._reading_trailer:`
unfoldable pub read_trailer : Chunked (Option Event)
read_trailer = do lines ← on_buffer maybe_extract_lines; trailer_event lines

-- After `data = buf.maybe_extract_at_most(self._bytes_in_chunk)`.
abbrev pub give_chunk : Bool → Option Bytes → Chunked (Option Event)
give_chunk chunk_start none = return none
give_chunk chunk_start (some content) = do
  s ← get
  let left = s.reader.bytes_in_chunk - length content
  let discard = if left == 0 then 2 else s.reader.bytes_to_discard
  set_reader (record s.reader { bytes_in_chunk = left; bytes_to_discard = discard })
  return (some (new_data content chunk_start (left == 0)))

unfoldable pub read_chunk_data : Bool → Chunked (Option Event)
read_chunk_data chunk_start = do
  s ← get
  assert (ltb 0 s.reader.bytes_in_chunk)
  content ← extracted (maybe_extract_at_most s.reader.bytes_in_chunk)
  give_chunk chunk_start content

-- After `chunk_header = buf.maybe_extract_next_line()`; the inner call of `self(buf)` finds
-- `_reading_trailer` set.
abbrev pub open_chunk : Option Bytes → Chunked (Option Event)
open_chunk none = return none
open_chunk (some header) = do
  matches ← lift (validate chunk_header header "illegal chunk header: {!r}")
  let size = int 16 (or_empty (group_of "chunk_size" matches))
  modify λ s. record s { reader = record s.reader { bytes_in_chunk = size } }
  if size == 0
      then (do
        modify λ s. record s { reader = record s.reader { reading_trailer = true } }
        read_trailer)
      else read_chunk_data true

-- From `assert self._bytes_to_discard == 0` on.
unfoldable pub read_chunk : Chunked (Option Event)
read_chunk s =
    (do
      assert (s.reader.bytes_to_discard == 0)
      if s.reader.bytes_in_chunk == 0
          then (do header ← extracted maybe_extract_next_line; open_chunk header)
          else read_chunk_data false)
      s

-- After `data = buf.maybe_extract_at_most(self._bytes_to_discard)`.
abbrev pub discard_bytes : Option Bytes → Chunked (Option Event)
discard_bytes none = return none
discard_bytes (some content) = do
  s ← get
  let left = s.reader.bytes_to_discard - length content
  set_reader (record s.reader { bytes_to_discard = left })
  if ltb 0 left then return none else read_chunk

-- `ChunkedReader.__call__`
unfoldable pub read_chunked : Chunked (Option Event)
read_chunked s =
    (if s.reader.reading_trailer
        then read_trailer
        else if ltb 0 s.reader.bytes_to_discard
        then (do
          content ← extracted (maybe_extract_at_most s.reader.bytes_to_discard)
          discard_bytes content)
        else read_chunk)
      s

-- `Http10Reader.__call__`
unfoldable pub read_http10 : ReceiveBuffer → Option Event × ReceiveBuffer
read_http10 b =
    let (content, b') = maybe_extract_at_most 999999999 b in (Parse.map_data content, b')
