-- ===== src/Readers/Table.antt =====
-- `READERS` of h11/_readers.py, the calls of its entries, and `read_eof`.
use h11_py.Prelude.{false, Option, none, some, List, if◌then◌else◌}
use h11_py.Effect.{Eff, return, throw, lift, ◌>>=◌}
use h11_py.Util.{local_error, remote_error, Result, ok, raise}
use h11_py.Bytes.{Bytes}
use h11_py.Events.{Event, new_end_of_message}
use h11_py.ReceiveBuffer.{
  ReceiveBuffer, is_drained, maybe_extract_lines, is_next_line_obviously_invalid_request_line,
}
use h11_py.Framing.{Framing, content_length, chunked, http10}
use h11_py.Readers.{
  Reading, ContentLengthReader, ChunkedReader, new_chunked, read_content_length, read_chunked,
  read_http10,
}
use h11_py.Readers.Parse.{parse_request, parse_response}
use h11_py.State.{Role, client, server, State, idle, send_response, done, must_close, closed}

-- The values of `READERS`, with the state of those that are objects.
pub data Reader : Type 0 where
  idle_client send_response_server expect_nothing : Reader
  by_content_length : ContentLengthReader → Reader
  by_chunks : ChunkedReader → Reader
  until_eof : Reader

-- What a line reader does with the extracted lines.
abbrev pub parse_lines :
    (List Bytes → Result Event) → Option (List Bytes) → Eff ReceiveBuffer (Option Event)
parse_lines parse (some lines) b = (do e ← lift (parse lines); return (some e)) b
parse_lines parse none b =
    (if is_next_line_obviously_invalid_request_line b
        then throw (local_error "illegal request line")
        else return none)
      b

-- `maybe_read_from_IDLE_client` and `maybe_read_from_SEND_RESPONSE_server`
unfoldable pub read_lines : (List Bytes → Result Event) → Eff ReceiveBuffer (Option Event)
read_lines parse = do lines ← maybe_extract_lines; parse_lines parse lines

-- `expect_nothing`
unfoldable pub read_nothing : Eff ReceiveBuffer (Option Event)
read_nothing b =
    (if is_drained b then return none else throw (local_error "Got data when expecting EOF")) b

-- Run a reader's code on its object, and put the object back.
abbrev pub rebuilt :
    {R : Type 0}
    → (R → Reader)
    → Result (Option Event) × Reading R
    → Result (Option Event) × Reading Reader
rebuilt make (r, s) = (r, record { reader = make s.reader; buffer = s.buffer })

abbrev pub stateless :
    Reader → Result (Option Event) × ReceiveBuffer → Result (Option Event) × Reading Reader
stateless reader (r, b) = (r, record { reader = reader; buffer = b })

abbrev pub infallible : Option Event × ReceiveBuffer → Result (Option Event) × ReceiveBuffer
infallible (e, b) = (ok e, b)

-- `self._reader(self._receive_buffer)`
unfoldable pub call_reader : Reader → ReceiveBuffer → Result (Option Event) × Reading Reader
call_reader idle_client b = stateless idle_client (read_lines parse_request b)
call_reader send_response_server b = stateless send_response_server (read_lines parse_response b)
call_reader expect_nothing b = stateless expect_nothing (read_nothing b)
call_reader (by_content_length c) b =
    rebuilt by_content_length (read_content_length (record { reader = c; buffer = b }))
call_reader (by_chunks c) b = rebuilt by_chunks (read_chunked (record { reader = c; buffer = b }))
call_reader until_eof b = stateless until_eof (infallible (read_http10 b))

-- `self._reader.read_eof()`, with `none` for a reader that has no such attribute.
unfoldable pub read_eof : Reader → Option (Result Event)
read_eof (by_content_length c) = some (
    raise (
      remote_error
        "peer closed connection without sending complete message body (received {} bytes, expected {})"))
read_eof (by_chunks c) = some (
    raise (
      remote_error
        "peer closed connection without sending complete message body (incomplete chunked read)"))
read_eof until_eof = some (new_end_of_message false none)
read_eof _ = none

-- `READERS.get((role, state))`
unfoldable pub reader_for : Role → State → Option Reader
reader_for client idle = some idle_client
reader_for server idle = some send_response_server
reader_for server send_response = some send_response_server
reader_for client done = some expect_nothing
reader_for client must_close = some expect_nothing
reader_for client closed = some expect_nothing
reader_for server done = some expect_nothing
reader_for server must_close = some expect_nothing
reader_for server closed = some expect_nothing
reader_for _ _ = none

-- `READERS[SEND_BODY][framing_type](*args)`
unfoldable pub body_reader : Framing → Reader
body_reader (content_length n) = by_content_length (record { length = n; remaining = n })
body_reader chunked = by_chunks new_chunked
body_reader http10 = until_eof
