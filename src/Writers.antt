-- ===== src/Writers.antt =====
-- h11/_writers.py: the writers. `write` appends to a list, so a writer returns what it wrote; the
-- content-length writer also changes its own state.
pub mod Counted
pub mod HostFirst
use h11_py.Prelude.{
  ℕ, ◌+◌, ◌-◌, Bool, true, false, not, Option, none, some, List, [], ◌∷◌, ◌++◌, leb, if◌then◌else◌,
  length,
}
use h11_py.Util.{local_error, assertion_error, attribute_error, Result, ok, raise, ◌>>◌, require}
use h11_py.Bytes.{Bytes, bytes, eq_bytes, is_empty}
use h11_py.Numeral.{numeral}
use h11_py.Headers.{Header, Headers}
use h11_py.Events.{
  Event, request, response, informational_response, data_, end_of_message, Request, Response,
}
use h11_py.Framing.{Framing, content_length, chunked, http10}
use h11_py.State.{Role, client, server, State, idle, send_response}

-- `b"%s: %s\\r\\n" % (raw_name, value)`
abbrev pub header_line : Header → Bytes
header_line h = h.raw_name ++ (bytes ": " ++ (h.value ++ bytes "\r\n"))

-- The lines of the headers whose name is "host", or of the others.
unfoldable pub lines_of : Bool → Headers → List Bytes
lines_of host [] = []
lines_of host (h ∷ hs) =
    let rest = lines_of host hs in
    let is_host = eq_bytes h.name (bytes "host") in
    if (if host then is_host else not is_host) then header_line h ∷ rest else rest

unfoldable pub write_headers : Headers → List Bytes
unfolding lines_of
write_headers hs = lines_of true hs ++ (lines_of false hs ++ (bytes "\r\n" ∷ []))

unfoldable pub write_request : Request → Result (List Bytes)
write_request r = do
  require (eq_bytes r.http_version (bytes "1.1")) (local_error "I only send HTTP/1.1")
  ok ((r.method ++ (bytes " " ++ (r.target ++ bytes " HTTP/1.1\r\n"))) ∷ write_headers r.headers)

unfoldable pub write_any_response : Response → Result (List Bytes)
write_any_response r = do
  require (eq_bytes r.http_version (bytes "1.1")) (local_error "I only send HTTP/1.1")
  ok (
      (bytes "HTTP/1.1 " ++ (numeral 10 r.status_code ++ (bytes " " ++ (r.reason ++ bytes "\r\n"))))
      ∷ write_headers r.headers)

-- A head writer on a head of the other class, by its version.
abbrev write_other : Bytes → Result (List Bytes)
write_other http_version = do
  require (eq_bytes http_version (bytes "1.1")) (local_error "I only send HTTP/1.1")
  raise attribute_error

-- `ContentLengthWriter._length`: what is still to be sent, or by how much it was exceeded.
pub data Length : Type 0 where
  left : ℕ → Length
  exceeded : ℕ → Length

-- `self._length - n`; `exceeded k` is the number -(k + 1).
abbrev pub minus : Length → ℕ → Length
minus (left m) n = if leb n m then left (m - n) else exceeded (n - m - 1)
minus (exceeded k) n = exceeded (k + n)

pub data Writer : Type 0 where
  for_request for_response : Writer
  by_content_length : Length → Writer
  by_chunks until_close : Writer

-- `ContentLengthWriter.send_data`
abbrev send_counted : Bytes → Length → Result (List Bytes)
send_counted content (left n) = ok (content ∷ [])
send_counted content (exceeded n) = raise (local_error "Too much data for declared Content-Length")

-- `ContentLengthWriter.send_eom`
abbrev end_counted : Length → Headers → Result (List Bytes)
end_counted (left n) headers = do
  require (leb n 0) (local_error "Too little data for declared Content-Length")
  require (is_empty headers) (local_error "Content-Length and trailers don't mix")
  ok []
end_counted (exceeded n) headers = raise (local_error "Too little data for declared Content-Length")

-- `ChunkedWriter.send_data`
unfoldable pub send_chunk : Bytes → List Bytes
send_chunk content =
    if is_empty content
    then []
    else (numeral 16 (length content) ++ bytes "\r\n") ∷ content ∷ bytes "\r\n" ∷ []

-- `ChunkedWriter.send_eom`
unfoldable pub end_chunks : Headers → List Bytes
end_chunks headers = bytes "0\r\n" ∷ write_headers headers

-- `writer(event, write)`; the second part is the writer's object after the call. On an event of another
-- class a head writer checks the version, if the event has one, and then meets a missing attribute; a
-- body writer meets its `assert False`.
unfoldable pub call_writer : Writer → Event → Result (List Bytes) × Writer
call_writer for_request (request r) = (write_request r, for_request)
call_writer for_response (response r) = (write_any_response r, for_response)
call_writer for_response (informational_response r) = (write_any_response r, for_response)
call_writer (by_content_length n) (data_ d) =
    let n' = minus n (length d.content) in (send_counted d.content n', by_content_length n')
call_writer (by_content_length n) (end_of_message headers) =
    (end_counted n headers, by_content_length n)
call_writer by_chunks (data_ d) = (ok (send_chunk d.content), by_chunks)
call_writer by_chunks (end_of_message headers) = (ok (end_chunks headers), by_chunks)
call_writer until_close (data_ d) = (ok (d.content ∷ []), until_close)
call_writer until_close (end_of_message headers) = (
  (do require (is_empty headers) (local_error "can't send trailers to HTTP/1.0 client"); ok []),
  until_close,
)
call_writer for_request (response r) = (write_other r.http_version, for_request)
call_writer for_request (informational_response r) = (write_other r.http_version, for_request)
call_writer for_response (request r) = (write_other r.http_version, for_response)
call_writer for_request _ = (raise attribute_error, for_request)
call_writer for_response _ = (raise attribute_error, for_response)
call_writer w _ = (raise assertion_error, w)

-- `WRITERS.get((role, state))`
unfoldable pub writer_for : Role → State → Option Writer
writer_for client idle = some for_request
writer_for server idle = some for_response
writer_for server send_response = some for_response
writer_for _ _ = none

-- `WRITERS[SEND_BODY][framing_type](*args)`
unfoldable pub body_writer : Framing → Writer
body_writer (content_length n) = by_content_length (left n)
body_writer chunked = by_chunks
body_writer http10 = until_close
