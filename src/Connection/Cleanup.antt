-- ===== src/Connection/Cleanup.antt =====
-- `_clean_up_response_headers_for_sending` of h11/_connection.py.
use h11_py.Prelude.{Bool, true, false, not, ◌||◌, Option, none, some, List, [], ◌∷◌, if◌then◌else◌}
use h11_py.Util.{Result, ok, ◌>>=◌, raw}
use h11_py.Bytes.{Bytes, bytes, eq_bytes, lt_bytes}
use h11_py.Events.{Response, response, ready, new_response}
use h11_py.Framing.{Framing, content_length, chunked, http10, body_framing}
use h11_py.Headers.{Headers, get_comma_header, set_comma_header}

-- Insertion into a sorted list of distinct values.
abbrev pub insert : Bytes → List Bytes → List Bytes
insert v [] = v ∷ []
insert v (w ∷ ws) =
    let rest = w ∷ insert v ws in
    if eq_bytes v w then w ∷ ws else if lt_bytes v w then v ∷ w ∷ ws else rest

-- `sorted(set(values))`
unfoldable pub sorted_set : List Bytes → List Bytes
sorted_set [] = []
sorted_set (v ∷ vs) = insert v (sorted_set vs)

abbrev pub discard : Bytes → List Bytes → List Bytes
discard v [] = []
discard v (w ∷ ws) = if eq_bytes v w then discard v ws else w ∷ discard v ws

-- `method_for_choosing_headers`
abbrev pub choosing_method : Option Bytes → Option Bytes
choosing_method none = none
choosing_method (some m) = some (if eq_bytes m (bytes "HEAD") then bytes "GET" else m)

-- `self.their_http_version is None or self.their_http_version < b"1.1"`
abbrev pub is_old : Option Bytes → Bool
is_old none = true
is_old (some v) = lt_bytes v (bytes "1.1")

abbrev is_head : Option Bytes → Bool
is_head none = false
is_head (some m) = eq_bytes m (bytes "HEAD")

-- A body of unknown length: the new headers, and `need_close`.
abbrev pub frame_unknown : Option Bytes → Option Bytes → Headers → Result (Headers × Bool)
frame_unknown their_http_version request_method headers = do
  h ← set_comma_header headers (bytes "content-length") []
  if is_old their_http_version
      then (do
        h' ← set_comma_header h (bytes "transfer-encoding") []
        ok (h', not (is_head request_method)))
      else (do
        h' ← set_comma_header h (bytes "transfer-encoding") (bytes "chunked" ∷ [])
        ok (h', false))

unfoldable pub frame : Option Bytes → Option Bytes → Framing → Headers → Result (Headers × Bool)
frame version method (content_length n) headers = ok (headers, false)
frame version method chunked headers = frame_unknown version method headers
frame version method http10 headers = frame_unknown version method headers

-- `set_comma_header(headers, b"connection", sorted(connection))`
unfoldable pub set_close : Headers → Result Headers
set_close headers = set_comma_header headers (bytes "connection") (
    sorted_set (
      bytes "close" ∷ discard (bytes "keep-alive") (get_comma_header headers (bytes "connection"))))

unfoldable pub clean_up_response_headers :
    Option Bytes → Option Bytes → Bool → Response → Result Response
clean_up_response_headers request_method their_http_version keep_alive r = do
  framing ← body_framing (choosing_method request_method) (response r)
  (headers, need_close) ← frame their_http_version request_method framing r.headers
  closing ← (if not keep_alive || need_close then set_close headers else ok headers)
  new_response false (ready closing) (some r.status_code) (raw r.http_version) (raw r.reason)
