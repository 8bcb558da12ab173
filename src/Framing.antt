-- ===== src/Framing.antt =====
-- `_keep_alive` and `_body_framing` of h11/_connection.py.
pub mod Normal
use h11_py.Prelude.{
  ℕ, Bool, false, not, ◌&&◌, ◌||◌, Option, none, some, List, [], ◌∷◌, leb, ltb, ◌==◌, length,
  if◌then◌else◌,
}
use h11_py.Util.{assertion_error, value_error, Result, ok, raise, ◌>>◌, require}
use h11_py.Bytes.{Bytes, bytes, eq_bytes, lt_bytes}
use h11_py.Numeral.{int}
use h11_py.Headers.{Headers, get_comma_header, contains}
use h11_py.Events.{Event, request, response}

-- `("content-length", (n,))`, `("chunked", ())` and `("http/1.0", ())`
pub data Framing : Type 0 where
  content_length : ℕ → Framing
  chunked http10 : Framing

-- `_keep_alive`, by the version and the headers of the event.
unfoldable pub keep_alive : Bytes → Headers → Bool
keep_alive http_version headers =
    if contains (bytes "close") (get_comma_header headers (bytes "connection"))
    then false
    else not (lt_bytes http_version (bytes "1.1"))

abbrev pub is_method : Option Bytes → Bytes → Bool
is_method none m = false
is_method (some n) m = eq_bytes n m

-- `status_code in (204, 304)`, a HEAD request, or a CONNECT request that is accepted.
abbrev pub has_no_body : Option Bytes → ℕ → Bool
has_no_body request_method status_code =
    status_code == 204
    || status_code == 304
    || is_method request_method (bytes "HEAD")
    || (is_method request_method (bytes "CONNECT") && leb 200 status_code && ltb status_code 300)

-- `assert transfer_encodings == [b"chunked"]`
abbrev is_chunked : List Bytes → Bool
is_chunked (v ∷ []) = eq_bytes v (bytes "chunked")
is_chunked _ = false

-- `sys.get_int_max_str_digits()`, as CPython sets it when it starts.
abbrev pub int_max_str_digits : ℕ
int_max_str_digits = 4300

-- `("content-length", (int(content_lengths[0]),))`; `int` raises a ValueError on a decimal number of more
-- digits than the limit.
abbrev by_length : List Bytes → Framing → Result Framing
by_length [] default = ok default
by_length (v ∷ _) default = do
  require (leb (length v) int_max_str_digits) value_error
  ok (content_length (int 10 v))

-- Transfer-Encoding, and else the steps after it.
abbrev by_encoding : List Bytes → Result Framing → Result Framing
by_encoding [] rest = rest
by_encoding encodings rest = do require (is_chunked encodings) assertion_error; ok chunked

-- Steps 2 to 4; `default` is the last step's answer for the event's type.
unfoldable pub framing_of_headers : Headers → Framing → Result Framing
framing_of_headers headers default =
    by_encoding (get_comma_header headers (bytes "transfer-encoding"))
      (by_length (get_comma_header headers (bytes "content-length")) default)

unfoldable pub body_framing : Option Bytes → Event → Result Framing
unfolding framing_of_headers
body_framing request_method (response r) =
    if has_no_body request_method r.status_code
    then ok (content_length 0)
    else (do require (leb 200 r.status_code) assertion_error; framing_of_headers r.headers http10)
body_framing request_method (request r) = framing_of_headers r.headers (content_length 0)
body_framing request_method _ = raise assertion_error
