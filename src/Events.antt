-- ===== src/Events.antt =====
-- h11/_events.py: the events, and what their constructors accept.
pub mod WellFormed
pub mod Outcome
use h11_py.Prelude.{
  ℕ, ◌+◌, Bool, true, false, not, ◌&&◌, Option, none, some, List, [], ◌∷◌, leb, ltb, ◌==◌,
  if◌then◌else◌,
}
use h11_py.Util.{
  local_error, type_error, Result, ok, raise, ◌>>=◌, ◌>>◌, require, BytesLike, raw, bytesify,
  validate,
}
use h11_py.Bytes.{Bytes, bytes, eq_bytes}
use h11_py.Abnf.{token, request_target}
use h11_py.Headers.{Headers, normalize_and_validate}
use h11_py.State.{EventType}

pub record Request : Type 0 where
  pub method : Bytes
  pub headers : Headers
  pub target : Bytes
  pub http_version : Bytes

-- `_ResponseBase`
pub record Response : Type 0 where
  pub headers : Headers
  pub http_version : Bytes
  pub reason : Bytes
  pub status_code : ℕ

pub record Data : Type 0 where
  pub content : Bytes
  pub chunk_start : Bool
  pub chunk_end : Bool

pub data Event : Type 0 where
  request : Request → Event
  informational_response : Response → Event
  response : Response → Event
  data_ : Data → Event
  end_of_message : Headers → Event
  connection_closed : Event

-- `type(event)`
abbrev pub type_of : Event → EventType
type_of (request _) = EventType.request
type_of (informational_response _) = EventType.informational_response
type_of (response _) = EventType.response
type_of (data_ _) = EventType.data_
type_of (end_of_message _) = EventType.end_of_message
type_of connection_closed = EventType.connection_closed

-- The argument `headers`: a `Headers`, or a list of pairs.
pub data HeadersArg : Type 0 where
  ready : Headers → HeadersArg
  pairs : List (BytesLike × BytesLike) → HeadersArg

abbrev take_headers : Bool → HeadersArg → Result Headers
take_headers parsed (ready h) = ok h
take_headers parsed (pairs h) = normalize_and_validate parsed h

-- `bytesify(v)` unless `_parsed`, which the readers pass with `bytes` alone.
abbrev take_bytes : Bool → BytesLike → Result Bytes
take_bytes false v = bytesify v
take_bytes true (raw s) = ok s
take_bytes true _ = raise type_error

-- `host_count`
unfoldable pub host_count : Headers → ℕ
host_count [] = 0
host_count (h ∷ hs) = (if eq_bytes h.name (bytes "host") then 1 else 0) + host_count hs

-- `Request.__init__`
unfoldable pub new_request : Bool → BytesLike → HeadersArg → BytesLike → BytesLike → Result Request
new_request parsed method headers target http_version = do
  hs ← take_headers parsed headers
  m ← take_bytes parsed method
  t ← take_bytes parsed target
  v ← take_bytes parsed http_version
  require (not (eq_bytes v (bytes "1.1") && host_count hs == 0))
      (local_error "Missing mandatory Host: header")
  require (leb (host_count hs) 1) (local_error "Found multiple Host: headers")
  _ ← validate token m "Illegal method characters"
  _ ← validate request_target t "Illegal target characters"
  ok (record { method = m; headers = hs; target = t; http_version = v })

-- `_ResponseBase.__init__` up to `__post_init__`; `none` is a status code that is no `int`.
unfoldable pub new_response_base :
    Bool → HeadersArg → Option ℕ → BytesLike → BytesLike → Result Response
new_response_base parsed headers status_code http_version reason = do
  hs ← take_headers parsed headers
  r ← take_bytes parsed reason
  v ← take_bytes parsed http_version
  elim status_code [
    | none ↦ raise (local_error "status code must be integer")
    | some n ↦ ok (record { headers = hs; http_version = v; reason = r; status_code = n })
  ]

-- `100 <= self.status_code < 200`
unfoldable pub new_informational_response :
    Bool → HeadersArg → Option ℕ → BytesLike → BytesLike → Result Event
new_informational_response parsed headers status_code http_version reason = do
  r ← new_response_base parsed headers status_code http_version reason
  require (leb 100 r.status_code && ltb r.status_code 200)
      (local_error "InformationalResponse status_code should be in range [100, 200), not {}")
  ok (informational_response r)

-- `200 <= self.status_code < 1000`
unfoldable pub new_response : Bool → HeadersArg → Option ℕ → BytesLike → BytesLike → Result Response
new_response parsed headers status_code http_version reason = do
  r ← new_response_base parsed headers status_code http_version reason
  require (leb 200 r.status_code && ltb r.status_code 1000)
      (local_error "Response status_code should be in range [200, 1000), not {}")
  ok r

-- `EndOfMessage.__init__`
unfoldable pub new_end_of_message : Bool → Option HeadersArg → Result Event
new_end_of_message parsed none = ok (end_of_message [])
new_end_of_message parsed (some headers) = do
  hs ← take_headers parsed headers
  ok (end_of_message hs)

-- `Data.__init__`
abbrev pub new_data : Bytes → Bool → Bool → Event
new_data content chunk_start chunk_end =
    data_ (record { content = content; chunk_start = chunk_start; chunk_end = chunk_end })
