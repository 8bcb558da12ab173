-- ===== src/Events/WellFormed.antt =====
-- What the constructors of h11/_events.py accept: well-formed events.
use h11_py.Prelude.{
  ℕ, ◌≤◌, ◌<◌, ◌==◌, leb, ltb, Bool, true, not, ◌&&◌, Option, none, some, [], ◌≡◌, refl, inl, inr,
  Bool-cases, length, ◌∙◌, ◌∷◌, arith, ==_iff, leb→le, ltb→lt, &&_parts, ap,
}
use mathlib.Core.Path.{subst}
use h11_py.Util.{local_error, ok, >>=-eq-ok, require, require-eq-ok, BytesLike, validate}
use h11_py.Util.Validate.{validate_lem}
use h11_py.Bytes.{Bytes, bytes, eq_bytes}
use h11_py.Regex.Language.{Matches}
use h11_py.Abnf.{token, request_target}
use h11_py.Headers.{Headers}
use h11_py.Headers.Values.{eq_bytes_self}
use h11_py.Headers.Normal.{IsNormal, values_of, normalize_and_validate-After}
use h11_py.Events.{
  Request, Response, Event, request, informational_response, response, end_of_message, HeadersArg,
  ready, pairs, take_headers, take_bytes, host_count, new_request, new_response_base,
  new_informational_response, new_response, new_end_of_message,
}

-- Normal headers with one Host header, or none in HTTP/1.0, and a method and a target of the grammar.
abbrev pub IsRequest : Request → Type 0
IsRequest r =
    IsNormal r.headers
    × (length (values_of (bytes "host") r.headers) ≤ 1)
    × (¬ ((r.http_version ≡ bytes "1.1") × (values_of (bytes "host") r.headers ≡ [])))
    × Matches token r.method
    × Matches request_target r.target

abbrev pub IsResponse : ℕ → ℕ → Response → Type 0
IsResponse low high r = IsNormal r.headers × (low ≤ r.status_code) × (r.status_code < high)

abbrev pub IsEvent : Event → Type 0
IsEvent (request r) = IsRequest r
IsEvent (informational_response r) = IsResponse 100 200 r
IsEvent (response r) = IsResponse 200 1000 r
IsEvent (end_of_message headers) = IsNormal headers
IsEvent _ = Unit

-- A `Headers` object that is passed in has come from a normalisation.
abbrev pub IsArg : HeadersArg → Type 0
IsArg (ready headers) = IsNormal headers
IsArg (pairs headers) = Unit

abbrev pub IsOptional : Option HeadersArg → Type 0
IsOptional none = Unit
IsOptional (some headers) = IsArg headers

take_headers-IsNormal :
    (parsed : Bool) (arg : HeadersArg) {headers : Headers}
    → IsArg arg
    → take_headers parsed arg ≡ ok headers
    → IsNormal headers
take_headers-IsNormal parsed (ready hs) {headers} a h =
    let e : hs ≡ headers = cc in subst IsNormal e a
take_headers-IsNormal parsed (pairs hs) a h = normalize_and_validate-After parsed hs h

-- `host_count` counts the Host headers.
pub host_count-values : (hs : Headers) → host_count hs ≡ length (values_of (bytes "host") hs)
unfolding host_count
host_count-values [] = refl
host_count-values (h ∷ hs) = elim (Bool-cases (eq_bytes h.name (bytes "host"))) [
  | inl e ↦ rw (e, host_count-values hs) (omega arith)
  | inr e ↦ rw (e, host_count-values hs) (omega arith)
]

no_host_count : (hs : Headers) → values_of (bytes "host") hs ≡ [] → host_count hs ≡ 0
no_host_count hs e = host_count-values hs ∙ ap (λ vs. length vs) e

one_host : (hs : Headers) → host_count hs ≤ 1 → length (values_of (bytes "host") hs) ≤ 1
one_host hs l = subst (λ n. n ≤ 1) (host_count-values hs) l

has_host :
    (v : Bytes) (n : ℕ)
    → not (eq_bytes v (bytes "1.1") && n == 0) ≡ true
    → ¬ ((v ≡ bytes "1.1") × (n ≡ 0))
has_host v n h (e, z) =
    let same = subst (λ w. eq_bytes v w ≡ true) e (eq_bytes_self v) in
    let none_left = (==_iff n 0).1 z in let h' = rw (same, none_left) at h in cc

-- A request that the constructor accepts, from any arguments, has at most one content-length header,
-- whose value is a decimal number, at most one transfer-encoding header, whose value is `chunked`, one
-- Host header, or none if it is not of HTTP/1.1, a method that is a token, and a target of the grammar;
-- a `Headers` object that is passed in has come from a normalisation.
pub new_request-IsRequest :
    (parsed : Bool) (method : BytesLike) (headers : HeadersArg) (target version : BytesLike)
    {r : Request}
    → IsArg headers
    → new_request parsed method headers target version ≡ ok r
    → IsRequest r
unfolding new_request
new_request-IsRequest parsed method headers target version {r} a h =
    let (hs, h0, k0) = >>=-eq-ok (take_headers parsed headers) _ h in
    let (m, h1, k1) = >>=-eq-ok (take_bytes parsed method) _ k0 in
    let (t, h2, k2) = >>=-eq-ok (take_bytes parsed target) _ k1 in
    let (v, h3, k3) = >>=-eq-ok (take_bytes parsed version) _ k2 in
    let (u4, h4, k4) =
      >>=-eq-ok
        (require (not (eq_bytes v (bytes "1.1") && host_count hs == 0))
          (local_error "Missing mandatory Host: header"))
        _ k3 in
    let (u5, h5, k5) =
      >>=-eq-ok (require (leb (host_count hs) 1) (local_error "Found multiple Host: headers")) _
        k4 in
    let (g6, h6, k6) = >>=-eq-ok (validate token m "Illegal method characters") _ k5 in
    let (g7, h7, k7) = >>=-eq-ok (validate request_target t "Illegal target characters") _ k6 in
    let e : record { method = m; headers = hs; target = t; http_version = v } ≡ r = cc in
    subst IsRequest e (
      take_headers-IsNormal parsed headers a h0,
      one_host hs (leb→le _ _ (require-eq-ok _ _ h5)),
      λ (same, none_left).
          has_host v (host_count hs) (require-eq-ok _ _ h4) (same, no_host_count hs none_left),
      (validate_lem token m "Illegal method characters").0.0 (g6, h6),
      (validate_lem request_target t "Illegal target characters").0.0 (g7, h7),
    )

base-IsNormal :
    (parsed : Bool) (headers : HeadersArg) (status : Option ℕ) (version reason : BytesLike)
    {r : Response}
    → IsArg headers
    → new_response_base parsed headers status version reason ≡ ok r
    → IsNormal r.headers
unfolding new_response_base
base-IsNormal parsed headers none version reason {r} a h =
    let (hs, h0, k0) = >>=-eq-ok (take_headers parsed headers) _ h in
    let (m, h1, k1) = >>=-eq-ok (take_bytes parsed reason) _ k0 in
    let (v, h2, k2) = >>=-eq-ok (take_bytes parsed version) _ k1 in cc
base-IsNormal parsed headers (some n) version reason {r} a h =
    let (hs, h0, k0) = >>=-eq-ok (take_headers parsed headers) _ h in
    let (m, h1, k1) = >>=-eq-ok (take_bytes parsed reason) _ k0 in
    let (v, h2, k2) = >>=-eq-ok (take_bytes parsed version) _ k1 in
    let q : record { headers = hs; http_version = v; reason = m; status_code = n } ≡ r = cc in
    let e : hs ≡ r.headers = ap (λ (x : Response). x.headers) q in
    subst IsNormal e (take_headers-IsNormal parsed headers a h0)

-- `Response(...)` is well-formed, whatever the arguments, or raises.
pub new_response-IsResponse :
    (parsed : Bool) (headers : HeadersArg) (status : Option ℕ) (version reason : BytesLike)
    {r : Response}
    → IsArg headers
    → new_response parsed headers status version reason ≡ ok r
    → IsResponse 200 1000 r
unfolding new_response
new_response-IsResponse parsed headers status version reason {r} a h =
    let (b, h0, k0) = >>=-eq-ok (new_response_base parsed headers status version reason) _ h in
    let (u, h1, k1) =
      >>=-eq-ok
        (require (leb 200 b.status_code && ltb b.status_code 1000)
          (local_error "Response status_code should be in range [200, 1000), not {}"))
        _ k0 in
    let e : b ≡ r = cc in
    let (low, high) =
      &&_parts (leb 200 b.status_code) (ltb b.status_code 1000) (require-eq-ok _ _ h1) in
    subst (IsResponse 200 1000) e
      (base-IsNormal parsed headers status version reason a h0, leb→le _ _ low, ltb→lt _ _ high)

pub new_informational_response-IsEvent :
    (parsed : Bool) (headers : HeadersArg) (status : Option ℕ) (version reason : BytesLike)
    {e : Event}
    → IsArg headers
    → new_informational_response parsed headers status version reason ≡ ok e
    → (r : Response) × (e ≡ informational_response r) × IsResponse 100 200 r
unfolding new_informational_response
new_informational_response-IsEvent parsed headers status version reason {e} a h =
    let (b, h0, k0) = >>=-eq-ok (new_response_base parsed headers status version reason) _ h in
    let (u, h1, k1) =
      >>=-eq-ok
        (require (leb 100 b.status_code && ltb b.status_code 200)
          (local_error "InformationalResponse status_code should be in range [100, 200), not {}"))
        _ k0 in
    let q : e ≡ informational_response b = cc in
    let (low, high) =
      &&_parts (leb 100 b.status_code) (ltb b.status_code 200) (require-eq-ok _ _ h1) in
    (
      b,
      q,
      (base-IsNormal parsed headers status version reason a h0, leb→le _ _ low, ltb→lt _ _ high),
    )

pub new_end_of_message-IsEvent :
    (parsed : Bool) (arg : Option HeadersArg) {e : Event}
    → IsOptional arg
    → new_end_of_message parsed arg ≡ ok e
    → (hs : Headers) × (e ≡ end_of_message hs) × IsNormal hs
unfolding new_end_of_message
new_end_of_message-IsEvent parsed none {e} a h =
    let q : e ≡ end_of_message [] = cc in ([], q, (inl refl, inl refl))
new_end_of_message-IsEvent parsed (some headers) {e} a h =
    let (hs, h0, k0) = >>=-eq-ok (take_headers parsed headers) _ h in
    let q : e ≡ end_of_message hs = cc in (hs, q, take_headers-IsNormal parsed headers a h0)
