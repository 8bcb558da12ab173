-- ===== src/Connection/CleanEvent.antt =====
-- `_clean_up_response_headers_for_sending` of h11/_connection.py makes a well-formed response.
use h11_py.Prelude.{
  Bool, true, false, not, ◌||◌, Option, some, List, ◌≡◌, refl, inl, inr, if◌then◌else◌,
}
use mathlib.Core.Path.{subst}
use h11_py.Util.{ok, Result-cases, >>=-eq-ok, raw}
use h11_py.Bytes.{Bytes, bytes}
use h11_py.Headers.{Headers, set_comma_header}
use h11_py.Headers.Normal.{IsNormal, normalize_and_validate-After}
use h11_py.Events.{
  Event, Response, request, informational_response, response, data_, end_of_message,
  connection_closed, ready,
}
use h11_py.Events.WellFormed.{IsEvent, IsResponse, new_response-IsResponse}
use h11_py.Framing.{body_framing}
use h11_py.Connection.{Connection}
use h11_py.Connection.Framed.{frame_made}
use h11_py.Connection.Cleanup.{choosing_method, frame, set_close, clean_up_response_headers}
use h11_py.Connection.Send.{cleaned}
use h11_py.Effect.Ends.{Ends}

set_comma_header-IsNormal :
    (hs : Headers) (name : Bytes) (vs : List Bytes) {hs' : Headers}
    → set_comma_header hs name vs ≡ ok hs'
    → IsNormal hs'
unfolding set_comma_header
set_comma_header-IsNormal hs name vs h = normalize_and_validate-After false _ h

closing-IsNormal :
    (b : Bool) (hs : Headers) {hs' : Headers}
    → IsNormal hs
    → (if b then set_close hs else ok hs) ≡ ok hs'
    → IsNormal hs'
unfolding set_close
closing-IsNormal true hs i h = set_comma_header-IsNormal hs (bytes "connection") _ h
closing-IsNormal false hs {hs'} i h = let q : hs ≡ hs' = cc in subst IsNormal q i

-- What the clean-up returns is well-formed.
clean_up-IsResponse :
    (method version : Option Bytes) (keep_alive : Bool) (r : Response) {r' : Response}
    → IsNormal r.headers
    → clean_up_response_headers method version keep_alive r ≡ ok r'
    → IsResponse 200 1000 r'
unfolding clean_up_response_headers
clean_up-IsResponse method version keep_alive r i h =
    let (f, h1, k1) = >>=-eq-ok (body_framing (choosing_method method) (response r)) _ h in
    let ((hs, need_close), h2, k2) = >>=-eq-ok (frame version method f r.headers) _ k1 in
    let (closing, h3, k3) =
      >>=-eq-ok (if not keep_alive || need_close then set_close hs else ok hs) _ k2 in
    new_response-IsResponse false (ready closing) (some r.status_code) (raw r.http_version)
      (raw r.reason)
      (closing-IsNormal (not keep_alive || need_close) hs
        (frame_made IsNormal (λ hs name vs hs'. set_comma_header-IsNormal hs name vs) version method
          f r.headers i h2)
        h3)
      k3

-- The event that `send` goes on with is well-formed; the connection is unchanged.
pub cleaned-Ends :
    (e : Event) (c : Connection)
    → IsEvent e
    → Ends (λ e' d. IsEvent e' × (d ≡ c)) (λ _ d. d ≡ c) (cleaned e c)
cleaned-Ends (response r) c v =
    elim (Result-cases
      (clean_up_response_headers c.request_method c.their_http_version c.cstate.keep_alive r)) [
        | inl (r', e) ↦ rw e (clean_up-IsResponse _ _ _ r v.0 e, refl)
        | inr (x, e) ↦ rw e refl
      ]
cleaned-Ends (request r) c v = (v, refl)
cleaned-Ends (informational_response r) c v = (v, refl)
cleaned-Ends (data_ d) c v = (v, refl)
cleaned-Ends (end_of_message hs) c v = (v, refl)
cleaned-Ends connection_closed c v = (v, refl)
