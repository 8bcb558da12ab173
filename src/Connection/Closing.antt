-- ===== src/Connection/Closing.antt =====
-- Connection: close on the last response (h11/_connection.py, `_clean_up_response_headers_for_sending`).
use h11_py.Prelude.{
  ℕ, true, false, ◌&&◌, leb, ltb, Option, some, List, [], ◌∷◌, ◌++◌, ◌≡◌, refl, sym, ap, inl, inr,
  Bool-cases,
}
use h11_py.Util.{ok, >>=-eq-ok, raw, require, local_error, bytesify}
use h11_py.Bytes.{
  Bytes, bytes, eq_bytes, lt_bytes, strip, lstrip, rstrip, split, lower, title, title_from,
}
use h11_py.Headers.{Headers, get_comma_header, comma_values, contains}
use h11_py.Headers.Normal.{eq_bytes-eq}
use h11_py.Headers.Values.{
  eq_bytes_self, IsLowered, IsPlain, set_comma_header-new, set_comma_header-IsLowered,
}
use h11_py.Events.{Response, response, ready, new_response, new_response_base}
use h11_py.Framing.{body_framing, keep_alive}
use h11_py.Framing.Normal.{parts, get_comma_header-values}
use h11_py.Connection.Framed.{frame_made}
use h11_py.Connection.Cleanup.{
  insert, sorted_set, discard, choosing_method, frame, set_close, clean_up_response_headers,
}

insert-contains : (v : Bytes) (ws : List Bytes) → contains v (insert v ws) ≡ true
insert-contains v [] = rw (eq_bytes_self v) refl
insert-contains v (w ∷ ws) = elim (Bool-cases (eq_bytes v w)) [
  | inl e ↦ rw (e, e) refl
  | inr e ↦ rw e (elim (Bool-cases (lt_bytes v w)) [
    | inl l ↦ rw (l, eq_bytes_self v) refl
    | inr l ↦ rw (l, e, insert-contains v ws) refl
  ])
]

contains_after :
    (v : Bytes) (us ws : List Bytes) → contains v ws ≡ true → contains v (us ++ ws) ≡ true
contains_after v [] ws h = h
contains_after v (u ∷ us) ws h = elim (Bool-cases (eq_bytes v u)) [
  | inl e ↦ rw e refl
  | inr e ↦ rw (e, contains_after v us ws h) refl
]

close_parts :
    (vs : List Bytes)
    → contains (bytes "close") vs ≡ true
    → contains (bytes "close") (parts vs) ≡ true
unfolding lower split lstrip rstrip strip eq_bytes
close_parts [] h = cc
close_parts (v ∷ vs) h = elim (Bool-cases (eq_bytes (bytes "close") v)) [
  | inl e ↦ let same = eq_bytes-eq (bytes "close") v e in rw (← same) refl
  | inr e ↦
      contains_after (bytes "close") (comma_values (split b',' (lower v))) (parts vs)
        (close_parts vs (rw e at h))
]

connection-IsPlain : IsPlain (bytes "connection")
unfolding eq_bytes
connection-IsPlain = (refl, refl)

connection_titled : lower (title (bytes "connection")) ≡ bytes "connection"
unfolding lower title title_from
connection_titled = refl

set_close-contains :
    (hs : Headers) {hs' : Headers}
    → IsLowered hs
    → set_close hs ≡ ok hs'
    → contains (bytes "close") (get_comma_header hs' (bytes "connection")) ≡ true
unfolding set_close sorted_set
set_close-contains hs {hs'} l h =
    let kept =
      sorted_set (discard (bytes "keep-alive") (get_comma_header hs (bytes "connection"))) in
    let new = insert (bytes "close") kept in
    let values =
      set_comma_header-new hs (bytes "connection") new l connection-IsPlain connection_titled h in
    rw (get_comma_header-values hs' (bytes "connection"), values)
      (close_parts new (insert-contains (bytes "close") kept))

made_of :
    (hs : Headers) (n : ℕ) (v m : Bytes) {r : Response}
    → new_response false (ready hs) (some n) (raw v) (raw m) ≡ ok r
    → r.headers ≡ hs
unfolding new_response new_response_base bytesify
made_of hs n v m {r} h =
    let (_, _, k) =
      >>=-eq-ok
        (require (leb 200 n && ltb n 1000)
          (local_error "Response status_code should be in range [200, 1000), not {}"))
        _ h in
    let q : record { headers = hs; http_version = v; reason = m; status_code = n } ≡ r = cc in
    sym (ap (λ (x : Response). x.headers) q)

-- The response that is sent when keep-alive is off says so: if its headers are from a normalisation,
-- the ones that go out have a Connection header with `close`, so the peer takes keep-alive to be off
-- too.
pub clean_up-closes :
    (method version : Option Bytes) (r : Response) {r' : Response}
    → IsLowered r.headers
    → clean_up_response_headers method version false r ≡ ok r'
    → (contains (bytes "close") (get_comma_header r'.headers (bytes "connection")) ≡ true)
      × (keep_alive r'.http_version r'.headers ≡ false)
unfolding clean_up_response_headers keep_alive
clean_up-closes method version r {r'} l h =
    let (f, h1, k1) = >>=-eq-ok (body_framing (choosing_method method) (response r)) _ h in
    let ((hs, need_close), h2, k2) = >>=-eq-ok (frame version method f r.headers) _ k1 in
    let (closing, h3, k3) = >>=-eq-ok (set_close hs) _ k2 in
    let closed =
      set_close-contains hs
        (frame_made IsLowered (λ hs name vs hs'. set_comma_header-IsLowered hs name vs) version
          method f r.headers l h2)
        h3 in
    let same = made_of closing r.status_code r.http_version r.reason k3 in
    rw (same, closed) (refl, refl)
