-- ===== src/Events/Outcome.antt =====
-- What the constructors of h11/_events.py raise on `bytes`, as the readers call them.
use h11_py.Prelude.{not, ◌&&◌, ◌==◌, leb, ltb, ℕ, Bool, true, false, some, List, [], ◌∷◌, map}
use h11_py.Util.{local_error, Result, ok, raise, BytesLike, raw, bytesify}
use h11_py.Util.Outcome.{OnlyLocal, then-OnlyLocal, require-OnlyLocal, validate-OnlyLocal}
use h11_py.Bytes.{eq_bytes, Bytes, bytes, lower}
use h11_py.Abnf.{token, request_target, field_name, field_value}
use h11_py.Headers.{Seen, Step, take_pair, normalize_from, normalize_and_validate}
use h11_py.Headers.Normal.{Passes, check_header-Passes}
use h11_py.Events.{
  host_count, pairs, take_headers, take_bytes, new_request, new_response_base,
  new_informational_response, new_response, new_end_of_message,
}

abbrev pub raws : List (Bytes × Bytes) → List (BytesLike × BytesLike)
raws hs = map (λ h. (raw h.0, raw h.1)) hs

take_pair-OnlyLocal : (parsed : Bool) (n v : Bytes) → OnlyLocal (take_pair parsed (raw n) (raw v))
unfolding take_pair bytesify
take_pair-OnlyLocal true n v = tt
take_pair-OnlyLocal false n v =
    then-OnlyLocal _ _ (validate-OnlyLocal field_name n "Illegal header name {!r}")
      λ g. then-OnlyLocal _ _ (validate-OnlyLocal field_value v "Illegal header value {!r}") λ g. tt

Passes-OnlyLocal :
    (raw_name name : Bytes) (seen : Seen) (m : Result Step)
    → Passes raw_name name seen m
    → OnlyLocal m
Passes-OnlyLocal raw_name name seen (ok s) p = tt
Passes-OnlyLocal raw_name name seen (raise e) p = p

normalize_from-OnlyLocal :
    (parsed : Bool) (seen : Seen) (hs : List (Bytes × Bytes))
    → OnlyLocal (normalize_from parsed seen (raws hs))
unfolding normalize_from
normalize_from-OnlyLocal parsed seen [] = tt
normalize_from-OnlyLocal parsed seen ((n, v) ∷ hs) =
    then-OnlyLocal _ _ (take_pair-OnlyLocal parsed n v) λ p.
      then-OnlyLocal _ _
        (Passes-OnlyLocal p.0 (lower p.0) seen _ (check_header-Passes p.0 (lower p.0) p.1 seen))
        λ q. then-OnlyLocal _ _ (normalize_from-OnlyLocal parsed q.1 hs) λ r. tt

take_headers-OnlyLocal :
    (parsed : Bool) (hs : List (Bytes × Bytes)) → OnlyLocal (take_headers parsed (pairs (raws hs)))
unfolding normalize_and_validate
take_headers-OnlyLocal parsed hs = normalize_from-OnlyLocal parsed _ hs

take_bytes-OnlyLocal : (parsed : Bool) (s : Bytes) → OnlyLocal (take_bytes parsed (raw s))
unfolding bytesify
take_bytes-OnlyLocal true s = tt
take_bytes-OnlyLocal false s = tt

module _ (parsed : Bool) (hs : List (Bytes × Bytes)) where
  pub new_request-OnlyLocal :
      (m t v : Bytes) → OnlyLocal (new_request parsed (raw m) (pairs (raws hs)) (raw t) (raw v))
  unfolding new_request
  new_request-OnlyLocal m t v = then-OnlyLocal _ _ (take_headers-OnlyLocal parsed hs) λ h.
      then-OnlyLocal _ _ (take_bytes-OnlyLocal parsed m) λ m.
        then-OnlyLocal _ _ (take_bytes-OnlyLocal parsed t) λ t.
          then-OnlyLocal _ _ (take_bytes-OnlyLocal parsed v) λ v.
            then-OnlyLocal _ _
              (require-OnlyLocal (not (eq_bytes v (bytes "1.1") && host_count h == 0))
                (local_error "Missing mandatory Host: header") tt)
              λ u.
                then-OnlyLocal _ _
                  (require-OnlyLocal (leb (host_count h) 1)
                    (local_error "Found multiple Host: headers") tt)
                  λ u.
                    then-OnlyLocal _ _ (validate-OnlyLocal token m "Illegal method characters") λ g.
                      then-OnlyLocal _ _
                        (validate-OnlyLocal request_target t "Illegal target characters") λ g. tt

  base-OnlyLocal :
      (n : ℕ) (v r : Bytes)
      → OnlyLocal (new_response_base parsed (pairs (raws hs)) (some n) (raw v) (raw r))
  unfolding new_response_base
  base-OnlyLocal n v r = then-OnlyLocal _ _ (take_headers-OnlyLocal parsed hs) λ h.
      then-OnlyLocal _ _ (take_bytes-OnlyLocal parsed r)
        λ r. then-OnlyLocal _ _ (take_bytes-OnlyLocal parsed v) λ v. tt

  pub new_informational_response-OnlyLocal :
      (n : ℕ) (v r : Bytes)
      → OnlyLocal (new_informational_response parsed (pairs (raws hs)) (some n) (raw v) (raw r))
  unfolding new_informational_response
  new_informational_response-OnlyLocal n v r = then-OnlyLocal _ _ (base-OnlyLocal n v r) λ b.
      then-OnlyLocal _ _
        (require-OnlyLocal (leb 100 b.status_code && ltb b.status_code 200)
          (local_error "InformationalResponse status_code should be in range [100, 200), not {}")
          tt)
        λ u. tt

  pub new_response-OnlyLocal :
      (n : ℕ) (v r : Bytes)
      → OnlyLocal (new_response parsed (pairs (raws hs)) (some n) (raw v) (raw r))
  unfolding new_response
  new_response-OnlyLocal n v r = then-OnlyLocal _ _ (base-OnlyLocal n v r) λ b.
      then-OnlyLocal _ _
        (require-OnlyLocal (leb 200 b.status_code && ltb b.status_code 1000)
          (local_error "Response status_code should be in range [200, 1000), not {}") tt)
        λ u. tt

  pub new_end_of_message-OnlyLocal : OnlyLocal (new_end_of_message parsed (some (pairs (raws hs))))
  unfolding new_end_of_message
  new_end_of_message-OnlyLocal = then-OnlyLocal _ _ (take_headers-OnlyLocal parsed hs) λ h. tt
