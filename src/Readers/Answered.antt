-- ===== src/Readers/Answered.antt =====
-- The lines of a response that h11/_writers.py writes, parsed by h11/_readers.py.
use mathlib.Core.List.{append_assoc}
use h11_py.Prelude.{
  ℕ, ◌≤◌, ◌<◌, ltb, leb, true, false, some, List, ◌∷◌, ◌++◌, map, if◌then◌else◌, ◌≡◌, refl, sym, ap,
  inl, inr, arith, Bool-cases,
}
use h11_py.Util.{ok, raw, BytesLike, ◌>>=◌}
use h11_py.Bytes.{Bytes, bytes, eq_bytes}
use h11_py.Numeral.{numeral}
use h11_py.Numeral.Value.{int-numeral}
use h11_py.Regex.Language.{Matches}
use h11_py.Abnf.{reason_phrase}
use h11_py.Events.{
  Event, Response, response, informational_response, new_response_base, new_response,
  new_informational_response,
}
use h11_py.Headers.{raw_items, normalize_and_validate}
use h11_py.Headers.Idempotent.{again, normalize-again, normalize-Fits}
use h11_py.Readers.StatusLine.{written_status, validate-written_status}
use h11_py.Readers.Written.{decode_header_lines-written}
use h11_py.Readers.Parse.{as_arg, parse_response}
use h11_py.Writers.{write_any_response}
use h11_py.Writers.HostFirst.{host_first, line_of, ended, write_headers-lines, host_first-Fits}

-- The lines of a response, without their ends.
abbrev pub response_lines : Response → List Bytes
response_lines r = written_status r.status_code r.reason ∷ map line_of (host_first r.headers)

-- The event of a response, by its status code.
abbrev pub answer : Response → Event
answer r = if ltb r.status_code 200 then informational_response r else response r

written_status-crlf :
    (n : ℕ) (reason : Bytes)
    → bytes "HTTP/1.1 " ++ (numeral 10 n ++ (bytes " " ++ (reason ++ bytes "\r\n")))
      ≡ written_status n reason ++ bytes "\r\n"
written_status-crlf n reason = sym (
    ap (λ s. bytes "HTTP/1.1 " ++ s)
      (append_assoc (numeral 10 n) (bytes " " ++ reason) (bytes "\r\n")))

write_any_response-lines :
    (r : Response)
    → r.http_version ≡ bytes "1.1"
    → write_any_response r ≡ ok (ended (response_lines r))
unfolding write_any_response eq_bytes
write_any_response-lines r v =
    simp (v, write_headers-lines r.headers, written_status-crlf r.status_code r.reason) refl

module _ (r : Response) (low : 100 ≤ r.status_code) (high : r.status_code < 1000)
    (v : r.http_version ≡ bytes "1.1")
    (h : normalize_and_validate true (again (host_first r.headers))
      ≡ ok (host_first r.headers)) where
  informational-again :
      ltb r.status_code 200 ≡ true
      → new_informational_response true
          (as_arg (raw_items (host_first r.headers)))
          (some r.status_code)
          (raw (bytes "1.1"))
          (raw r.reason)
        ≡ ok (informational_response (record r { headers = host_first r.headers }))
  unfolding new_informational_response new_response_base
  informational-again small =
      let from : leb 100 r.status_code ≡ true = ground arith in simp (h, from, small, v) refl

  response-again :
      ltb r.status_code 200 ≡ false
      → new_response true
          (as_arg (raw_items (host_first r.headers)))
          (some r.status_code)
          (raw (bytes "1.1"))
          (raw r.reason)
        ≡ ok (record r { headers = host_first r.headers })
  unfolding new_response new_response_base
  response-again large =
      let from : leb 200 r.status_code ≡ true = ground arith in
      let to : ltb r.status_code 1000 ≡ true = ground arith in simp (h, from, to, v) refl

  answer-again :
      (if ltb r.status_code 200
        then new_informational_response true
            (as_arg (raw_items (host_first r.headers)))
            (some r.status_code)
            (raw (bytes "1.1"))
            (raw r.reason)
        else (new_response true
              (as_arg (raw_items (host_first r.headers)))
              (some r.status_code)
              (raw (bytes "1.1"))
              (raw r.reason)
            >>= λ q. ok (response q)))
      ≡ ok (answer (record r { headers = host_first r.headers }))
  answer-again = elim (Bool-cases (ltb r.status_code 200)) [
    | inl e ↦ rw e (informational-again e)
    | inr e ↦ rw e (ap (λ x. x >>= λ q. ok (response q)) (response-again e))
  ]

-- A response for HTTP/1.1 with a status code from 100 to 999, a reason of the grammar and headers from a
-- normalisation goes out as lines from which the reader makes the same response, but that a Host
-- header has moved to the front; it is an InformationalResponse if its code is below 200.
pub parse_response-written :
    (r : Response) (ps : List (BytesLike × BytesLike))
    → 100 ≤ r.status_code
    → r.status_code < 1000
    → Matches reason_phrase r.reason
    → r.http_version ≡ bytes "1.1"
    → normalize_and_validate false ps ≡ ok r.headers
    → (write_any_response r ≡ ok (ended (response_lines r)))
      × (parse_response (response_lines r)
          ≡ ok (answer (record r { headers = host_first r.headers })))
unfolding parse_response normalize_and_validate
parse_response-written r ps low high m v h =
    let f = host_first-Fits (normalize-Fits _ ps h) in
    (
      write_any_response-lines r v,
      simp
          (
            validate-written_status r.status_code r.reason low high m,
            decode_header_lines-written f,
            int-numeral 10 r.status_code (omega arith) (omega arith),
          )
          (answer-again r low high v (normalize-again true f)),
    )
