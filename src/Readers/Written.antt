-- ===== src/Readers/Written.antt =====
-- The lines of a request that h11/_writers.py writes, parsed by h11/_readers.py.
use mathlib.Core.List.{append_assoc}
use mathlib.Core.Path.{subst}
use h11_py.Prelude.{
  ◌≤◌, length, ℕ, leb, ◌==◌, Bool, true, false, Option, none, some, List, [], ◌∷◌, ◌++◌, map, ◌≡◌,
  refl, sym, ap, ◌∙◌, inl, inr, arith, Bool-cases, ==_iff,
}
use h11_py.Util.{ok, raw, BytesLike, ◌>>=◌}
use h11_py.Util.Validate.{validate_lem}
use h11_py.Bytes.{Bytes, bytes, eq_bytes}
use h11_py.Regex.{Cont, Groups, match_prefix, run, some_of}
use h11_py.Regex.Language.{Matches}
use h11_py.Abnf.{token, request_target, obs_fold_re, is_blank, is_tchar}
use h11_py.Events.{Request, request, host_count, new_request}
use h11_py.Events.WellFormed.{IsRequest, host_count-values}
use h11_py.Headers.{Headers, Seen, raw_items, normalize_and_validate}
use h11_py.Headers.Idempotent.{Fits, none_left, next, again, normalize-again, normalize-Fits}
use h11_py.Readers.HeaderLine.{validate-written_header, some_of-Run}
use h11_py.Readers.RequestLine.{written_line, validate-written_line}
use h11_py.Readers.Parse.{
  emit, as_arg, fold_lines, parse_header_lines, decode_header_lines, parse_request,
}
use h11_py.Writers.{write_request}
use h11_py.Writers.HostFirst.{
  host_first, line_of, ended, write_headers-lines, host_count-host_first, host_first-Fits,
}

token_not_blank : (c : ℕ) → is_tchar c ≡ true → is_blank c ≡ false
token_not_blank c h = ground arith

run-none :
    {R : Type 0} (p : ℕ → Bool) (c : ℕ) (s : Bytes) (k : Cont R) (g : Groups)
    → p c ≡ false
    → run (some_of p) k (c ∷ s) g ≡ none
unfolding run
run-none p c s k g h = rw h refl

no_fold : (c : ℕ) (s : Bytes) → is_blank c ≡ false → match_prefix obs_fold_re (c ∷ s) ≡ none
unfolding match_prefix
no_fold c s h = run-none is_blank c s _ [] h

token-no_fold :
    (name rest : Bytes) → Matches token name → match_prefix obs_fold_re (name ++ rest) ≡ none
token-no_fold name rest m =
    let (c, u, q, a) = some_of-Run is_tchar name m in
    rw q (no_fold c (u ++ rest) (token_not_blank c a.0))

-- No line of a written header continues the one before it.
fold_lines-written :
    {seen : Seen} {hs : Headers} (last : Option Bytes)
    → Fits seen hs
    → fold_lines last (map line_of hs) ≡ ok (emit last (map line_of hs))
unfolding fold_lines
fold_lines-written last none_left = refl
fold_lines-written last (next a v seen' m n c later) =
    rw
      (
        fold_lines,
        token-no_fold a (bytes ": " ++ v) m,
        fold_lines-written (some (a ++ (bytes ": " ++ v))) later,
      )
      refl

parse_header_lines-written :
    {seen : Seen} {hs : Headers}
    → Fits seen hs
    → parse_header_lines (map line_of hs) ≡ ok (raw_items hs)
unfolding parse_header_lines raw_items
parse_header_lines-written none_left = refl
parse_header_lines-written (next a v seen' m n c later) =
    rw (validate-written_header a v m n, parse_header_lines-written later) refl

pub decode_header_lines-written :
    {seen : Seen} {hs : Headers}
    → Fits seen hs
    → decode_header_lines (map line_of hs) ≡ ok (raw_items hs)
unfolding decode_header_lines
decode_header_lines-written f = rw (fold_lines-written none f) (parse_header_lines-written f)

-- The lines of a request, without their ends.
abbrev pub request_lines : Request → List Bytes
request_lines r = written_line r.method r.target ∷ map line_of (host_first r.headers)

written_line-crlf :
    (method target : Bytes)
    → method ++ (bytes " " ++ (target ++ bytes " HTTP/1.1\r\n"))
      ≡ written_line method target ++ bytes "\r\n"
written_line-crlf method target = sym (
    append_assoc method (bytes " " ++ (target ++ bytes " HTTP/1.1")) (bytes "\r\n")
    ∙ ap (λ s. method ++ (bytes " " ++ s)) (append_assoc target (bytes " HTTP/1.1") (bytes "\r\n")))

write_request-lines :
    (r : Request) → r.http_version ≡ bytes "1.1" → write_request r ≡ ok (ended (request_lines r))
unfolding write_request eq_bytes
write_request-lines r v =
    simp (v, write_headers-lines r.headers, written_line-crlf r.method r.target) refl

no_values : (vs : List Bytes) → length vs ≡ 0 → vs ≡ []
no_values [] h = refl
no_values (v ∷ vs) h = absurd (omega arith)

has_host :
    (v : Bytes) (n : ℕ) → ¬ ((v ≡ bytes "1.1") × (n ≡ 0)) → v ≡ bytes "1.1" → (n == 0) ≡ false
has_host v n h e = elim (Bool-cases (n == 0)) [
  | inl k ↦ absurd (h (e, (==_iff n 0).0 k))
  | inr k ↦ k
]

at_most : (n : ℕ) → n ≤ 1 → leb n 1 ≡ true
at_most n h = ground arith

new_request-again :
    (r : Request)
    → IsRequest r
    → r.http_version ≡ bytes "1.1"
    → normalize_and_validate true (again (host_first r.headers)) ≡ ok (host_first r.headers)
    → new_request true
        (raw r.method)
        (as_arg (raw_items (host_first r.headers)))
        (raw r.target)
        (raw (bytes "1.1"))
      ≡ ok (record r { headers = host_first r.headers })
unfolding new_request eq_bytes
new_request-again r (_, one, some_host, m, t) v h =
    let (g, e) = (validate_lem token r.method "Illegal method characters").0.1 m in
    let (g', e') = (validate_lem request_target r.target "Illegal target characters").0.1 t in
    let counted = host_count-values r.headers in
    let some_host =
      has_host r.http_version (host_count r.headers)
        (λ (same, z). some_host (same, no_values _ (sym counted ∙ z))) v in
    let at_most_one : leb (host_count r.headers) 1 ≡ true =
      at_most _ (subst (λ n. n ≤ 1) (sym counted) one) in
    simp (h, host_count-host_first r.headers, some_host, at_most_one, e, e', v) refl

-- A request for HTTP/1.1 that is well-formed and whose headers are from a normalisation goes out as
-- lines from which the reader makes the same request, but that a Host header has moved to the front.
pub parse_request-written :
    (r : Request) (ps : List (BytesLike × BytesLike))
    → IsRequest r
    → r.http_version ≡ bytes "1.1"
    → normalize_and_validate false ps ≡ ok r.headers
    → (write_request r ≡ ok (ended (request_lines r)))
      × (parse_request (request_lines r)
          ≡ ok (request (record r { headers = host_first r.headers })))
unfolding parse_request normalize_and_validate
parse_request-written r ps i v h =
    let f = host_first-Fits (normalize-Fits _ ps h) in
    (
      write_request-lines r v,
      simp (validate-written_line r.method r.target i.3 i.4, decode_header_lines-written f)
          (ap (λ x. x >>= λ q. ok (request q)) (new_request-again r i v (normalize-again true f))),
    )
