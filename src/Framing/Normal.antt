-- ===== src/Framing/Normal.antt =====
-- `_body_framing` of h11/_connection.py on normalised headers.
use mathlib.Core.Path.{subst}
use h11_py.Prelude.{
  ◌||◌, ◌&&◌, ltb, sym, ap, ◌∙◌, ◌⊎◌, ==_iff, &&_parts, leb→le, ltb→lt, ℕ, Bool, true, false,
  Option, none, List, [], ◌∷◌, ◌++◌, ◌==◌, ◌≤◌, leb, ◌≡◌, refl, inl, inr, arith, some, length, ◌<◌,
  if◌then◌else◌, Bool-cases,
}
use h11_py.Util.{ok, raise, value_error, Result, require, ◌>>=◌, BytesLike}
use h11_py.Bytes.{Bytes, bytes, eq_bytes, is_space, lower_byte, lower, lstrip, rstrip, strip, split}
use h11_py.Numeral.{int}
use h11_py.Abnf.{is_digit}
use h11_py.Regex.Greedy.{AllIn}
use h11_py.Regex.Classes.{some_of-AllIn}
use h11_py.Events.{Request, Response, request, response}
use h11_py.Headers.{Headers, comma_values, get_comma_header, normalize_and_validate}
use h11_py.Headers.Normal.{
  eq_bytes-eq, values_of, IsLength, LengthsAfter, EncodingsAfter, IsNormal,
  normalize_and_validate-After,
}
use h11_py.Framing.{
  int_max_str_digits, Framing, content_length, chunked, http10, is_method, has_no_body,
  framing_of_headers, body_framing,
}

abbrev pub parts : List Bytes → List Bytes
parts [] = []
parts (v ∷ vs) = let rest = parts vs in comma_values (split b',' (lower v)) ++ rest

pub get_comma_header-values :
    (hs : Headers) (name : Bytes) → get_comma_header hs name ≡ parts (values_of name hs)
unfolding get_comma_header
get_comma_header-values [] name = refl
get_comma_header-values (h ∷ hs) name = elim (Bool-cases (eq_bytes h.name name)) [
  | inl e ↦ rw (e, get_comma_header-values hs name)
  | inr e ↦ rw (e, get_comma_header-values hs name)
]

digit_facts :
    (c : ℕ) → is_digit c ≡ true → (lower_byte c ≡ c) × ((c == b',') ≡ false) × (is_space c ≡ false)
digit_facts c h = ground arith

lower-digits : (v : Bytes) → AllIn is_digit v → lower v ≡ v
unfolding lower
lower-digits [] h = refl
lower-digits (c ∷ v) h = rw (lower-digits v h.1, (digit_facts c h.0).0)

pub split-digits : (v : Bytes) → AllIn is_digit v → split b',' v ≡ v ∷ []
unfolding split
split-digits [] h = refl
split-digits (c ∷ v) h = rw ((digit_facts c h.0).1, split-digits v h.1)

rstrip-digits : (v : Bytes) → AllIn is_digit v → rstrip v ≡ v
unfolding rstrip
rstrip-digits [] h = refl
rstrip-digits (c ∷ v) h = rw ((digit_facts c h.0).2, rstrip-digits v h.1)

pub strip-digits : (v : Bytes) → AllIn is_digit v → strip v ≡ v
unfolding strip
strip-digits [] h = refl
strip-digits (c ∷ v) h = rw ((digit_facts c h.0).2) (rstrip-digits (c ∷ v) h)

length_parts : (v : Bytes) → IsLength v → parts (v ∷ []) ≡ v ∷ []
length_parts v l =
    let (a, n) = some_of-AllIn is_digit v l in
    rw (lower-digits v a, split-digits v a, strip-digits v a, n)

-- A body of the length that the decimal number says, or the ValueError of `int` on too many digits.
abbrev pub counted : Bytes → Result Framing
counted v =
    if leb (length v) int_max_str_digits then ok (content_length (int 10 v)) else raise value_error

-- RFC 7230, section 3.3.3: the transfer encoding counts before the content length.
abbrev pub rfc_framing : List Bytes → List Bytes → Framing → Result Framing
rfc_framing (_ ∷ _) lengths default = ok chunked
rfc_framing [] (v ∷ _) default = counted v
rfc_framing [] [] default = ok default

abbrev pub framing_by_rfc : Headers → Framing → Result Framing
framing_by_rfc hs default =
    rfc_framing (values_of (bytes "transfer-encoding") hs) (values_of (bytes "content-length") hs)
      default

counted_first :
    (v : Bytes)
    → (require (leb (length v) int_max_str_digits) value_error >>= λ _.
        ok (content_length (int 10 v)))
      ≡ counted v
counted_first v = elim (Bool-cases (leb (length v) int_max_str_digits)) [
  | inl e ↦ rw e refl
  | inr e ↦ rw e refl
]

framing_values :
    (es ls : List Bytes) (default : Framing) (hs : Headers)
    → get_comma_header hs (bytes "transfer-encoding") ≡ parts es
    → get_comma_header hs (bytes "content-length") ≡ parts ls
    → EncodingsAfter false es
    → LengthsAfter none ls
    → framing_of_headers hs default ≡ rfc_framing es ls default
unfolding framing_of_headers lower split lstrip rstrip strip eq_bytes
framing_values es ls default hs h1 h2 (inr e) l = rw (h1, e)
framing_values es ls default hs h1 h2 (inl e) (inl l) = rw (h1, h2, e, l)
framing_values es ls default hs h1 h2 (inl e) (inr (v, l, n)) =
    rw (h1, e, h2, l, length_parts v n) (counted_first v)

framing_of_headers_lem :
    (hs : Headers) (default : Framing)
    → IsNormal hs
    → framing_of_headers hs default ≡ framing_by_rfc hs default
framing_of_headers_lem hs default (ls, es) =
    framing_values _ _ default hs (get_comma_header-values hs (bytes "transfer-encoding"))
      (get_comma_header-values hs (bytes "content-length")) es ls

pub request_framing :
    (method : Option Bytes) (r : Request)
    → IsNormal r.headers
    → body_framing method (request r) ≡ framing_by_rfc r.headers (content_length 0)
unfolding body_framing
request_framing method r n = framing_of_headers_lem r.headers (content_length 0) n

-- RFC 7230, section 3.3.3: the final responses without a body, by the request's method and the status
-- code.
pub data IsBodiless : Option Bytes → ℕ → Type 0 where
  no_content : {method : Option Bytes} → IsBodiless method 204
  not_modified : {method : Option Bytes} → IsBodiless method 304
  to_head : {status_code : ℕ} → IsBodiless (some (bytes "HEAD")) status_code
  to_connect :
      {status_code : ℕ}
      → 200 ≤ status_code
      → status_code < 300
      → IsBodiless (some (bytes "CONNECT")) status_code

bodiless-no_body :
    {method : Option Bytes} {status_code : ℕ}
    → IsBodiless method status_code
    → has_no_body method status_code ≡ true
unfolding eq_bytes
bodiless-no_body no_content = refl
bodiless-no_body not_modified = refl
bodiless-no_body to_head = ground arith
bodiless-no_body (to_connect low high) = ground arith

one_of_four :
    (a b c d : Bool)
    → (a || b || c || d) ≡ true
    → (a ≡ true) ⊎ ((b ≡ true) ⊎ ((c ≡ true) ⊎ (d ≡ true)))
one_of_four true b c d h = inl refl
one_of_four false true c d h = inr (inl refl)
one_of_four false false true d h = inr (inr (inl refl))
one_of_four false false false d h = inr (inr (inr h))

is_method-eq : (o : Option Bytes) (m : Bytes) → is_method o m ≡ true → o ≡ some m
is_method-eq none m h = cc
is_method-eq (some n) m h = ap some (eq_bytes-eq n m h)

no_body-IsBodiless :
    (method : Option Bytes) (n : ℕ) → has_no_body method n ≡ true → IsBodiless method n
no_body-IsBodiless method n h =
    elim (one_of_four (n == 204) (n == 304) (is_method method (bytes "HEAD"))
      (is_method method (bytes "CONNECT") && leb 200 n && ltb n 300) h) [
        | inl e ↦ subst (λ k. IsBodiless method k) (sym ((==_iff n 204).0 e)) no_content
        | inr (inl e) ↦ subst (λ k. IsBodiless method k) (sym ((==_iff n 304).0 e)) not_modified
        | inr (inr (inl e)) ↦
            subst (λ o. IsBodiless o n) (sym (is_method-eq method (bytes "HEAD") e)) to_head
        | inr (inr (inr e)) ↦
            let (p, high) =
              &&_parts (is_method method (bytes "CONNECT") && leb 200 n) (ltb n 300) e in
            let (m, low) = &&_parts (is_method method (bytes "CONNECT")) (leb 200 n) p in
            subst (λ o. IsBodiless o n) (sym (is_method-eq method (bytes "CONNECT") m))
              (to_connect (leb→le 200 n low) (ltb→lt n 300 high))
      ]

pub response_framing :
    (method : Option Bytes) (r : Response)
    → IsNormal r.headers
    → 200 ≤ r.status_code
    → (IsBodiless method r.status_code × (body_framing method (response r) ≡ ok (content_length 0)))
      ⊎ ((¬ (IsBodiless method r.status_code))
          × (body_framing method (response r) ≡ framing_by_rfc r.headers http10))
unfolding body_framing
response_framing method r n l =
    let final : leb 200 r.status_code ≡ true = ground arith in
    elim (Bool-cases (has_no_body method r.status_code)) [
      | inl e ↦ inl (no_body-IsBodiless method r.status_code e, rw e refl)
      | inr e ↦ inr (
        λ b. let k = sym (bodiless-no_body b) ∙ e in cc,
        rw (e, final) (framing_of_headers_lem r.headers http10 n),
      )
    ]

-- Either way the framing is found, or `int` raised a ValueError.
abbrev pub IsFramed : Result Framing → Type 0
IsFramed (ok f) = Unit
IsFramed (raise value_error) = Unit
IsFramed (raise _) = ⊥

rfc-IsFramed : (es ls : List Bytes) (default : Framing) → IsFramed (rfc_framing es ls default)
rfc-IsFramed (_ ∷ _) ls default = tt
rfc-IsFramed [] [] default = tt
rfc-IsFramed [] (v ∷ _) default = elim (Bool-cases (leb (length v) int_max_str_digits)) [
  | inl e ↦ rw e tt
  | inr e ↦ rw e tt
]

by_rfc-IsFramed : (hs : Headers) (default : Framing) → IsFramed (framing_by_rfc hs default)
by_rfc-IsFramed hs default =
    rfc-IsFramed (values_of (bytes "transfer-encoding") hs) (values_of (bytes "content-length") hs)
      default

pub request-IsFramed :
    (method : Option Bytes) (r : Request)
    → IsNormal r.headers
    → IsFramed (body_framing method (request r))
request-IsFramed method r n =
    rw (request_framing method r n) (by_rfc-IsFramed r.headers (content_length 0))

pub response-IsFramed :
    (method : Option Bytes) (r : Response)
    → IsNormal r.headers
    → 200 ≤ r.status_code
    → IsFramed (body_framing method (response r))
response-IsFramed method r n l = elim (response_framing method r n l) [
  | inl (b, e) ↦ rw e tt
  | inr (b, e) ↦ rw e (by_rfc-IsFramed r.headers http10)
]

-- The body of a request with normalised headers is framed as RFC 7230 says: chunked if there is a
-- transfer encoding, else by its content length, else empty. No assertion fails; a content length of
-- more than 4300 digits that is to be used raises the ValueError of `int`.
pub body_framing-request :
    (method : Option Bytes) (r : Request) (parsed : Bool) (pairs : List (BytesLike × BytesLike))
    → normalize_and_validate parsed pairs ≡ ok r.headers
    → body_framing method (request r) ≡ framing_by_rfc r.headers (content_length 0)
body_framing-request method r parsed pairs h =
    request_framing method r (normalize_and_validate-After parsed pairs h)

-- The body of a final response with normalised headers is empty exactly as RFC 7230 says, after HEAD,
-- for the status codes 204 and 304 and for a CONNECT that is accepted with 2xx; else it is chunked if
-- there is a transfer encoding, else of its content length, else it goes up to the end of the
-- connection. No assertion fails; a content length of more than 4300 digits that is to be used raises
-- the ValueError of `int`.
pub body_framing-response :
    (method : Option Bytes) (r : Response) (parsed : Bool) (pairs : List (BytesLike × BytesLike))
    → normalize_and_validate parsed pairs ≡ ok r.headers
    → 200 ≤ r.status_code
    → (IsBodiless method r.status_code × (body_framing method (response r) ≡ ok (content_length 0)))
      ⊎ ((¬ (IsBodiless method r.status_code))
          × (body_framing method (response r) ≡ framing_by_rfc r.headers http10))
body_framing-response method r parsed pairs h l =
    response_framing method r (normalize_and_validate-After parsed pairs h) l
