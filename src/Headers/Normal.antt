-- ===== src/Headers/Normal.antt =====
-- The lists that `normalize_and_validate` of h11/_headers.py returns.
use h11_py.Prelude.{
  Bool, true, false, Option, none, some, List, [], ◌∷◌, ◌==◌, ◌≡◌, refl, ap, ◌⊎◌, inl, inr,
  if◌then◌else◌, Bool-cases, ==_iff, &&_parts,
}
use mathlib.Core.Path.{subst}
use h11_py.Util.{Result-cases, Result, ok, raise, >>=-eq-ok, BytesLike, validate}
use h11_py.Bytes.{Bytes, bytes, eq_bytes, lower}
use h11_py.Regex.Language.{Matches}
use h11_py.Abnf.{content_length_re}
use h11_py.Util.Outcome.{IsLocal, validate-IsLocal}
use h11_py.Util.Validate.{validate_lem}
use h11_py.Headers.{
  Header, Headers, Seen, Step, check_seen_length, check_content_length, check_transfer_encoding,
  check_header, take_pair, add, normalize_from, normalize_and_validate,
}

pub eq_bytes-eq : (a b : Bytes) → eq_bytes a b ≡ true → a ≡ b
unfolding eq_bytes
eq_bytes-eq [] [] h = refl
eq_bytes-eq [] (y ∷ b) h = cc
eq_bytes-eq (x ∷ a) [] h = cc
eq_bytes-eq (x ∷ a) (y ∷ b) h =
    let (p, q) = &&_parts (x == y) (eq_bytes a b) h in
    let e = (==_iff x y).0 p in let e' = eq_bytes-eq a b q in cc

-- The values of the headers of one name.
abbrev pub values_of : Bytes → Headers → List Bytes
values_of name [] = []
values_of name (h ∷ hs) =
    let rest = values_of name hs in if eq_bytes h.name name then h.value ∷ rest else rest

abbrev pub IsLength : Bytes → Type 0
IsLength v = Matches content_length_re v

-- What the values of the content-length headers can be that follow those seen.
abbrev pub LengthsAfter : Option Bytes → List Bytes → Type 0
LengthsAfter none ls = (ls ≡ []) ⊎ ((v : Bytes) × (ls ≡ v ∷ []) × IsLength v)
LengthsAfter (some v) ls = ls ≡ []

abbrev pub EncodingsAfter : Bool → List Bytes → Type 0
EncodingsAfter false es = (es ≡ []) ⊎ (es ≡ bytes "chunked" ∷ [])
EncodingsAfter true es = es ≡ []

-- At most one content-length header, whose value is a decimal number, and at most one
-- transfer-encoding header, whose value is `chunked`.
abbrev pub IsNormal : Headers → Type 0
IsNormal hs =
    LengthsAfter none (values_of (bytes "content-length") hs)
    × EncodingsAfter false (values_of (bytes "transfer-encoding") hs)

-- What the loop's body lets through.
pub data Kept (raw_name name : Bytes) (seen : Seen) : Option Header → Seen → Type 0 where
  repeated : Kept raw_name name seen none seen
  other :
      (value : Bytes)
      → eq_bytes name (bytes "content-length") ≡ false
      → eq_bytes name (bytes "transfer-encoding") ≡ false
      → Kept raw_name name seen
          (some (record { raw_name = raw_name; name = name; value = value }))
          seen
  length :
      (value : Bytes)
      → name ≡ bytes "content-length"
      → seen.content_length ≡ none
      → IsLength value
      → Kept raw_name name seen
          (some (record { raw_name = raw_name; name = name; value = value }))
          (record seen { content_length = some value })
  encoding :
      (value : Bytes)
      → name ≡ bytes "transfer-encoding"
      → seen.transfer_encoding ≡ false
      → value ≡ bytes "chunked"
      → Kept raw_name name seen
          (some (record { raw_name = raw_name; name = name; value = value }))
          (record seen { transfer_encoding = true })

abbrev pub Passes : Bytes → Bytes → Seen → Result Step → Type 0
Passes raw_name name seen (ok (kept, seen')) = Kept raw_name name seen kept seen'
Passes raw_name name seen (raise e) = IsLocal e

seen_length-Passes :
    (o : Option Bytes) (raw_name name value : Bytes) (seen : Seen)
    → seen.content_length ≡ o
    → name ≡ bytes "content-length"
    → IsLength value
    → Passes raw_name name seen (check_seen_length o raw_name name value seen)
seen_length-Passes none raw_name name value seen h e l = length value e h l
seen_length-Passes (some v) raw_name name value seen h e l = elim (Bool-cases (eq_bytes v value)) [
  | inl q ↦ rw q repeated
  | inr q ↦ rw q tt
]

content_length-Passes :
    (o : Option Bytes) (raw_name name : Bytes) (seen : Seen)
    → name ≡ bytes "content-length"
    → Passes raw_name name seen (check_content_length o raw_name name seen)
content_length-Passes none raw_name name seen e = tt
content_length-Passes (some value) raw_name name seen e =
    elim (Result-cases (validate content_length_re value "bad Content-Length")) [
      | inl (g, q) ↦
          let l = (validate_lem content_length_re value "bad Content-Length").0.0 (g, q) in
          rw q (seen_length-Passes seen.content_length raw_name name value seen refl e l)
      | inr (x, q) ↦ rw q (validate-IsLocal content_length_re value "bad Content-Length" q)
    ]

encoding-Passes :
    (raw_name name value : Bytes) (seen : Seen)
    → name ≡ bytes "transfer-encoding"
    → Passes raw_name name seen (check_transfer_encoding raw_name name value seen)
encoding-Passes raw_name name value seen e = elim (Bool-cases seen.transfer_encoding) [
  | inl q ↦ rw q tt
  | inr q ↦ rw q (elim (Bool-cases (eq_bytes (lower value) (bytes "chunked"))) [
    | inl d ↦ rw d (encoding (lower value) e refl (eq_bytes-eq _ _ d))
    | inr d ↦ rw d tt
  ])
]

pub check_header-Passes :
    (raw_name name value : Bytes) (seen : Seen)
    → Passes raw_name name seen (check_header raw_name name value seen)
unfolding check_header
check_header-Passes raw_name name value seen =
    elim (Bool-cases (eq_bytes name (bytes "content-length"))) [
      | inl e ↦ rw e (content_length-Passes _ raw_name name seen (eq_bytes-eq _ _ e))
      | inr e ↦ rw e (elim (Bool-cases (eq_bytes name (bytes "transfer-encoding"))) [
        | inl d ↦ rw d (encoding-Passes raw_name name value seen (eq_bytes-eq _ _ d))
        | inr d ↦ rw d (other value e d)
      ])
    ]

-- What the headers can be that follow those seen.
pub record After (seen : Seen) (hs : Headers) : Type 0 where
  pub lengths : LengthsAfter seen.content_length (values_of (bytes "content-length") hs)
  pub encodings : EncodingsAfter seen.transfer_encoding (values_of (bytes "transfer-encoding") hs)

add-After :
    {raw_name name : Bytes} {seen : Seen} {kept : Option Header} {seen' : Seen} (hs : Headers)
    → Kept raw_name name seen kept seen'
    → After seen' hs
    → After seen (add kept hs)
unfolding eq_bytes
add-After hs repeated a = a
add-After hs (other value e d) a = record { lengths = rw e a.lengths; encodings = rw d a.encodings }
add-After {raw_name} {name} {seen} hs (length value e h l) a = record {
  lengths = rw (e, h) (inr (value, ap (λ ls. value ∷ ls) a.lengths, l));
  encodings = rw e a.encodings;
}
add-After {raw_name} {name} {seen} hs (encoding value e h l) a = record {
  lengths = rw e a.lengths;
  encodings = rw (e, h) (inr (rw l (ap (λ es. bytes "chunked" ∷ es) a.encodings)));
}

no_lengths : (o : Option Bytes) → LengthsAfter o []
no_lengths none = inl refl
no_lengths (some v) = refl

no_encodings : (b : Bool) → EncodingsAfter b []
no_encodings true = refl
no_encodings false = inl refl

none-After : (seen : Seen) → After seen []
none-After seen = record {
  lengths = no_lengths seen.content_length;
  encodings = no_encodings seen.transfer_encoding;
}

normalize_from-After :
    (parsed : Bool) (seen : Seen) (headers : List (BytesLike × BytesLike)) {hs : Headers}
    → normalize_from parsed seen headers ≡ ok hs
    → After seen hs
unfolding normalize_from
normalize_from-After parsed seen [] {hs} h =
    let e : [] ≡ hs = cc in subst (After seen) e (none-After seen)
normalize_from-After parsed seen ((n, v) ∷ headers) {hs} h =
    let ((name, value), _, h1) = >>=-eq-ok (take_pair parsed n v) _ h in
    let ((kept, seen'), c, h2) = >>=-eq-ok (check_header name (lower name) value seen) _ h1 in
    let (rest, r, h3) = >>=-eq-ok (normalize_from parsed seen' headers) _ h2 in
    let e : add kept rest ≡ hs = cc in
    let p =
      subst (Passes name (lower name) seen) c (check_header-Passes name (lower name) value seen) in
    subst (After seen) e (add-After rest p (normalize_from-After parsed seen' headers r))

-- If the list is accepted, it has at most one content-length header, whose value is a decimal number,
-- and at most one transfer-encoding header, whose value is `chunked`.
pub normalize_and_validate-After :
    (parsed : Bool) (headers : List (BytesLike × BytesLike)) {hs : Headers}
    → normalize_and_validate parsed headers ≡ ok hs
    → IsNormal hs
unfolding normalize_and_validate
normalize_and_validate-After parsed headers h =
    let a = normalize_from-After parsed _ headers h in (a.lengths, a.encodings)
