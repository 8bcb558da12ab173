-- ===== src/Headers/Idempotent.antt =====
-- `normalize_and_validate` of h11/_headers.py on the list that it has returned.
use h11_py.Prelude.{
  ℕ, Bool, true, false, Option, none, some, List, [], ◌∷◌, map, ◌≡◌, refl, sym, ◌∙◌, inl, arith,
}
use mathlib.Core.Path.{subst}
use mathlib.Core.List.{append-nil}
use h11_py.Util.{ok, >>=-eq-ok, BytesLike, raw, bytesify, validate}
use h11_py.Util.Validate.{validate_lem}
use h11_py.Bytes.{Bytes, bytes, eq_bytes, lower}
use h11_py.Regex.{fullmatch, star_loop, run}
use h11_py.Regex.Language.{Matches, stop}
use h11_py.Regex.Greedy.{AllIn}
use h11_py.Regex.Classes.{some_of-AllIn, some_of-Matches}
use h11_py.Abnf.{field_name, field_value, content_length_re, is_digit, is_vchar_or_obs_text}
use h11_py.Framing.Normal.{split-digits, strip-digits}
use h11_py.Headers.{
  Header, Headers, Seen, check_header, take_pair, add, normalize_from, normalize_and_validate,
  raw_items,
}
use h11_py.Headers.Normal.{
  IsLength, Kept, repeated, other, length, encoding, Passes, check_header-Passes,
}
use h11_py.Headers.Values.{plain_step}

digit_vchar : (c : ℕ) → is_digit c ≡ true → is_vchar_or_obs_text c ≡ true
digit_vchar c h = ground arith

digits-vchars : (v : Bytes) → AllIn is_digit v → AllIn is_vchar_or_obs_text v
digits-vchars [] a = tt
digits-vchars (c ∷ v) a = (digit_vchar c a.0, digits-vchars v a.1)

-- A decimal number can be the value of a header.
length-Matches : (v : Bytes) → IsLength v → Matches field_value v
length-Matches v l =
    let (a, n) = some_of-AllIn is_digit v l in
    inl (
      v,
      [],
      sym (append-nil v),
      some_of-Matches is_vchar_or_obs_text v (digits-vchars v a) n,
      stop,
    )

take_pair-raw :
    (a v : Bytes)
    → Matches field_name a
    → Matches field_value v
    → take_pair false (raw a) (raw v) ≡ ok (a, v)
unfolding take_pair bytesify
take_pair-raw a v m n =
    let (g, e) = (validate_lem field_name a "Illegal header name {!r}").0.1 m in
    let (g', e') = (validate_lem field_value v "Illegal header value {!r}").0.1 n in rw (e, e') refl

-- Headers that the loop lets through as they are, if it starts with these flags.
pub data Fits : Seen → Headers → Type 0 where
  none_left : {seen : Seen} → Fits seen []
  next :
      {seen : Seen} (raw_name value : Bytes) (seen' : Seen) {rest : Headers}
      → Matches field_name raw_name
      → Matches field_value value
      → check_header raw_name (lower raw_name) value seen
        ≡ ok (some (record { raw_name = raw_name; name = lower raw_name; value = value }), seen')
      → Fits seen' rest
      → Fits seen (record { raw_name = raw_name; name = lower raw_name; value = value } ∷ rest)

-- The raw items as the argument of another normalisation.
abbrev pub again : Headers → List (BytesLike × BytesLike)
again hs = map (λ h. (raw h.0, raw h.1)) (raw_items hs)

pub normalize-again :
    (parsed : Bool) {seen : Seen} {hs : Headers}
    → Fits seen hs
    → normalize_from parsed seen (again hs) ≡ ok hs
unfolding normalize_from raw_items take_pair
normalize-again parsed none_left = refl
normalize-again true (next a v seen' m n c later) = rw (c, normalize-again true later) refl
normalize-again false (next a v seen' m n c later) =
    rw (take_pair-raw a v m n, c, normalize-again false later) refl

-- A kept content-length header is kept again, since its value is one number.
length-kept :
    (a name v : Bytes) (seen : Seen)
    → name ≡ bytes "content-length"
    → seen.content_length ≡ none
    → IsLength v
    → check_header a name v seen
      ≡ ok (
        some (record { raw_name = a; name = name; value = v }),
        record seen { content_length = some v },
      )
unfolding check_header eq_bytes
length-kept a name v seen e s l =
    let digits = (some_of-AllIn is_digit v l).0 in
    let (g, q) = (validate_lem content_length_re v "bad Content-Length").0.1 l in
    rw (e, split-digits v digits, strip-digits v digits, q, s) refl

encoding-kept :
    (a name v : Bytes) (seen : Seen)
    → name ≡ bytes "transfer-encoding"
    → seen.transfer_encoding ≡ false
    → v ≡ bytes "chunked"
    → check_header a name v seen
      ≡ ok (
        some (record { raw_name = a; name = name; value = v }),
        record seen { transfer_encoding = true },
      )
unfolding check_header eq_bytes lower
encoding-kept a name v seen e s q = rw (e, q, s) refl

chunked-Matches : Matches field_value (bytes "chunked")
unfolding validate fullmatch star_loop run
chunked-Matches =
    (validate_lem field_value (bytes "chunked") "Illegal header value {!r}").0.0 (_, refl)

step-Fits :
    (a b : Bytes) (seen : Seen) {kept : Option Header} {seen' : Seen} (rest : Headers)
    → Matches field_name a
    → Matches field_value b
    → check_header a (lower a) b seen ≡ ok (kept, seen')
    → Kept a (lower a) seen kept seen'
    → Fits seen' rest
    → Fits seen (add kept rest)
step-Fits a b seen rest m n c repeated later = later
step-Fits a b seen rest m n c (other value e d) later =
    let same : b ≡ value = let k = sym (plain_step (lower a) a b seen (e, d)) ∙ c in cc in
    next a value seen m (rw (← same) n) (plain_step (lower a) a value seen (e, d)) later
step-Fits a b seen rest m n c (length value e s l) later =
    next a value _ m (length-Matches value l) (length-kept a (lower a) value seen e s l) later
step-Fits a b seen rest m n c (encoding value e s q) later =
    next a value _ m (rw q chunked-Matches) (encoding-kept a (lower a) value seen e s q) later

take_pair-Matches :
    (n v : BytesLike) {a b : Bytes}
    → take_pair false n v ≡ ok (a, b)
    → Matches field_name a × Matches field_value b
unfolding take_pair
take_pair-Matches n v {a} {b} h =
    let (a', h1, k1) = >>=-eq-ok (bytesify n) _ h in
    let (b', h2, k2) = >>=-eq-ok (bytesify v) _ k1 in
    let (g1, h3, k3) = >>=-eq-ok (validate field_name a' "Illegal header name {!r}") _ k2 in
    let (g2, h4, k4) = >>=-eq-ok (validate field_value b' "Illegal header value {!r}") _ k3 in
    let p : a' ≡ a = cc in
    let q : b' ≡ b = cc in
    (
      subst (Matches field_name) p
          ((validate_lem field_name a' "Illegal header name {!r}").0.0 (g1, h3)),
      subst (Matches field_value) q
          ((validate_lem field_value b' "Illegal header value {!r}").0.0 (g2, h4)),
    )

pub normalize-Fits :
    (seen : Seen) (ps : List (BytesLike × BytesLike)) {hs : Headers}
    → normalize_from false seen ps ≡ ok hs
    → Fits seen hs
unfolding normalize_from
normalize-Fits seen [] {hs} h = let e : [] ≡ hs = cc in subst (Fits seen) e none_left
normalize-Fits seen ((n, v) ∷ ps) {hs} h =
    let ((a, b), c, h1) = >>=-eq-ok (take_pair false n v) _ h in
    let ((kept, seen'), d, h2) = >>=-eq-ok (check_header a (lower a) b seen) _ h1 in
    let (rest, r, h3) = >>=-eq-ok (normalize_from false seen' ps) _ h2 in
    let e : add kept rest ≡ hs = cc in
    let (x, y) = take_pair-Matches n v c in
    let k = subst (Passes a (lower a) seen) d (check_header-Passes a (lower a) b seen) in
    subst (Fits seen) e (step-Fits a b seen rest x y d k (normalize-Fits seen' ps r))

-- The raw items of the headers that a normalisation with its validation returns, normalised once more,
-- with or without validation, give the same headers: nothing is refused, dropped or rewritten.
pub normalize_and_validate-again :
    (parsed : Bool) (ps : List (BytesLike × BytesLike)) {hs : Headers}
    → normalize_and_validate false ps ≡ ok hs
    → normalize_and_validate parsed (again hs) ≡ ok hs
unfolding normalize_and_validate
normalize_and_validate-again parsed ps h = normalize-again parsed (normalize-Fits _ ps h)
