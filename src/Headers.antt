-- ===== src/Headers.antt =====
-- h11/_headers.py: header lists, their normalisation, and comma-separated headers.
pub mod Normal
pub mod Idempotent
pub mod Values
pub mod Items
use h11_py.Prelude.{
  Bool, true, false, not, ◌&&◌, ◌||◌, Option, none, some, List, [], ◌∷◌, ◌++◌, map, if◌then◌else◌,
}
use h11_py.Util.{
  local_protocol_error, local_error, assertion_error, Result, ok, raise, ◌>>=◌, ◌>>◌, require,
  BytesLike, raw, bytesify, validate,
}
use h11_py.Bytes.{Bytes, bytes, eq_bytes, lt_bytes, is_empty, strip, split, lower, title}
use h11_py.Abnf.{field_name, field_value, content_length_re}

-- One of `Headers._full_items`.
pub record Header : Type 0 where
  pub raw_name : Bytes
  pub name : Bytes
  pub value : Bytes

abbrev pub Headers : Type 0
Headers = List Header

-- `raw_items`
unfoldable pub raw_items : Headers → List (Bytes × Bytes)
raw_items = map λ h. (h.raw_name, h.value)

-- `seen_content_length` and `saw_transfer_encoding`
pub record Seen : Type 0 where
  pub content_length : Option Bytes
  pub transfer_encoding : Bool

abbrev all_equal : Bytes → List Bytes → Bool
all_equal v [] = true
all_equal v (w ∷ ws) = eq_bytes w v && all_equal v ws

-- The element of `{length.strip() for length in lengths}`, if it has one alone.
abbrev pub only_length : List Bytes → Option Bytes
only_length [] = none
only_length (w ∷ ws) = if all_equal (strip w) (map strip ws) then some (strip w) else none

abbrev conflicting {ℓ} : {A : Type ℓ} → Result A
conflicting = raise (local_error "conflicting Content-Length headers")

-- What the loop's body appends, with the flags that it leaves.
abbrev pub Step : Type 0
Step = Option Header × Seen

abbrev keep : Bytes → Bytes → Bytes → Seen → Result Step
keep raw_name name value seen =
    ok (some (record { raw_name = raw_name; name = name; value = value }), seen)

abbrev check_seen_length : Option Bytes → Bytes → Bytes → Bytes → Seen → Result Step
check_seen_length none raw_name name value seen =
    keep raw_name name value (record seen { content_length = some value })
check_seen_length (some v) raw_name name value seen =
    if eq_bytes v value then ok (none, seen) else conflicting

abbrev check_content_length : Option Bytes → Bytes → Bytes → Seen → Result Step
check_content_length none raw_name name seen = conflicting
check_content_length (some value) raw_name name seen = do
  _ ← validate content_length_re value "bad Content-Length"
  check_seen_length seen.content_length raw_name name value seen

abbrev check_transfer_encoding : Bytes → Bytes → Bytes → Seen → Result Step
check_transfer_encoding raw_name name value seen = do
  require (not seen.transfer_encoding)
      (local_protocol_error "multiple Transfer-Encoding headers" 501)
  require (eq_bytes (lower value) (bytes "chunked"))
      (local_protocol_error "Only Transfer-Encoding: chunked is supported" 501)
  keep raw_name name (lower value) (record seen { transfer_encoding = true })

-- The body of the loop after the conversions, by the lowered name.
unfoldable pub check_header : Bytes → Bytes → Bytes → Seen → Result Step
check_header raw_name name value seen =
    if eq_bytes name (bytes "content-length")
    then check_content_length (only_length (split b',' value)) raw_name name seen
    else if eq_bytes name (bytes "transfer-encoding")
    then check_transfer_encoding raw_name name value seen
    else keep raw_name name value seen

abbrev assert_bytes : BytesLike → Result Bytes
assert_bytes (raw s) = ok s
assert_bytes _ = raise assertion_error

-- `bytesify` and the two patterns, or with `_parsed` the two assertions alone.
unfoldable pub take_pair : Bool → BytesLike → BytesLike → Result (Bytes × Bytes)
take_pair true n v = do name ← assert_bytes n; value ← assert_bytes v; ok (name, value)
take_pair false n v = do
  name ← bytesify n
  value ← bytesify v
  _ ← validate field_name name "Illegal header name {!r}"
  _ ← validate field_value value "Illegal header value {!r}"
  ok (name, value)

abbrev pub add : Option Header → Headers → Headers
add none hs = hs
add (some h) hs = h ∷ hs

unfoldable pub normalize_from : Bool → Seen → List (BytesLike × BytesLike) → Result Headers
normalize_from parsed seen [] = ok []
normalize_from parsed seen ((n, v) ∷ headers) = do
  (name, value) ← take_pair parsed n v
  (kept, seen') ← check_header name (lower name) value seen
  rest ← normalize_from parsed seen' headers
  ok (add kept rest)

unfoldable pub normalize_and_validate : Bool → List (BytesLike × BytesLike) → Result Headers
unfolding normalize_from
normalize_and_validate parsed headers =
    normalize_from parsed (record { content_length = none; transfer_encoding = false }) headers

-- The non-empty parts of one value.
abbrev pub comma_values : List Bytes → List Bytes
comma_values [] = []
comma_values (w ∷ ws) = if is_empty (strip w) then comma_values ws else strip w ∷ comma_values ws

unfoldable pub get_comma_header : Headers → Bytes → List Bytes
get_comma_header [] name = []
get_comma_header (h ∷ hs) name =
    (if eq_bytes h.name name then comma_values (split b',' (lower h.value)) else [])
    ++ get_comma_header hs name

abbrev pub without : Bytes → Headers → List (BytesLike × BytesLike)
without name [] = []
without name (h ∷ hs) =
    if eq_bytes h.name name
    then without name hs
    else (raw h.raw_name, raw h.value) ∷ without name hs

unfoldable pub set_comma_header : Headers → Bytes → List Bytes → Result Headers
set_comma_header headers name new_values =
    normalize_and_validate false
      (without name headers ++ map (λ v. (raw (title name), raw v)) new_values)

abbrev pub contains : Bytes → List Bytes → Bool
contains v [] = false
contains v (w ∷ ws) = eq_bytes v w || contains v ws

-- `has_expect_100_continue`, by the version and the headers of the request.
unfoldable pub has_expect_100_continue : Bytes → Headers → Bool
has_expect_100_continue http_version headers =
    if lt_bytes http_version (bytes "1.1")
    then false
    else contains (bytes "100-continue") (get_comma_header headers (bytes "expect"))
