-- ===== src/Util.antt =====
-- h11/_util.py: the exceptions, `bytesify` and `validate`.
pub mod Outcome
pub mod Validate
use h11_py.Prelude.{
  ℕ, String, Bool, true, false, ◌&&◌, Option, none, some, List, [], ◌∷◌, ltb, ◌≡◌, refl, ◌⊎◌, inl,
  inr, if◌then◌else◌,
}
use h11_py.Bytes.{Bytes}
use package.text.Mathlib.Text.{◌==◌ as str_eq}
use h11_py.Regex.{Regex, Groups, fullmatch}

-- The exceptions that the library raises, `msg` the format string of the source. The last five are
-- Python's own classes, by their class alone.
pub data Exn : Type 0 where
  local_protocol_error : String → ℕ → Exn
  remote_protocol_error : String → ℕ → Exn
  assertion_error attribute_error value_error runtime_error type_error : Exn

-- `LocalProtocolError(msg)`, with the default `error_status_hint` of 400.
abbrev pub local_error : String → Exn
local_error msg = local_protocol_error msg 400

abbrev pub remote_error : String → Exn
remote_error msg = remote_protocol_error msg 400

-- `_reraise_as_remote_protocol_error`, and the `isinstance` test of its only caller.
abbrev pub reraise_as_remote : Exn → Exn
reraise_as_remote (local_protocol_error msg hint) = remote_protocol_error msg hint
reraise_as_remote e = e

pub data Result {ℓ} (A : Type ℓ) : Type ℓ where
  ok : A → Result A
  raise : Exn → Result A

-- `if not b: raise e`
abbrev pub require : Bool → Exn → Result (Unit {0})
require b e = if b then ok tt else raise e

-- An exception ends the statements after it.
infixl 5 ◌>>=◌
abbrev pub ◌>>=◌ {κ ℓ} : {A : Type κ} {B : Type ℓ} → Result A → (A → Result B) → Result B
raise exn >>= rest = raise exn
ok value >>= rest = rest value

infixl 5 ◌>>◌
abbrev pub ◌>>◌ {κ} : {B : Type κ} → Result (Unit {0}) → Result B → Result B
check >> rest = check >>= λ _. rest

pub >>=-eq-ok {κ ℓ} :
    {A : Type κ} {B : Type ℓ} (r : Result A) (rest : A → Result B) {b : B}
    → (r >>= rest) ≡ ok b
    → (a : A) × (r ≡ ok a) × (rest a ≡ ok b)
>>=-eq-ok (raise exn) rest ran = cc
>>=-eq-ok (ok value) rest ran = (value, refl, ran)

pub Result-cases {ℓ} :
    {A : Type ℓ} (r : Result A) → ((a : A) × (r ≡ ok a)) ⊎ ((e : Exn) × (r ≡ raise e))
Result-cases (ok a) = inl (a, refl)
Result-cases (raise e) = inr (e, refl)

pub require-eq-ok : (b : Bool) (e : Exn) → require b e ≡ ok tt → b ≡ true
require-eq-ok true e h = refl
require-eq-ok false e h = cc

-- What the API takes for bytes: `raw` is `bytes` (and in `bytesify` any other buffer), `text` a
-- `str` by its code points.
pub data BytesLike : Type 0 where
  raw : Bytes → BytesLike
  text : List ℕ → BytesLike
  integer : ℕ → BytesLike

abbrev is_ascii : List ℕ → Bool
is_ascii [] = true
is_ascii (c ∷ s) = ltb c 128 && is_ascii s

-- `bytesify`; the UnicodeEncodeError of `encode` is a ValueError.
unfoldable pub bytesify : BytesLike → Result Bytes
bytesify (raw s) = ok s
bytesify (text s) = do require (is_ascii s) value_error; ok s
bytesify (integer n) = raise type_error

abbrev found : String → Option Groups → Result Groups
found msg (some g) = ok g
found msg none = raise (local_error msg)

-- `validate(regex, data, msg)`
unfoldable pub validate : Regex → Bytes → String → Result Groups
validate r s msg = found msg (fullmatch r s)

-- `matches[name]`, with `none` for Python's `None`.
abbrev pub group_of : String → Groups → Option Bytes
group_of name [] = none
group_of name ((n, s) ∷ g) = if str_eq n name then some s else group_of name g

abbrev pub or_empty : Option Bytes → Bytes
or_empty none = []
or_empty (some s) = s
