-- ===== src/Headers/Values.antt =====
-- The values that `normalize_and_validate` and `set_comma_header` of h11/_headers.py keep.
use h11_py.Prelude.{
  Bool, true, false, Option, some, List, [], ◌∷◌, ◌++◌, map, ◌≡◌, refl, sym, ap, ◌∙◌, inl, inr,
  arith, if◌then◌else◌, Bool-cases, ==_iff,
}
use mathlib.Core.Path.{subst}
use mathlib.Core.List.{append-nil}
use h11_py.Util.{ok, >>=-eq-ok, BytesLike, raw, text, integer, bytesify, validate}
use h11_py.Bytes.{Bytes, bytes, eq_bytes, lower, title}
use h11_py.Abnf.{field_name, field_value}
use h11_py.Headers.{
  Header, Headers, Seen, check_header, take_pair, add, normalize_from, normalize_and_validate,
  without, set_comma_header,
}
use h11_py.Headers.Normal.{
  eq_bytes-eq, values_of, Kept, repeated, other, length, encoding, Passes, check_header-Passes,
}

-- What an accepted argument stands for.
abbrev content : BytesLike → Bytes
content (raw s) = s
content (text s) = s
content (integer n) = []

pub eq_bytes_self : (s : Bytes) → eq_bytes s s ≡ true
unfolding eq_bytes
eq_bytes_self [] = refl
eq_bytes_self (c ∷ s) = rw ((==_iff c c).1 refl, eq_bytes_self s) refl

bytesify-content : (b : BytesLike) {s : Bytes} → bytesify b ≡ ok s → content b ≡ s
unfolding bytesify
bytesify-content (raw r) h = cc
bytesify-content (text r) h = ground arith
bytesify-content (integer n) h = cc

-- The values given for one name.
abbrev given : Bytes → List (BytesLike × BytesLike) → List Bytes
given name [] = []
given name ((n, v) ∷ ps) =
    let rest = given name ps in if eq_bytes (lower (content n)) name then content v ∷ rest else rest

-- Each name is its raw name in lower case.
abbrev pub IsLowered : Headers → Type 0
IsLowered [] = Unit
IsLowered (h ∷ hs) = (h.name ≡ lower h.raw_name) × IsLowered hs

-- Neither of the names that normalisation treats apart.
abbrev pub IsPlain : Bytes → Type 0
IsPlain name =
    (eq_bytes name (bytes "content-length") ≡ false)
    × (eq_bytes name (bytes "transfer-encoding") ≡ false)

kept_elsewhere :
    {raw_name n : Bytes} {seen seen' : Seen} {kept : Option Header} (name : Bytes) (rest : Headers)
    → eq_bytes n name ≡ false
    → Kept raw_name n seen kept seen'
    → values_of name (add kept rest) ≡ values_of name rest
kept_elsewhere name rest h repeated = refl
kept_elsewhere name rest h (other value e d) = rw h refl
kept_elsewhere name rest h (length value e d l) = rw h refl
kept_elsewhere name rest h (encoding value e d l) = rw h refl

take_pair-content :
    (parsed : Bool) (n v : BytesLike) {a b : Bytes}
    → take_pair parsed n v ≡ ok (a, b)
    → (content n ≡ a) × (content v ≡ b)
unfolding take_pair
take_pair-content true (raw n) (raw v) h = (cc, cc)
take_pair-content true (raw n) (text v) h = (cc, cc)
take_pair-content true (raw n) (integer v) h = (cc, cc)
take_pair-content true (text n) v h = (cc, cc)
take_pair-content true (integer n) v h = (cc, cc)
take_pair-content false n v {a} {b} h =
    let (a', h1, k1) = >>=-eq-ok (bytesify n) _ h in
    let (b', h2, k2) = >>=-eq-ok (bytesify v) _ k1 in
    let (g1, h3, k3) = >>=-eq-ok (validate field_name a' "Illegal header name {!r}") _ k2 in
    let (g2, h4, k4) = >>=-eq-ok (validate field_value b' "Illegal header value {!r}") _ k3 in
    let p : a' ≡ a = cc in
    let q : b' ≡ b = cc in (bytesify-content n h1 ∙ p, bytesify-content v h2 ∙ q)

pub plain_step :
    (name raw_name value : Bytes) (seen : Seen)
    → IsPlain name
    → check_header raw_name name value seen
      ≡ ok (some (record { raw_name = raw_name; name = name; value = value }), seen)
unfolding check_header
plain_step name raw_name value seen (l, t) = rw (l, t) refl

-- Of a name that normalisation does not treat apart, a step keeps the value that is given.
step_values :
    (name raw_name value : Bytes) (seen : Seen) {kept : Option Header} {seen' : Seen}
    (rest : Headers)
    → IsPlain name
    → check_header raw_name (lower raw_name) value seen ≡ ok (kept, seen')
    → values_of name (add kept rest) ≡ (
        if eq_bytes (lower raw_name) name then value ∷ values_of name rest else values_of name rest)
step_values name raw_name value seen {kept} {seen'} rest p h =
    elim (Bool-cases (eq_bytes (lower raw_name) name)) [
      | inr e ↦
          let k =
            subst (Passes raw_name (lower raw_name) seen) h
              (check_header-Passes raw_name (lower raw_name) value seen) in
          rw e (kept_elsewhere name rest e k)
      | inl e ↦
          let same = eq_bytes-eq (lower raw_name) name e in
          let q : kept ≡ some (record { raw_name = raw_name; name = name; value = value }) =
            let k = sym (plain_step name raw_name value seen p) ∙ rw same at h in cc in
          rw (q, e, eq_bytes_self name) refl
    ]

pub normalize-values :
    (parsed : Bool) (seen : Seen) (ps : List (BytesLike × BytesLike)) (name : Bytes) {hs : Headers}
    → IsPlain name
    → normalize_from parsed seen ps ≡ ok hs
    → values_of name hs ≡ given name ps
unfolding normalize_from
normalize-values parsed seen [] name {hs} p h =
    let e : [] ≡ hs = cc in subst (λ x. values_of name x ≡ []) e refl
normalize-values parsed seen ((n, v) ∷ ps) name {hs} p h =
    let ((a, b), c, h1) = >>=-eq-ok (take_pair parsed n v) _ h in
    let ((kept, seen'), d, h2) = >>=-eq-ok (check_header a (lower a) b seen) _ h1 in
    let (rest, r, h3) = >>=-eq-ok (normalize_from parsed seen' ps) _ h2 in
    let e : add kept rest ≡ hs = cc in
    let (x, y) = take_pair-content parsed n v c in
    let later = normalize-values parsed seen' ps name p r in
    rw (← e, x, y, ← later) (step_values name a b seen rest p d)

kept-IsLowered :
    {raw_name name : Bytes} {seen seen' : Seen} {kept : Option Header} (rest : Headers)
    → name ≡ lower raw_name
    → Kept raw_name name seen kept seen'
    → IsLowered rest
    → IsLowered (add kept rest)
kept-IsLowered rest e repeated h = h
kept-IsLowered rest e (other value d t) h = (e, h)
kept-IsLowered rest e (length value d s l) h = (e, h)
kept-IsLowered rest e (encoding value d s l) h = (e, h)

pub normalize-IsLowered :
    (parsed : Bool) (seen : Seen) (ps : List (BytesLike × BytesLike)) {hs : Headers}
    → normalize_from parsed seen ps ≡ ok hs
    → IsLowered hs
unfolding normalize_from
normalize-IsLowered parsed seen [] {hs} h = let e : [] ≡ hs = cc in subst IsLowered e tt
normalize-IsLowered parsed seen ((n, v) ∷ ps) {hs} h =
    let ((a, b), c, h1) = >>=-eq-ok (take_pair parsed n v) _ h in
    let ((kept, seen'), d, h2) = >>=-eq-ok (check_header a (lower a) b seen) _ h1 in
    let (rest, r, h3) = >>=-eq-ok (normalize_from parsed seen' ps) _ h2 in
    let e : add kept rest ≡ hs = cc in
    let k = subst (Passes a (lower a) seen) d (check_header-Passes a (lower a) b seen) in
    subst IsLowered e (kept-IsLowered rest refl k (normalize-IsLowered parsed seen' ps r))

given-append :
    (name : Bytes) (ps qs : List (BytesLike × BytesLike))
    → given name (ps ++ qs) ≡ given name ps ++ given name qs
given-append name [] qs = refl
given-append name ((n, v) ∷ ps) qs = elim (Bool-cases (eq_bytes (lower (content n)) name)) [
  | inl e ↦ rw (e, given-append name ps qs) refl
  | inr e ↦ rw (e, given-append name ps qs) refl
]

given-without : (name : Bytes) (hs : Headers) → IsLowered hs → given name (without name hs) ≡ []
given-without name [] l = refl
given-without name (h ∷ hs) (e, l) = elim (Bool-cases (eq_bytes h.name name)) [
  | inl k ↦ rw (k, given-without name hs l) refl
  | inr k ↦ rw (k, ← e, k, given-without name hs l) refl
]

differ : (a b : Bytes) → eq_bytes a b ≡ false → eq_bytes b a ≡ false
differ a b h = elim (Bool-cases (eq_bytes b a)) [
  | inr k ↦ k
  | inl k ↦
      let same = subst (λ x. eq_bytes a x ≡ true) (sym (eq_bytes-eq b a k)) (eq_bytes_self a) in cc
]

other_without :
    (name other_name : Bytes) (hs : Headers)
    → eq_bytes other_name name ≡ false
    → IsLowered hs
    → given other_name (without name hs) ≡ values_of other_name hs
other_without name other_name [] d l = refl
other_without name other_name (h ∷ hs) d (e, l) = elim (Bool-cases (eq_bytes h.name name)) [
  | inl k ↦
      let n =
        subst (λ x. eq_bytes x other_name ≡ false) (sym (eq_bytes-eq h.name name k))
          (differ other_name name d) in
      rw (k, n) (other_without name other_name hs d l)
  | inr k ↦ elim (Bool-cases (eq_bytes h.name other_name)) [
    | inl n ↦ rw (k, n, ← e, n) (ap (λ vs. h.value ∷ vs) (other_without name other_name hs d l))
    | inr n ↦ rw (k, n, ← e, n) (other_without name other_name hs d l)
  ]
]

given_new :
    (name : Bytes) (vs : List Bytes)
    → lower (title name) ≡ name
    → given name (map (λ v. (raw (title name), raw v)) vs) ≡ vs
given_new name [] e = refl
given_new name (v ∷ vs) e = rw (e, eq_bytes_self name, given_new name vs e) refl

none_new :
    (name other_name : Bytes) (vs : List Bytes)
    → lower (title name) ≡ name
    → eq_bytes other_name name ≡ false
    → given other_name (map (λ v. (raw (title name), raw v)) vs) ≡ []
none_new name other_name [] e d = refl
none_new name other_name (v ∷ vs) e d =
    rw (e, differ other_name name d, none_new name other_name vs e d) refl

pub set_comma_header-new :
    (hs : Headers) (name : Bytes) (vs : List Bytes) {hs' : Headers}
    → IsLowered hs
    → IsPlain name
    → lower (title name) ≡ name
    → set_comma_header hs name vs ≡ ok hs'
    → values_of name hs' ≡ vs
unfolding set_comma_header normalize_and_validate
set_comma_header-new hs name vs l p t h =
    let new = map (λ v. (raw (title name), raw v)) vs in
    normalize-values false _ (without name hs ++ new) name p h
    ∙ rw (given-append name (without name hs) new, given-without name hs l, given_new name vs t)
        refl

-- `set_comma_header` on headers from a normalisation leaves, for a name that normalisation does not
-- treat apart and that is as `title` and `lower` spell it, exactly the new values in their order, and
-- for any other such name the values that there were.
pub set_comma_header-values :
    (hs : Headers) (name other_name : Bytes) (vs : List Bytes) {hs' : Headers}
    → IsLowered hs
    → IsPlain name
    → lower (title name) ≡ name
    → IsPlain other_name
    → eq_bytes other_name name ≡ false
    → set_comma_header hs name vs ≡ ok hs'
    → (values_of name hs' ≡ vs) × (values_of other_name hs' ≡ values_of other_name hs)
unfolding set_comma_header normalize_and_validate
set_comma_header-values hs name other_name vs l p t q d h =
    let new = map (λ v. (raw (title name), raw v)) vs in
    (
      set_comma_header-new hs name vs l p t h,
      normalize-values false _ (without name hs ++ new) other_name q h
          ∙ rw
              (
                given-append other_name (without name hs) new,
                other_without name other_name hs d l,
                none_new name other_name vs t d,
              )
              (append-nil (values_of other_name hs)),
    )

pub set_comma_header-IsLowered :
    (hs : Headers) (name : Bytes) (vs : List Bytes) {hs' : Headers}
    → set_comma_header hs name vs ≡ ok hs'
    → IsLowered hs'
unfolding set_comma_header normalize_and_validate
set_comma_header-IsLowered hs name vs h = normalize-IsLowered false _ _ h
