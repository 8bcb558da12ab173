-- ===== src/Headers/Items.antt =====
-- The sequence methods of `Headers` in h11/_headers.py.
use h11_py.Prelude.{
  ℕ, zero, suc, ◌-◌, ltb, Bool, true, false, ◌&&◌, Option, none, some, List, [], ◌∷◌, map, length,
  ◌≡◌, ◌↔◌, refl, ap, ◌∙◌, inl, inr, Option-cases, &&_parts, if◌then◌else◌,
}
use h11_py.Bytes.{Bytes, eq_bytes}
use h11_py.Headers.{Header, Headers}
use h11_py.Headers.Normal.{eq_bytes-eq}
use h11_py.Headers.Values.{eq_bytes_self}

-- What `__getitem_` returns of an element.
abbrev pub item : Header → Bytes × Bytes
item h = (h.name, h.value)

-- `__truth_`
abbrev pub truth : Headers → Bool
truth [] = false
truth (h ∷ hs) = true

-- `__len_`
abbrev pub len : Headers → ℕ
len hs = length hs

-- An index: `i`, or `-1 - i`.
pub data Index : Type 0 where
  from_start from_end : ℕ → Index

abbrev at : Headers → ℕ → Option (Bytes × Bytes)
at [] i = none
at (h ∷ hs) zero = some (item h)
at (h ∷ hs) (suc i) = at hs i

-- `__getitem_`, with `none` for the IndexError.
unfoldable pub getitem : Headers → Index → Option (Bytes × Bytes)
getitem hs (from_start i) = at hs i
getitem hs (from_end i) = if ltb i (length hs) then at hs (length hs - suc i) else none

-- `list(self)`: `__getitem_` from 0 on, up to the IndexError; `i` is how far it has come, and the
-- fuel bounds the calls.
unfoldable pub list_from : ℕ → Headers → ℕ → List (Bytes × Bytes)
unfolding getitem
list_from zero hs i = []
list_from (suc fuel) hs i =
    let rest = list_from fuel hs (suc i) in
    elim (getitem hs (from_start i)) [ none ↦ [] | some x ↦ x ∷ rest ]

-- One call for each header, and one for the IndexError.
abbrev pub to_list : Headers → List (Bytes × Bytes)
to_list hs = list_from (suc (length hs)) hs 0

abbrev equal_lists : List (Bytes × Bytes) → List (Bytes × Bytes) → Bool
equal_lists [] [] = true
equal_lists ((n, v) ∷ xs) ((m, w) ∷ ys) = eq_bytes n m && eq_bytes v w && equal_lists xs ys
equal_lists _ _ = false

-- `__eq__` with another `Headers`.
unfoldable pub equals : Headers → Headers → Bool
unfolding list_from
equals hs other = equal_lists (to_list hs) (to_list other)

list_from_shift :
    (fuel : ℕ) (h : Header) (hs : Headers) (i : ℕ)
    → list_from fuel (h ∷ hs) (suc i) ≡ list_from fuel hs i
unfolding list_from
list_from_shift zero h hs i = refl
list_from_shift (suc fuel) h hs i = elim (Option-cases (at hs i)) [
  | inl e ↦ rw (list_from, e) refl
  | inr (x, e) ↦ rw (list_from, e) (ap (λ xs. x ∷ xs) (list_from_shift fuel h hs (suc i)))
]

to_list-items : (hs : Headers) → to_list hs ≡ map item hs
unfolding list_from
to_list-items [] = refl
to_list-items (h ∷ hs) =
    ap (λ xs. item h ∷ xs) (list_from_shift (suc (length hs)) h hs 0 ∙ to_list-items hs)

equal_lists-eq : (xs ys : List (Bytes × Bytes)) → equal_lists xs ys ≡ true → xs ≡ ys
equal_lists-eq [] [] h = refl
equal_lists-eq [] (y ∷ ys) h = cc
equal_lists-eq (x ∷ xs) [] h = cc
equal_lists-eq ((n, v) ∷ xs) ((m, w) ∷ ys) h =
    let (p, q) = &&_parts (eq_bytes n m && eq_bytes v w) (equal_lists xs ys) h in
    let (a, b) = &&_parts (eq_bytes n m) (eq_bytes v w) p in
    let e = eq_bytes-eq n m a in
    let f = eq_bytes-eq v w b in let g = equal_lists-eq xs ys q in rw (e, f, g) refl

equal_lists_self : (xs : List (Bytes × Bytes)) → equal_lists xs xs ≡ true
equal_lists_self [] = refl
equal_lists_self ((n, v) ∷ xs) = rw (eq_bytes_self n, eq_bytes_self v, equal_lists_self xs) refl

-- The names and the values of equal items are equal, and the other way round.
items-names_values :
    (hs hs' : Headers)
    → (map item hs ≡ map item hs') ↔ (
        (map (λ h. h.name) hs ≡ map (λ h. h.name) hs')
        × (map (λ h. h.value) hs ≡ map (λ h. h.value) hs'))
items-names_values [] [] = (λ h. (refl, refl), λ h. refl)
items-names_values [] (h' ∷ hs') = (λ h. cc, λ h. cc)
items-names_values (h ∷ hs) [] = (λ h. cc, λ h. cc)
items-names_values (h ∷ hs) (h' ∷ hs') =
    let rest = items-names_values hs hs' in
    (
      λ e.
          let later : map item hs ≡ map item hs' = cc in
          let n : h.name ≡ h'.name = cc in
          let v : h.value ≡ h'.value = cc in
          let (ns, vs) = rest.0 later in (rw (n, ns) refl, rw (v, vs) refl),
      λ (p, q).
          let n : h.name ≡ h'.name = cc in
          let v : h.value ≡ h'.value = cc in
          let ns : map (λ h. h.name) hs ≡ map (λ h. h.name) hs' = cc in
          let vs : map (λ h. h.value) hs ≡ map (λ h. h.value) hs' = cc in
          rw (n, v, rest.1 (ns, vs)) refl,
    )

-- Two `Headers` are equal exactly when they have the same names in lower case and the same values, both
-- in the same order, whatever their raw names.
pub equals-items :
    (hs hs' : Headers)
    → (equals hs hs' ≡ true) ↔ (
        (map (λ h. h.name) hs ≡ map (λ h. h.name) hs')
        × (map (λ h. h.value) hs ≡ map (λ h. h.value) hs'))
unfolding equals
equals-items hs hs' =
    let parts = items-names_values hs hs' in
    rw (to_list-items hs, to_list-items hs')
      (
        λ h. parts.0 (equal_lists-eq (map item hs) (map item hs') h),
        λ h. rw (parts.1 h) (equal_lists_self (map item hs')),
      )
