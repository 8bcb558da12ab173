-- ===== src/Readers/Counted.antt =====
-- A stream that arrives in pieces, through `ContentLengthReader` of h11/_readers.py.
use h11_py.Prelude.{
  ℕ, zero, suc, ◌-◌, true, false, Option, some, List, [], ◌∷◌, ◌++◌, ◌==◌, length, take, drop, ◌≡◌,
  refl, sym, ap, ◌∙◌, ◌⊎◌, inl, inr, arith, length-append, Bool-cases, ==_iff,
}
use mathlib.Core.Path.{subst}
use mathlib.Core.List.{append_assoc, append-nil}
use h11_py.Util.{Result, ok}
use h11_py.Bytes.{Bytes, is_empty, join}
use h11_py.Events.{Event, data_, new_end_of_message}
use h11_py.ReceiveBuffer.{append, extract, maybe_extract_at_most}
use h11_py.Readers.{Reading, ContentLengthReader, read_content_length}

-- The data of what a call returned.
abbrev pub data_of : Result (Option Event) → Bytes
data_of (ok (some (data_ d))) = d.content
data_of _ = []

-- The bytes that one call hands out, and what is left after it.
abbrev step : Bytes → Reading ContentLengthReader → Bytes × Reading ContentLengthReader
step x s =
    let (e, s') = read_content_length (record s { buffer = append x s.buffer }) in (data_of e, s')

-- The reader is called once after each piece.
abbrev pub feed : List Bytes → Reading ContentLengthReader → Bytes × Reading ContentLengthReader
feed [] s = ([], s)
feed (x ∷ xs) s = let (out, s') = step x s in let (rest, s'') = feed xs s' in (out ++ rest, s'')

take-append :
    (n : ℕ) (p q : Bytes)
    → take n (p ++ q) ≡ take n p ++ take (n - length (take n p)) (drop n p ++ q)
take-append zero p q = refl
take-append (suc n) [] q = let k : suc n ≡ suc n - 0 = omega arith in ap (λ j. take j q) k
take-append (suc n) (c ∷ p) q =
    let k : suc n - suc (length (take n p)) ≡ n - length (take n p) = omega arith in
    ap (λ r. c ∷ r) (take-append n p q ∙ ap (λ j. take n p ++ take j (drop n p ++ q)) (sym k))

drop-append : (n : ℕ) (p q : Bytes) → drop n (p ++ q) ≡ drop (n - length (take n p)) (drop n p ++ q)
drop-append zero p q = refl
drop-append (suc n) [] q = let k : suc n ≡ suc n - 0 = omega arith in ap (λ j. drop j q) k
drop-append (suc n) (c ∷ p) q =
    let k : suc n - suc (length (take n p)) ≡ n - length (take n p) = omega arith in
    drop-append n p q ∙ ap (λ j. drop j (drop n p ++ q)) (sym k)

take_nothing :
    (n : ℕ) (b : Bytes)
    → (n == 0) ≡ false
    → is_empty (take n b) ≡ true
    → ([] ≡ take n b) × (b ≡ drop n b) × (n ≡ n - length (take n b))
take_nothing zero b h e = cc
take_nothing (suc n) [] h e = (refl, refl, omega arith)
take_nothing (suc n) (c ∷ b) h e = cc

-- What is handed out, what stays in the buffer and what is still expected, of `n` bytes to come.
abbrev pub Takes : ℕ → Bytes → Bytes × Reading ContentLengthReader → Type 0
Takes n b (out, s) =
    (out ≡ take n b) × (s.buffer.content ≡ drop n b) × (s.reader.remaining ≡ n - length (take n b))

read-Takes :
    (s : Reading ContentLengthReader)
    → Takes s.reader.remaining s.buffer.content
        (data_of (read_content_length s).0, (read_content_length s).1)
unfolding read_content_length maybe_extract_at_most extract new_end_of_message
read-Takes s = elim (Bool-cases (s.reader.remaining == 0)) [
  | inl e ↦ let z = (==_iff s.reader.remaining 0).0 e in rw z (refl, refl, refl)
  | inr e ↦ elim (Bool-cases (is_empty (take s.reader.remaining s.buffer.content))) [
    | inl d ↦ rw (e, d) (take_nothing s.reader.remaining s.buffer.content e d)
    | inr d ↦ rw (e, d) (refl, refl, refl)
  ]
]

step-Takes :
    (x : Bytes) (s : Reading ContentLengthReader)
    → Takes s.reader.remaining (s.buffer.content ++ x) (step x s)
unfolding append
step-Takes x s = read-Takes (record s { buffer = append x s.buffer })

-- The buffer is drained, or the body is complete.
abbrev pub IsServed : Reading ContentLengthReader → Type 0
IsServed s = (s.buffer.content ≡ []) ⊎ (s.reader.remaining ≡ 0)

all_taken : (n : ℕ) (b : Bytes) → (drop n b ≡ []) ⊎ (n - length (take n b) ≡ 0)
all_taken zero b = inr refl
all_taken (suc n) [] = inl refl
all_taken (suc n) (c ∷ b) = elim (all_taken n b) [ inl e ↦ inl e | inr e ↦ inr (omega arith) ]

Takes-IsServed :
    (n : ℕ) (b : Bytes) (r : Bytes × Reading ContentLengthReader) → Takes n b r → IsServed r.1
Takes-IsServed n b (out, s) (h, c, l) = elim (all_taken n b) [
  | inl e ↦ inl (c ∙ e)
  | inr e ↦ inr (l ∙ e)
]

nothing_to_take :
    (n : ℕ)
    → ([] ≡ take {A = ℕ} n []) × ([] ≡ drop {A = ℕ} n []) × (n ≡ n - length (take {A = ℕ} n []))
nothing_to_take zero = (refl, refl, refl)
nothing_to_take (suc n) = (refl, refl, omega arith)

feed_none :
    (s : Reading ContentLengthReader)
    → IsServed s
    → Takes s.reader.remaining (s.buffer.content ++ []) ([], s)
feed_none s (inl e) = rw e (nothing_to_take s.reader.remaining)
feed_none s (inr e) = rw (e, append-nil s.buffer.content) (refl, refl, refl)

Takes-append :
    (n : ℕ) (p q out : Bytes) (s : Reading ContentLengthReader) (out' : Bytes)
    (s' : Reading ContentLengthReader)
    → Takes n p (out, s)
    → Takes s.reader.remaining (s.buffer.content ++ q) (out', s')
    → Takes n (p ++ q) (out ++ out', s')
Takes-append n p q out s out' s' (h, c, l) (h', c', l') = (
  rw (h, h', l, c) (sym (take-append n p q)),
  rw (c', l, c) (sym (drop-append n p q)),
  (let left : s'.reader.remaining
          ≡ n - length (take n p) - length (take (n - length (take n p)) (drop n p ++ q)) =
        rw (l', l, c) in
      let both = length-append (take n p) (take (n - length (take n p)) (drop n p ++ q)) in
      rw (take-append n p q) (omega arith)),
)

-- However the stream is cut into pieces, a reader that is called after each piece hands out exactly
-- the bytes that are still expected of it, as far as they have arrived, and leaves those after them.
pub feed-Takes :
    (xs : List Bytes) (s : Reading ContentLengthReader)
    → IsServed s
    → Takes s.reader.remaining (s.buffer.content ++ join xs) (feed xs s)
feed-Takes [] s h = feed_none s h
feed-Takes (x ∷ xs) s h =
    let t = step-Takes x s in
    let rest = feed-Takes xs (step x s).1 (Takes-IsServed s.reader.remaining _ (step x s) t) in
    let all =
      Takes-append s.reader.remaining (s.buffer.content ++ x) (join xs) (step x s).0 (step x s).1
        (feed xs (step x s).1).0 (feed xs (step x s).1).1 t rest in
    subst (λ b. Takes s.reader.remaining b (feed (x ∷ xs) s))
      (append_assoc s.buffer.content x (join xs)) all
