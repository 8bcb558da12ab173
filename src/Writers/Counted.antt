-- ===== src/Writers/Counted.antt =====
-- A whole body through `ContentLengthWriter` of h11/_writers.py.
use h11_py.Prelude.{
  ℕ, ◌+◌, ◌-◌, ◌≤◌, ◌==◌, ltb, leb, false, List, [], ◌∷◌, ◌++◌, length, ◌≡◌, inl, inr, arith,
  if◌then◌else◌, Bool-cases, leb→le,
}
use h11_py.Util.{local_error, Result, ok, raise, ◌>>=◌}
use h11_py.Bytes.{Bytes}
use h11_py.Events.{new_data, end_of_message}
use h11_py.Framing.{content_length}
use h11_py.Writers.{Writer, call_writer, body_writer}

-- The pieces as Data events, and an EndOfMessage without trailers.
abbrev pub send_body : Writer → List Bytes → Result (List Bytes)
send_body w [] = (call_writer w (end_of_message [])).0
send_body w (d ∷ ds) = do
  out ← (call_writer w (new_data d false false)).0
  rest ← send_body (call_writer w (new_data d false false)).1 ds
  ok (out ++ rest)

abbrev pub total : List Bytes → ℕ
total [] = 0
total (d ∷ ds) = length d + total ds

-- What a body of `m` bytes gives where `n` were declared.
abbrev pub counted : ℕ → ℕ → List Bytes → Result (List Bytes)
counted m n ds =
    if m == n
    then ok ds
    else if ltb m n
    then raise (local_error "Too little data for declared Content-Length")
    else raise (local_error "Too much data for declared Content-Length")

counted-cons :
    (k m n : ℕ) (d : Bytes) (ds : List Bytes)
    → k ≤ n
    → (counted m (n - k) ds >>= λ rest. ok (d ∷ rest)) ≡ counted (k + m) n (d ∷ ds)
counted-cons k m n d ds l = ground arith

counted-too_much :
    (k m n : ℕ) (ds : List Bytes)
    → leb k n ≡ false
    → counted (k + m) n ds ≡ raise (local_error "Too much data for declared Content-Length")
counted-too_much k m n ds l = ground arith

-- A body that is sent under a declared Content-Length goes out unchanged if it has that length, and
-- otherwise a LocalProtocolError is raised, which says whether there was too little or too much.
pub send_body-counted :
    (n : ℕ) (ds : List Bytes)
    → send_body (body_writer (content_length n)) ds ≡ counted (total ds) n ds
unfolding call_writer body_writer
send_body-counted n [] = ground arith
send_body-counted n (d ∷ ds) = elim (Bool-cases (leb (length d) n)) [
  | inl l ↦
      let rest = send_body-counted (n - length d) ds in
      rw (l, rest) (counted-cons (length d) (total ds) n d ds (leb→le _ _ l))
  | inr l ↦ rw (l, counted-too_much (length d) (total ds) n (d ∷ ds) l)
]
