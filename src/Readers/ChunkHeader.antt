-- ===== src/Readers/ChunkHeader.antt =====
-- The line that opens a chunk, as `ChunkedWriter` (h11/_writers.py) writes it and `ChunkedReader`
-- (h11/_readers.py) parses it.
use mathlib.Core.Path.{subst}
use mathlib.Core.List.{append_assoc}
use h11_py.Prelude.{
  ℕ, ◌+◌, ◌^◌, ◌≤◌, ◌<◌, Option, some, [], ◌∷◌, ◌++◌, ◌≡◌, refl, sym, arith, length, length-append,
  take-length_append, drop-length_append,
}
use h11_py.Util.{ok, validate}
use h11_py.Abnf.{chunk_header, chunk_size, chunk_ext, ows, lit, is_hexdig}
use h11_py.Bytes.{Bytes, bytes, find_first}
use h11_py.Regex.{Groups, Cont, group, seq, opt, at_end, run, fullmatch}
use h11_py.Regex.Greedy.{AllIn, Stops, run-at_most, between-append}
use h11_py.Numeral.{numeral}
use h11_py.Numeral.Hex.{numeral-AllIn, numeral-cons}
use h11_py.ReceiveBuffer.{crlf}
use h11_py.ReceiveBuffer.Valid.{first_line}

-- A line of hexadecimal digits ends at its CRLF.
find_first-hex :
    (w rest : Bytes) → AllIn is_hexdig w → find_first crlf (w ++ (crlf ++ rest)) ≡ some (length w)
unfolding find_first
find_first-hex [] rest h = refl
find_first-hex (c ∷ w) rest h = ground (arith, find_first-hex w rest h.1)

pair_eq : {a b c d : Bytes} → a ≡ b → c ≡ d → ◌≡◌ {A = Option Bytes × Bytes} (some a, c) (some b, d)
pair_eq p q = λ i. (some (p i), q i)

pub first_line-hex :
    (w rest : Bytes)
    → AllIn is_hexdig w
    → first_line (w ++ (crlf ++ rest)) ≡ (some (w ++ crlf), rest)
first_line-hex w rest h =
    rw (find_first-hex w rest h, sym (append_assoc w crlf rest), two (length-append w crlf))
      (pair_eq (take-length_append (w ++ crlf) rest) (drop-length_append (w ++ crlf) rest))
  where
    two : length (w ++ crlf) ≡ length w + length crlf → length w + 2 ≡ length (w ++ crlf)
    two e = sym e

run-chunk_size :
    {R : Type 0} (c : ℕ) (w rest : Bytes) (k : Cont R) (g : Groups) {r : R}
    → AllIn is_hexdig (c ∷ w)
    → length w ≤ 19
    → Stops is_hexdig rest
    → k rest (("chunk_size", c ∷ w) ∷ g) ≡ some r
    → run (group "chunk_size" chunk_size) k (c ∷ (w ++ rest)) g ≡ some r
unfolding run
run-chunk_size c w rest k g h l s e =
    rw (h.0, run) (run-at_most is_hexdig 19 w rest _ g l h.1 s (rw (between-append (c ∷ w) rest) e))

-- The header of a chunk, without an extension, gives its size.
fullmatch-chunk_header :
    (c : ℕ) (w : Bytes)
    → AllIn is_hexdig (c ∷ w)
    → length w ≤ 19
    → fullmatch chunk_header (c ∷ (w ++ crlf)) ≡ some (("chunk_size", c ∷ w) ∷ [])
unfolding fullmatch
fullmatch-chunk_header c w h l =
    run-chunk_size c w crlf
      (run (seq (opt (group "chunk_ext" chunk_ext)) (seq ows (lit (bytes "\r\n")))) at_end) [] h l
      refl refl

pub validate-chunk_header :
    (n : ℕ)
    → n < 16 ^ 20
    → validate chunk_header (numeral 16 n ++ crlf) "illegal chunk header: {!r}"
      ≡ ok (("chunk_size", numeral 16 n) ∷ [])
unfolding validate
validate-chunk_header n h =
    let (c, w, e, l) = numeral-cons n h in
    rw e (rw (fullmatch-chunk_header c w (subst (AllIn is_hexdig) e (numeral-AllIn n)) l))
