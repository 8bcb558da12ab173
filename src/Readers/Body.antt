-- ===== src/Readers/Body.antt =====
-- A whole chunked body, from `ChunkedWriter` (h11/_writers.py) to `ChunkedReader` (h11/_readers.py).
use mathlib.Core.List.{append_assoc}
use mathlib.Core.Path.{subst}
use h11_py.Prelude.{
  ◌^◌, ◌<◌, true, false, some, List, [], ◌∷◌, ◌++◌, ◌≡◌, refl, ap, inl, inr, length, Bool-cases,
  if◌then◌else◌,
}
use h11_py.Util.{ok}
use h11_py.Bytes.{Bytes, is_empty, join}
use h11_py.Events.{Event, new_data, end_of_message}
use h11_py.Readers.{Reading, ChunkedReader, read_chunked}
use h11_py.Readers.Chunks.{Before, chunk, read_chunked-Before, read_chunk-end, read_chunked-chunk}
use h11_py.Writers.{send_chunk, end_chunks, write_headers}

-- What a body's writers append: each piece, then the end with no trailers.
abbrev pub written : List Bytes → List Bytes
written [] = end_chunks []
written (d ∷ ds) = send_chunk d ++ written ds

-- The events that a body is read as; an empty piece leaves no trace.
abbrev pub body_events : List Bytes → List Event
body_events [] = end_of_message [] ∷ []
body_events (d ∷ ds) =
    let rest = body_events ds in if is_empty d then rest else new_data d true true ∷ rest

-- Each call of the reader returns the next event, and the last one leaves `rest`.
pub data Yields (rest : Bytes) : Reading ChunkedReader → List Event → Type 0 where
  finish :
      {s : Reading ChunkedReader} {e : Event}
      → (read_chunked s).0 ≡ ok (some e)
      → (read_chunked s).1.buffer.content ≡ rest
      → Yields rest s (e ∷ [])
  more :
      {s : Reading ChunkedReader} {e : Event} {es : List Event}
      → (read_chunked s).0 ≡ ok (some e)
      → Yields rest (read_chunked s).1 es
      → Yields rest s (e ∷ es)

abbrev pub AreShort : List Bytes → Type 0
AreShort [] = Unit
AreShort (d ∷ ds) = (length d < 16 ^ 20) × AreShort ds

join-append : (xs ys : List Bytes) → join (xs ++ ys) ≡ join xs ++ join ys
join-append [] ys = refl
join-append (x ∷ xs) ys = simp (join-append xs ys, append_assoc)

send_chunk-nil : (d : Bytes) (ws : List Bytes) → is_empty d ≡ true → send_chunk d ++ ws ≡ ws
unfolding send_chunk
send_chunk-nil d ws e = rw e

join-send_chunk :
    (d : Bytes) (ws : List Bytes) (rest : Bytes)
    → is_empty d ≡ false
    → join (send_chunk d ++ ws) ++ rest ≡ chunk d (join ws ++ rest)
unfolding send_chunk
join-send_chunk d ws rest e = rw e (simp append_assoc)

read_end :
    (s : Reading ChunkedReader) (rest : Bytes)
    → Before s (join (end_chunks []) ++ rest)
    → Yields rest s (end_of_message [] ∷ [])
unfolding end_chunks write_headers
read_end s rest h =
    let (b, v, c, same) = read_chunked-Before s _ h in
    let (out, left) = read_chunk-end b rest v c in finish (rw same out) (rw same left)

-- A chunked body that was written in pieces, each shorter than 16 ^ 20 bytes, is read back piece by
-- piece, each non-empty piece as one Data event that starts and ends a chunk, and then as an
-- EndOfMessage, and what follows it in the buffer is left there.
pub read_chunked-written :
    (s : Reading ChunkedReader) (ds : List Bytes) (rest : Bytes)
    → Before s (join (written ds) ++ rest)
    → AreShort ds
    → Yields rest s (body_events ds)
read_chunked-written s [] rest h l = read_end s rest h
read_chunked-written s (d ∷ ds) rest h l = elim (Bool-cases (is_empty d)) [
  | inl e ↦ rw e (
      read_chunked-written s ds rest
        (subst (Before s) (ap (λ ws. join ws ++ rest) (send_chunk-nil d (written ds) e)) h) l.1)
  | inr e ↦
      let (out, next) =
        read_chunked-chunk s d (join (written ds) ++ rest)
          (subst (Before s) (join-send_chunk d (written ds) rest e) h) e l.0 in
      rw e (more out (read_chunked-written (read_chunked s).1 ds rest next l.1))
]
