-- ===== src/Tests/Buffer.antt =====
-- The properties of h11/_receivebuffer.py at concrete buffers.
use h11_py.Prelude.{true, false, some, [], ◌∷◌, ◌≡◌, refl, arith}
use h11_py.Util.{ok}
use h11_py.Bytes.{Bytes, bytes}
use h11_py.ReceiveBuffer.{ReceiveBuffer, new, append, maybe_extract_next_line, maybe_extract_lines}
use h11_py.ReceiveBuffer.Valid.{
  IsValid, first_line, first_lines, new-IsValid, append-IsValid, maybe_extract_next_line_lem,
  maybe_extract_lines_lem,
}
use h11_py.ReceiveBuffer.Lines.{block, AreLines, maybe_extract_lines-block}

abbrev head : Bytes
head = bytes "GET / HTTP/1.1\r\nHost: a\n\r\nrest"

abbrev filled : ReceiveBuffer
filled = append head new

filled-IsValid : IsValid filled
filled-IsValid = append-IsValid head new new-IsValid

maybe_extract_next_line_lem_example :
    ((maybe_extract_next_line filled).0 ≡ (first_line filled.content).0)
    × ((maybe_extract_next_line filled).1.content ≡ (first_line filled.content).1)
    × IsValid (maybe_extract_next_line filled).1
maybe_extract_next_line_lem_example = maybe_extract_next_line_lem filled filled-IsValid

maybe_extract_lines_lem_example :
    ((maybe_extract_lines filled).0 ≡ ok (first_lines filled.content).0)
    × ((maybe_extract_lines filled).1.content ≡ (first_lines filled.content).1)
    × IsValid (maybe_extract_lines filled).1
maybe_extract_lines_lem_example = maybe_extract_lines_lem filled filled-IsValid

filled-content :
    filled.content
    ≡ block ((bytes "GET / HTTP/1.1", true) ∷ (bytes "Host: a", false) ∷ []) true (bytes "rest")
unfolding append
filled-content = refl

lines-AreLines : AreLines ((bytes "GET / HTTP/1.1", true) ∷ (bytes "Host: a", false) ∷ [])
lines-AreLines = ground arith

maybe_extract_lines-block_example :
    ((maybe_extract_lines filled).0 ≡ ok (some (bytes "GET / HTTP/1.1" ∷ bytes "Host: a" ∷ [])))
    × ((maybe_extract_lines filled).1.content ≡ bytes "rest")
maybe_extract_lines-block_example =
    maybe_extract_lines-block filled (bytes "GET / HTTP/1.1") true ((bytes "Host: a", false) ∷ [])
      true (bytes "rest") filled-IsValid lines-AreLines filled-content
