-- ===== src/ReceiveBuffer.antt =====
-- h11/_receivebuffer.py: the buffer of received bytes, with how far each search has looked.
pub mod Search
pub mod Valid
pub mod Lines
pub mod Shrinks
use h11_py.Prelude.{
  ℕ, zero, suc, ◌+◌, ◌-◌, Bool, false, ◌&&◌, Option, none, some, List, [], ◌∷◌, ◌++◌, map, ltb,
  ◌==◌, if◌then◌else◌, length, take, drop,
}
use h11_py.Effect.{Eff, return, assert, ◌>>=◌, ◌>>◌}
use h11_py.Util.{Result, ok, raise}
use h11_py.Bytes.{Bytes, cr, lf, is_empty, eq_bytes, find, split}
use h11_py.Regex.{Regex, Groups, class, seq, opt, match_prefix}

pub record ReceiveBuffer : Type 0 where
  pub content : Bytes
  pub next_line_search : ℕ
  pub multiple_lines_search : ℕ

-- `ReceiveBuffer.__init__`
abbrev pub new : ReceiveBuffer
new = record { content = []; next_line_search = 0; multiple_lines_search = 0 }

-- `re.compile(b"\n\r?\n")`
abbrev pub blank_line_regex : Regex
blank_line_regex =
    seq (class (λ c. c == lf)) (seq (opt (class (λ c. c == cr))) (class (λ c. c == lf)))

abbrev read_count : Bytes → Option (Groups × Bytes) → Option ℕ
read_count s none = none
read_count s (some (_, rest)) = some (length s - length rest)

-- How many bytes from the start the leftmost blank line ends.
unfoldable pub blank_line_end : Bytes → Option ℕ
unfolding match_prefix
blank_line_end [] = none
blank_line_end (c ∷ s) =
    let later = blank_line_end s in
    elim (read_count (c ∷ s) (match_prefix blank_line_regex (c ∷ s))) [
      | some n ↦ some n
      | none ↦ elim later [ some n ↦ some (suc n) | none ↦ none ]
    ]

-- `blank_line_regex.search(s, start)`, by the end of the match.
unfoldable pub search : Bytes → ℕ → Option ℕ
unfolding blank_line_end
search s start = elim (blank_line_end (drop start s)) [ some n ↦ some (start + n) | none ↦ none ]

-- `__iadd__`
unfoldable pub append : Bytes → ReceiveBuffer → ReceiveBuffer
append byteslike b = record b { content = b.content ++ byteslike }

-- `__bool__`, negated
abbrev pub is_drained : ReceiveBuffer → Bool
is_drained b = is_empty b.content

-- `_extract`
unfoldable pub extract : ℕ → ReceiveBuffer → Bytes × ReceiveBuffer
extract count b = (
  take count b.content,
  record { content = drop count b.content; next_line_search = 0; multiple_lines_search = 0 },
)

unfoldable pub maybe_extract_at_most : ℕ → ReceiveBuffer → Option Bytes × ReceiveBuffer
unfolding extract
maybe_extract_at_most count b =
    if is_empty (take count b.content)
    then (none, b)
    else let (out, b') = extract count b in (some out, b')

abbrev pub crlf : Bytes
crlf = cr ∷ lf ∷ []

-- What `maybe_extract_next_line` does with `partial_idx`.
abbrev take_line : Option ℕ → ReceiveBuffer → Option Bytes × ReceiveBuffer
take_line none b = (none, record b { next_line_search = length b.content })
take_line (some partial_idx) b = let (out, b') = extract (partial_idx + 2) b in (some out, b')

-- `max(0, n - 1)` and `max(0, n - 2)` are the truncated subtractions of ℕ.
unfoldable pub maybe_extract_next_line : ReceiveBuffer → Option Bytes × ReceiveBuffer
unfolding find extract
maybe_extract_next_line b = take_line (find crlf b.content (b.next_line_search - 1)) b

-- `if line.endswith(b"\r"): del line[-1]`
unfoldable pub chomp : Bytes → Bytes
chomp [] = []
chomp (c ∷ []) = if c == cr then [] else c ∷ []
chomp (c ∷ d ∷ s) = c ∷ chomp (d ∷ s)

-- `lines[-2] == lines[-1] == b""`; fewer than two lines would be an IndexError, and are refused too.
unfoldable pub ends_blank : List Bytes → Bool
ends_blank [] = false
ends_blank (a ∷ []) = false
ends_blank (a ∷ b ∷ []) = is_empty a && is_empty b
ends_blank (a ∷ b ∷ c ∷ ls) = ends_blank (b ∷ c ∷ ls)

-- `del lines[-2:]`
unfoldable pub but_last_two : List Bytes → List Bytes
but_last_two [] = []
but_last_two (a ∷ []) = []
but_last_two (a ∷ b ∷ []) = []
but_last_two (a ∷ b ∷ c ∷ ls) = a ∷ but_last_two (b ∷ c ∷ ls)

abbrev pub take_lines : Option ℕ → Eff ReceiveBuffer (Option (List Bytes))
take_lines none b = (ok none, record b { multiple_lines_search = length b.content - 2 })
take_lines (some idx) b =
    let (out, b') = extract idx b in
    let lines = map chomp (split lf out) in
    (assert (ends_blank lines) >> return (some (but_last_two lines))) b'

unfoldable pub maybe_extract_lines : Eff ReceiveBuffer (Option (List Bytes))
unfolding search extract eq_bytes chomp split ends_blank but_last_two
maybe_extract_lines b =
    if eq_bytes (take 1 b.content) (lf ∷ [])
    then (ok (some []), (extract 1 b).1)
    else if eq_bytes (take 2 b.content) crlf
    then (ok (some []), (extract 2 b).1)
    else take_lines (search b.content b.multiple_lines_search) b

unfoldable pub is_next_line_obviously_invalid_request_line : ReceiveBuffer → Bool
is_next_line_obviously_invalid_request_line b = elim b.content [ [] ↦ false | c ∷ _ ↦ ltb c 0x21 ]
