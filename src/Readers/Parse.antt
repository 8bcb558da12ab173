-- ===== src/Readers/Parse.antt =====
-- The parsing of request lines, status lines and header lines in h11/_readers.py.
use h11_py.Prelude.{true, false, Option, none, some, List, [], ◌∷◌, ◌++◌, map, ltb, if◌then◌else◌}
use h11_py.Util.{local_error, Result, ok, raise, ◌>>=◌, raw, validate, group_of, or_empty}
use h11_py.Bytes.{Bytes, bytes}
use h11_py.Numeral.{int}
use h11_py.Regex.{match_prefix}
use h11_py.Abnf.{header_field, request_line, status_line, obs_fold_re}
use h11_py.Events.{
  Event, request, response, new_data, HeadersArg, pairs, new_request, new_response,
  new_informational_response, new_end_of_message,
}

-- What a continuation line is joined to.
abbrev pub continued : Option Bytes → Bytes → Result Bytes
continued none rest = raise (local_error "continuation line at start of headers")
continued (some last) rest = ok (last ++ (b' ' ∷ rest))

abbrev pub emit : Option Bytes → List Bytes → List Bytes
emit none lines = lines
emit (some last) lines = last ∷ lines

-- `_obsolete_line_fold`. The only exception is at the first line, before anything is yielded, so the
-- list is that of the generator.
unfoldable pub fold_lines : Option Bytes → List Bytes → Result (List Bytes)
fold_lines last [] = ok (emit last [])
fold_lines last (line ∷ lines) = elim (match_prefix obs_fold_re line) [
  | some (_, rest) ↦ (do joined ← continued last rest; fold_lines (some joined) lines)
  | none ↦ (do folded ← fold_lines (some line) lines; ok (emit last folded))
]

unfoldable pub parse_header_lines : List Bytes → Result (List (Bytes × Bytes))
parse_header_lines [] = ok []
parse_header_lines (line ∷ lines) = do
  matches ← validate header_field line "illegal header line: {!r}"
  rest ← parse_header_lines lines
  ok ((or_empty (group_of "field_name" matches), or_empty (group_of "field_value" matches)) ∷ rest)

-- `list(_decode_header_lines(lines))`
unfoldable pub decode_header_lines : List Bytes → Result (List (Bytes × Bytes))
unfolding fold_lines parse_header_lines
decode_header_lines lines = do folded ← fold_lines none lines; parse_header_lines folded

abbrev pub as_arg : List (Bytes × Bytes) → HeadersArg
as_arg hs = pairs (map (λ h. (raw h.0, raw h.1)) hs)

-- `maybe_read_from_IDLE_client` on the lines.
unfoldable pub parse_request : List Bytes → Result Event
parse_request [] = raise (local_error "no request line received")
parse_request (line ∷ lines) = do
  matches ← validate request_line line "illegal request line: {!r}"
  headers ← decode_header_lines lines
  r ←
      new_request true (raw (or_empty (group_of "method" matches))) (as_arg headers)
        (raw (or_empty (group_of "target" matches)))
        (raw (or_empty (group_of "http_version" matches)))
  ok (request r)

abbrev pub or_version : Option Bytes → Bytes
or_version none = bytes "1.1"
or_version (some v) = v

-- `maybe_read_from_SEND_RESPONSE_server` on the lines.
unfoldable pub parse_response : List Bytes → Result Event
parse_response [] = raise (local_error "no response line received")
parse_response (line ∷ lines) = do
  matches ← validate status_line line "illegal status line: {!r}"
  let version = raw (or_version (group_of "http_version" matches))
  let reason = raw (or_empty (group_of "reason" matches))
  let status_code = int 10 (or_empty (group_of "status_code" matches))
  headers ← decode_header_lines lines
  if ltb status_code 200
      then new_informational_response true (as_arg headers) (some status_code) version reason
      else (do
        r ← new_response true (as_arg headers) (some status_code) version reason
        ok (response r))

-- `EndOfMessage(headers=list(_decode_header_lines(lines)))`
unfoldable pub trailer : List Bytes → Result Event
trailer lines = do
  headers ← decode_header_lines lines
  new_end_of_message false (some (as_arg headers))

abbrev pub map_data : Option Bytes → Option Event
map_data none = none
map_data (some content) = some (new_data content false false)
