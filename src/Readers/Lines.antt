-- ===== src/Readers/Lines.antt =====
-- What the parsers of h11/_readers.py make of lines: well-formed events, or a LocalProtocolError.
use h11_py.Prelude.{
  ℕ, true, false, ltb, Option, none, some, List, [], ◌∷◌, sym, inl, inr, Bool-cases, Option-cases,
}
use mathlib.Core.Path.{subst}
use h11_py.Util.{Result, ok, ◌>>=◌, raw, group_of, or_empty}
use h11_py.Util.Outcome.{
  IsLocal, Outcome, OnlyLocal, then-OnlyLocal, validate-OnlyLocal, bind-Outcome, join-Outcome,
}
use h11_py.Bytes.{Bytes}
use h11_py.Regex.{match_prefix}
use h11_py.Numeral.{int}
use h11_py.Abnf.{header_field, request_line, status_line, obs_fold_re}
use h11_py.Events.{
  Event, request, response, new_request, new_response, new_informational_response,
  new_end_of_message,
}
use h11_py.Events.WellFormed.{
  IsEvent, IsRequest, IsResponse, new_request-IsRequest, new_response-IsResponse,
  new_informational_response-IsEvent, new_end_of_message-IsEvent,
}
use h11_py.Events.Outcome.{
  new_request-OnlyLocal, new_response-OnlyLocal, new_informational_response-OnlyLocal,
  new_end_of_message-OnlyLocal,
}
use h11_py.Readers.Parse.{
  continued, fold_lines, parse_header_lines, decode_header_lines, as_arg, parse_request, or_version,
  parse_response, trailer,
}

continued-OnlyLocal : (last : Option Bytes) (rest : Bytes) → OnlyLocal (continued last rest)
continued-OnlyLocal none rest = tt
continued-OnlyLocal (some last) rest = tt

fold_lines-OnlyLocal :
    (last : Option Bytes) (lines : List Bytes) → OnlyLocal (fold_lines last lines)
unfolding fold_lines
fold_lines-OnlyLocal last [] = tt
fold_lines-OnlyLocal last (line ∷ lines) = elim (Option-cases (match_prefix obs_fold_re line)) [
  | inl e ↦ rw (e, fold_lines) (then-OnlyLocal _ _ (fold_lines-OnlyLocal (some line) lines) λ f. tt)
  | inr ((g, rest), e) ↦
      rw (e, fold_lines)
        (then-OnlyLocal _ _ (continued-OnlyLocal last rest)
          λ joined. fold_lines-OnlyLocal (some joined) lines)
]

parse_header_lines-OnlyLocal : (lines : List Bytes) → OnlyLocal (parse_header_lines lines)
unfolding parse_header_lines
parse_header_lines-OnlyLocal [] = tt
parse_header_lines-OnlyLocal (line ∷ lines) =
    then-OnlyLocal _ _ (validate-OnlyLocal header_field line "illegal header line: {!r}")
      λ g. then-OnlyLocal _ _ (parse_header_lines-OnlyLocal lines) λ hs. tt

decode-OnlyLocal : (lines : List Bytes) → OnlyLocal (decode_header_lines lines)
unfolding decode_header_lines
decode-OnlyLocal lines =
    then-OnlyLocal _ _ (fold_lines-OnlyLocal none lines)
      λ folded. parse_header_lines-OnlyLocal folded

-- A well-formed event, or a LocalProtocolError.
abbrev pub GivesEvent : Result Event → Type 0
GivesEvent m = Outcome IsEvent IsLocal m

request-GivesEvent :
    (m t v : Bytes) (hs : List (Bytes × Bytes))
    → GivesEvent (new_request true (raw m) (as_arg hs) (raw t) (raw v) >>= λ r. ok (request r))
request-GivesEvent m t v hs =
    bind-Outcome IsRequest IsEvent IsLocal (new_request true (raw m) (as_arg hs) (raw t) (raw v))
      (λ r. ok (request r))
      (join-Outcome IsRequest IsLocal (new_request true (raw m) (as_arg hs) (raw t) (raw v))
        (λ r e. new_request-IsRequest true (raw m) (as_arg hs) (raw t) (raw v) tt e)
        (new_request-OnlyLocal true hs m t v))
      (λ r p. p)

-- `maybe_read_from_IDLE_client` makes of lines a well-formed request or raises a LocalProtocolError.
pub parse_request-GivesEvent : (lines : List Bytes) → GivesEvent (parse_request lines)
unfolding parse_request
parse_request-GivesEvent [] = tt
parse_request-GivesEvent (line ∷ lines) =
    bind-Outcome (λ g. Unit) IsEvent IsLocal _ _
      (validate-OnlyLocal request_line line "illegal request line: {!r}")
      λ g u.
        bind-Outcome (λ hs. Unit) IsEvent IsLocal _ _ (decode-OnlyLocal lines)
          λ hs u.
            request-GivesEvent (or_empty (group_of "method" g)) (or_empty (group_of "target" g))
              (or_empty (group_of "http_version" g)) hs

informational-GivesEvent :
    (hs : List (Bytes × Bytes)) (n : ℕ) (v r : Bytes)
    → GivesEvent (new_informational_response true (as_arg hs) (some n) (raw v) (raw r))
informational-GivesEvent hs n v r =
    join-Outcome IsEvent IsLocal
      (new_informational_response true (as_arg hs) (some n) (raw v) (raw r))
      (λ e q.
        let (b, c, p) =
          new_informational_response-IsEvent true (as_arg hs) (some n) (raw v) (raw r) tt q in
        subst IsEvent (sym c) p)
      (new_informational_response-OnlyLocal true hs n v r)

response-GivesEvent :
    (hs : List (Bytes × Bytes)) (n : ℕ) (v r : Bytes)
    → GivesEvent (new_response true (as_arg hs) (some n) (raw v) (raw r) >>= λ b. ok (response b))
response-GivesEvent hs n v r =
    bind-Outcome (IsResponse 200 1000) IsEvent IsLocal
      (new_response true (as_arg hs) (some n) (raw v) (raw r)) (λ b. ok (response b))
      (join-Outcome (IsResponse 200 1000) IsLocal
        (new_response true (as_arg hs) (some n) (raw v) (raw r))
        (λ b q. new_response-IsResponse true (as_arg hs) (some n) (raw v) (raw r) tt q)
        (new_response-OnlyLocal true hs n v r))
      (λ b p. p)

-- `maybe_read_from_SEND_RESPONSE_server` makes of lines a well-formed response, informational for a
-- status code below 200, or raises a LocalProtocolError.
pub parse_response-GivesEvent : (lines : List Bytes) → GivesEvent (parse_response lines)
unfolding parse_response
parse_response-GivesEvent [] = tt
parse_response-GivesEvent (line ∷ lines) =
    bind-Outcome (λ g. Unit) IsEvent IsLocal _ _
      (validate-OnlyLocal status_line line "illegal status line: {!r}")
      λ g u.
        bind-Outcome (λ hs. Unit) IsEvent IsLocal _ _ (decode-OnlyLocal lines)
          λ hs u.
            let n = int 10 (or_empty (group_of "status_code" g)) in
            let v = or_version (group_of "http_version" g) in
            let r = or_empty (group_of "reason" g) in
            elim (Bool-cases (ltb n 200)) [
              | inl e ↦ rw e (informational-GivesEvent hs n v r)
              | inr e ↦ rw e (response-GivesEvent hs n v r)
            ]

-- The lines of a trailer make a well-formed EndOfMessage, or raise a LocalProtocolError.
pub trailer-GivesEvent : (lines : List Bytes) → GivesEvent (trailer lines)
unfolding trailer
trailer-GivesEvent lines =
    bind-Outcome (λ hs. Unit) IsEvent IsLocal _ _ (decode-OnlyLocal lines)
      λ hs u.
        join-Outcome IsEvent IsLocal (new_end_of_message false (some (as_arg hs)))
          (λ e q.
            let (b, c, p) = new_end_of_message-IsEvent false (some (as_arg hs)) tt q in
            subst IsEvent (sym c) p)
          (new_end_of_message-OnlyLocal false hs)
