-- ===== src/Readers/Outcome.antt =====
-- What the readers of lines and of a counted body (h11/_readers.py) return or raise, and the buffer that
-- they leave.
use h11_py.Prelude.{◌==◌, Option, none, some, List, ◌≡◌, refl, inl, inr, Bool-cases}
use h11_py.Util.{Exn, Result, ok, raise}
use h11_py.Util.Outcome.{IsLocal}
use h11_py.Effect.{then_do, return}
use h11_py.Effect.Ends.{Ends, then-Ends}
use h11_py.Bytes.{Bytes}
use h11_py.Events.{Event, new_end_of_message}
use h11_py.Events.WellFormed.{IsEvent}
use h11_py.ReceiveBuffer.{
  ReceiveBuffer, maybe_extract_at_most, maybe_extract_lines,
  is_next_line_obviously_invalid_request_line, is_drained,
}
use h11_py.ReceiveBuffer.Valid.{IsValid, maybe_extract_at_most-IsValid, maybe_extract_lines_lem}
use h11_py.Readers.{Reading, ContentLengthReader, give_body, read_content_length}
use h11_py.Readers.Lines.{GivesEvent}
use h11_py.Readers.Table.{parse_lines, read_lines, read_nothing}

-- Nothing yet, or a well-formed event.
abbrev pub IsNext : Option Event → Type 0
IsNext none = Unit
IsNext (some e) = IsEvent e

-- Of code on a buffer.
abbrev pub Extracts : Result (Option Event) × ReceiveBuffer → Type 0
Extracts m = Ends (λ e b. IsNext e × IsValid b) (λ e b. IsLocal e × IsValid b) m

-- Of code on a reader's object and a buffer.
abbrev pub Reads : {R : Type 0} → Result (Option Event) × Reading R → Type 0
Reads m = Ends (λ e s. IsNext e × IsValid s.buffer) (λ e s. IsLocal e × IsValid s.buffer) m

lines-Ends :
    (m : Result (Option (List Bytes)) × ReceiveBuffer) {x : Option (List Bytes)}
    (E : Exn → ReceiveBuffer → Type 0)
    → m.0 ≡ ok x
    → IsValid m.1
    → Ends (λ ls b. IsValid b) E m
lines-Ends (ok ls, b) E h v = v
lines-Ends (raise e, b) E h v = cc

pub extract_lines-Ends :
    (b : ReceiveBuffer) (E : Exn → ReceiveBuffer → Type 0)
    → IsValid b
    → Ends (λ ls b. IsValid b) E (maybe_extract_lines b)
extract_lines-Ends b E v =
    let (out, _, v') = maybe_extract_lines_lem b v in lines-Ends (maybe_extract_lines b) E out v'

parsed-Ends :
    (m : Result Event) (b : ReceiveBuffer)
    → GivesEvent m
    → IsValid b
    → Extracts (then_do (m, b) (λ e. return (some e)))
parsed-Ends (ok e) b g v = (g, v)
parsed-Ends (raise x) b g v = (g, v)

parse_lines-Extracts :
    (parse : List Bytes → Result Event) (ls : Option (List Bytes)) (b : ReceiveBuffer)
    → ((lines : List Bytes) → GivesEvent (parse lines))
    → IsValid b
    → Extracts (parse_lines parse ls b)
parse_lines-Extracts parse (some lines) b p v = parsed-Ends (parse lines) b (p lines) v
parse_lines-Extracts parse none b p v =
    elim (Bool-cases (is_next_line_obviously_invalid_request_line b)) [
      | inl e ↦ rw e (tt, v)
      | inr e ↦ rw e (tt, v)
    ]

pub read_lines-Extracts :
    (parse : List Bytes → Result Event) (b : ReceiveBuffer)
    → ((lines : List Bytes) → GivesEvent (parse lines))
    → IsValid b
    → Extracts (read_lines parse b)
unfolding read_lines
read_lines-Extracts parse b p v =
    then-Ends _ _ _ (maybe_extract_lines b) (parse_lines parse)
      (extract_lines-Ends b (λ e b. IsLocal e × IsValid b) v)
      (λ ls b' v'. parse_lines-Extracts parse ls b' p v')

pub read_nothing-Extracts : (b : ReceiveBuffer) → IsValid b → Extracts (read_nothing b)
unfolding read_nothing
read_nothing-Extracts b v = elim (Bool-cases (is_drained b)) [
  | inl e ↦ rw e (tt, v)
  | inr e ↦ rw e (tt, v)
]

give_body-Reads :
    (o : Option Bytes) (s : Reading ContentLengthReader) → IsValid s.buffer → Reads (give_body o s)
give_body-Reads none s v = (tt, v)
give_body-Reads (some x) s v = (tt, v)

pub read_content_length-Reads :
    (s : Reading ContentLengthReader) → IsValid s.buffer → Reads (read_content_length s)
unfolding read_content_length new_end_of_message
read_content_length-Reads s v = elim (Bool-cases (s.reader.remaining == 0)) [
  | inl e ↦ rw e ((inl refl, inl refl), v)
  | inr e ↦ rw e (
      give_body-Reads (maybe_extract_at_most s.reader.remaining s.buffer).0
        (record s { buffer = (maybe_extract_at_most s.reader.remaining s.buffer).1 })
        (maybe_extract_at_most-IsValid s.reader.remaining s.buffer v))
]
