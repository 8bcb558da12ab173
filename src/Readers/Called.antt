-- ===== src/Readers/Called.antt =====
-- A call of any reader of h11/_readers.py.
use h11_py.Prelude.{Bool, true, false, Option, ◌≡◌, refl, inl, inr, Option-cases, sym, ◌∙◌}
use h11_py.Util.{Result, ok, raise}
use h11_py.Util.Outcome.{IsLocal}
use h11_py.Effect.Ends.{Ends}
use h11_py.Events.{Event}
use h11_py.ReceiveBuffer.{ReceiveBuffer, maybe_extract_at_most}
use h11_py.ReceiveBuffer.Valid.{IsValid, maybe_extract_at_most-IsValid}
use h11_py.Readers.{Reading, read_content_length, read_chunked, read_http10}
use h11_py.Readers.Parse.{parse_request, parse_response}
use h11_py.Readers.Lines.{parse_request-GivesEvent, parse_response-GivesEvent}
use h11_py.Readers.Table.{
  Reader, idle_client, send_response_server, expect_nothing, by_content_length, by_chunks,
  until_eof, read_lines, read_nothing, rebuilt, stateless, infallible, call_reader,
}
use h11_py.Readers.Outcome.{
  IsNext, Extracts, Reads, read_lines-Extracts, read_nothing-Extracts, read_content_length-Reads,
}
use h11_py.Readers.ChunkOutcome.{read_chunked-Reads}

read_http10-Extracts : (b : ReceiveBuffer) → IsValid b → Extracts (infallible (read_http10 b))
unfolding read_http10
read_http10-Extracts b v = elim (Option-cases (maybe_extract_at_most 999999999 b).0) [
  | inl e ↦ rw e (tt, maybe_extract_at_most-IsValid 999999999 b v)
  | inr (x, e) ↦ rw e (tt, maybe_extract_at_most-IsValid 999999999 b v)
]

-- The reader of a body is still one after a call, any other reader is what it was.
abbrev pub is_body : Reader → Bool
is_body (by_content_length _) = true
is_body (by_chunks _) = true
is_body until_eof = true
is_body _ = false

abbrev pub Follows : Reader → Reader → Type 0
Follows rd rd' = (is_body rd' ≡ is_body rd) × ((is_body rd ≡ false) → rd' ≡ rd)

-- Of a call of the reader `rd`.
abbrev pub Calls : Reader → Result (Option Event) × Reading Reader → Type 0
Calls rd m =
    Ends (λ e s. IsNext e × IsValid s.buffer × Follows rd s.reader)
      (λ e s. IsLocal e × IsValid s.buffer × Follows rd s.reader) m

stateless-Calls :
    (rd : Reader) (m : Result (Option Event) × ReceiveBuffer)
    → Extracts m
    → Calls rd (stateless rd m)
stateless-Calls rd (ok e, b) (p, v) = (p, v, (refl, λ h. refl))
stateless-Calls rd (raise e, b) (p, v) = (p, v, (refl, λ h. refl))

absurd_body : {A : Type 0} {b : Bool} → b ≡ true → b ≡ false → A
absurd_body h k = cc

rebuilt-Calls :
    {R : Type 0} (make : R → Reader) (r : R) (m : Result (Option Event) × Reading R)
    → ((x : R) → is_body (make x) ≡ true)
    → Reads m
    → Calls (make r) (rebuilt make m)
rebuilt-Calls make r (ok e, s) b (p, v) = (p, v, (b s.reader ∙ sym (b r), λ h. absurd_body (b r) h))
rebuilt-Calls make r (raise e, s) b (p, v) =
    (p, v, (b s.reader ∙ sym (b r), λ h. absurd_body (b r) h))

-- A call of a reader on a valid buffer returns nothing or a well-formed event, or raises a
-- LocalProtocolError and nothing else, so none of the assertions fails. It leaves a valid buffer; the
-- reader of a body is still one, and any other reader is unchanged.
pub call_reader-Calls : (rd : Reader) (b : ReceiveBuffer) → IsValid b → Calls rd (call_reader rd b)
unfolding call_reader
call_reader-Calls idle_client b v =
    stateless-Calls idle_client (read_lines parse_request b)
      (read_lines-Extracts parse_request b parse_request-GivesEvent v)
call_reader-Calls send_response_server b v =
    stateless-Calls send_response_server (read_lines parse_response b)
      (read_lines-Extracts parse_response b parse_response-GivesEvent v)
call_reader-Calls expect_nothing b v =
    stateless-Calls expect_nothing (read_nothing b) (read_nothing-Extracts b v)
call_reader-Calls (by_content_length c) b v =
    rebuilt-Calls by_content_length c (read_content_length (record { reader = c; buffer = b }))
      (λ x. refl) (read_content_length-Reads (record { reader = c; buffer = b }) v)
call_reader-Calls (by_chunks c) b v =
    rebuilt-Calls by_chunks c (read_chunked (record { reader = c; buffer = b })) (λ x. refl)
      (read_chunked-Reads (record { reader = c; buffer = b }) v)
call_reader-Calls until_eof b v =
    stateless-Calls until_eof (infallible (read_http10 b)) (read_http10-Extracts b v)
