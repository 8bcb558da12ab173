-- ===== src/Connection/Extract.antt =====
-- `_extract_next_receive_event` of h11/_connection.py on a connection with a usable reader.
use h11_py.Prelude.{
  Bool, false, not, ◌&&◌, ◌||◌, Option, none, some, ◌≡◌, ◌≢◌, refl, inl, inr, arith, Bool-cases,
}
use h11_py.Effect.Ends.{Ends, then-Ends}
use h11_py.Util.{
  Exn, local_protocol_error, remote_protocol_error, attribute_error, assertion_error, value_error,
  runtime_error, type_error, Result, ok, raise,
}
use h11_py.Util.Outcome.{IsLocal}
use h11_py.Events.{Event, new_end_of_message}
use h11_py.Events.WellFormed.{IsEvent}
use h11_py.ReceiveBuffer.{is_drained}
use h11_py.ReceiveBuffer.Valid.{IsValid}
use h11_py.Readers.{Reading}
use h11_py.Readers.Table.{
  Reader, idle_client, send_response_server, expect_nothing, by_content_length, by_chunks,
  until_eof, read_eof, call_reader,
}
use h11_py.Readers.Outcome.{IsNext}
use h11_py.Readers.Called.{Calls, call_reader-Calls}
use h11_py.Connection.{Connection, their_role, their_state}
use h11_py.Connection.Receive.{
  Next, event, run_reader, eof_event, after_reader, extract_next_receive_event,
}
use h11_py.Connection.Coherent.{Coherent, has_reader, Follows-Coherent}
use h11_py.Connection.Good.{IsGood}
use h11_py.State.{
  client, send_response, error, done, might_switch_protocol, switched_protocol, is_state,
}
use h11_py.State.Faults.{IsFault}

-- The exceptions that the body of `next_event` can meet.
abbrev pub IsProtocol : Exn → Type 0
IsProtocol (local_protocol_error _ _) = Unit
IsProtocol (remote_protocol_error _ _) = Unit
IsProtocol attribute_error = Unit
IsProtocol value_error = Unit
IsProtocol _ = ⊥

IsLocal-IsProtocol : (x : Exn) → IsLocal x → IsProtocol x
IsLocal-IsProtocol (local_protocol_error _ _) h = tt
IsLocal-IsProtocol (remote_protocol_error _ _) h = tt
IsLocal-IsProtocol attribute_error h = tt
IsLocal-IsProtocol assertion_error h = h
IsLocal-IsProtocol value_error h = tt
IsLocal-IsProtocol runtime_error h = h
IsLocal-IsProtocol type_error h = h

pub IsFault-IsProtocol : (x : Exn) → IsFault x → IsProtocol x
IsFault-IsProtocol (local_protocol_error _ _) h = tt
IsFault-IsProtocol (remote_protocol_error _ _) h = tt
IsFault-IsProtocol attribute_error h = tt
IsFault-IsProtocol assertion_error h = h
IsFault-IsProtocol value_error h = tt
IsFault-IsProtocol runtime_error h = h
IsFault-IsProtocol type_error h = h

abbrev pub IsNextEvent : Next → Type 0
IsNextEvent (event e) = IsEvent e
IsNextEvent _ = Unit

-- The connection is usable, and its machine is that of `c`.
abbrev pub Usable : Connection → Connection → Type 0
Usable c d = IsGood d × (d.cstate ≡ c.cstate)

put_back :
    (c : Connection) (rd : Reader) (m : Result (Option Event) × Reading Reader)
    → Coherent (their_role c) (their_state c) (some rd)
    → Calls rd m
    → Ends
        (λ e d. IsNext e × Usable c d)
        (λ x d. IsProtocol x)
        (m.0, record c { reader = some m.1.reader; receive_buffer = m.1.buffer })
put_back c rd (ok e, s) h (n, v, f) = (
  n,
  (
    record { reader = Follows-Coherent (their_role c) (their_state c) rd s.reader h f; buffer = v },
    refl,
  ),
)
put_back c rd (raise x, s) h (l, v, f) = IsLocal-IsProtocol x l

run_reader-Ends :
    (rd : Option Reader) (c : Connection)
    → Coherent (their_role c) (their_state c) rd
    → IsValid c.receive_buffer
    → rd ≢ none
    → Ends (λ e d. IsNext e × Usable c d) (λ x d. IsProtocol x) (run_reader rd c)
run_reader-Ends none c h v n = elim (n refl) [ ]
run_reader-Ends (some rd) c h v n =
    put_back c rd (call_reader rd c.receive_buffer) h (call_reader-Calls rd c.receive_buffer v)

-- `read_eof` gives an EndOfMessage, or raises a RemoteProtocolError.
eof_event-Ends :
    (rd : Option Reader) (c d : Connection)
    → Usable c d
    → Ends (λ n d. IsNextEvent n × Usable c d) (λ x d. IsProtocol x) (eof_event rd d)
unfolding read_eof new_end_of_message
eof_event-Ends none c d u = (tt, u)
eof_event-Ends (some idle_client) c d u = (tt, u)
eof_event-Ends (some send_response_server) c d u = (tt, u)
eof_event-Ends (some expect_nothing) c d u = (tt, u)
eof_event-Ends (some (by_content_length r)) c d u = tt
eof_event-Ends (some (by_chunks r)) c d u = tt
eof_event-Ends (some until_eof) c d u = ((inl refl, inl refl), u)

after_reader-Ends :
    (e : Option Event) (c d : Connection)
    → IsNext e
    → Usable c d
    → Ends (λ n d. IsNextEvent n × Usable c d) (λ x d. IsProtocol x) (after_reader e d)
after_reader-Ends (some e) c d n u = (n, u)
after_reader-Ends none c d n u =
    elim (Bool-cases (is_drained d.receive_buffer && d.receive_buffer_closed)) [
      | inl h ↦ rw h (eof_event-Ends d.reader c d u)
      | inr h ↦ rw h (tt, u)
    ]

neither : (a b : Bool) → (a || b) ≡ false → (a ≡ false) × (b ≡ false)
neither a b h = ground arith

pub extract-Ends :
    (c : Connection)
    → IsGood c
    → is_state (their_state c) error ≡ false
    → ((their_role c ≡ client) → their_state c ≢ send_response)
    → Ends (λ n d. IsNextEvent n × Usable c d) (λ x d. IsProtocol x) (extract_next_receive_event c)
unfolding extract_next_receive_event
extract-Ends c g e l =
    elim (Bool-cases (is_state (their_state c) done && not (is_drained c.receive_buffer))) [
      | inl h ↦ rw h (tt, (g, refl))
      | inr h ↦
          rw h
            (elim (Bool-cases (
              is_state (their_state c) might_switch_protocol
              || is_state (their_state c) switched_protocol)) [
                | inl k ↦ rw k (tt, (g, refl))
                | inr k ↦ rw k (
                    let (m, s) = neither _ _ k in
                    then-Ends (λ e d. IsNext e × Usable c d) _ _ (run_reader c.reader c)
                      after_reader
                      (run_reader-Ends c.reader c g.reader g.buffer
                        (has_reader (their_role c) (their_state c) c.reader g.reader e m s l))
                      (λ e d p. after_reader-Ends e c d p.0 p.1))
              ])
    ]
