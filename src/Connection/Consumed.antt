-- ===== src/Connection/Consumed.antt =====
-- What `_extract_next_receive_event` of h11/_connection.py takes out of the buffer.
use h11_py.Prelude.{
  ℕ, ◌≤◌, not, ◌&&◌, ◌||◌, Option, none, some, length, ◌≡◌, refl, inl, inr, Bool-cases,
}
use h11_py.Effect.Ends.{Ends, then-Ends}
use h11_py.Util.{Result, ok, raise}
use h11_py.Events.{
  Event, request, informational_response, response, data_, end_of_message, connection_closed,
  new_end_of_message,
}
use h11_py.ReceiveBuffer.{ReceiveBuffer, is_drained}
use h11_py.Readers.{Reading}
use h11_py.Readers.Table.{
  Reader, idle_client, send_response_server, expect_nothing, by_content_length, by_chunks,
  until_eof, read_eof, call_reader,
}
use h11_py.Readers.Progress.{Consumes, Reads, call_reader-Consumes}
use h11_py.Connection.{Connection, their_state}
use h11_py.Connection.Receive.{
  Next, event, need_data, paused, run_reader, eof_event, after_reader, extract_next_receive_event,
}
use h11_py.State.{done, might_switch_protocol, switched_protocol, is_state}

abbrev pub size : Connection → ℕ
size c = length c.receive_buffer.content

-- Of the event that was extracted, before it is processed.
abbrev pub Extracted : ℕ → Next → ReceiveBuffer → Type 0
Extracted n (event connection_closed) b = Unit
Extracted n (event e) b = Consumes n (some e) b
Extracted n need_data b = Unit
Extracted n paused b = Unit

-- The rest of the connection is that of `c`.
abbrev pub Beside : Connection → Connection → Type 0
Beside c d = (d.cstate ≡ c.cstate) × (d.our_role ≡ c.our_role)

put_back :
    (c : Connection) (m : Result (Option Event) × Reading Reader)
    → Reads (size c) m
    → Ends
        (λ e d. Consumes (size c) e d.receive_buffer × Beside c d)
        (λ _ _. Unit)
        (m.0, record c { reader = some m.1.reader; receive_buffer = m.1.buffer })
put_back c (ok e, s) h = (h, (refl, refl))
put_back c (raise x, s) h = tt

run_reader-Ends :
    (rd : Option Reader) (c : Connection)
    → Ends
        (λ e d. Consumes (size c) e d.receive_buffer × Beside c d)
        (λ _ _. Unit)
        (run_reader rd c)
run_reader-Ends none c = tt
run_reader-Ends (some rd) c =
    put_back c (call_reader rd c.receive_buffer) (call_reader-Consumes rd c.receive_buffer)

eof_event-Ends :
    (n : ℕ) (rd : Option Reader) (c d : Connection)
    → Beside c d
    → size d ≤ n
    → Ends (λ e d. Extracted n e d.receive_buffer × Beside c d) (λ _ _. Unit) (eof_event rd d)
unfolding read_eof new_end_of_message
eof_event-Ends n none c d u h = (tt, u)
eof_event-Ends n (some idle_client) c d u h = (tt, u)
eof_event-Ends n (some send_response_server) c d u h = (tt, u)
eof_event-Ends n (some expect_nothing) c d u h = (tt, u)
eof_event-Ends n (some (by_content_length r)) c d u h = tt
eof_event-Ends n (some (by_chunks r)) c d u h = tt
eof_event-Ends n (some until_eof) c d u h = (h, u)

extracted :
    (n : ℕ) (e : Event) (b : ReceiveBuffer) → Consumes n (some e) b → Extracted n (event e) b
extracted n connection_closed b h = tt
extracted n (request r) b h = h
extracted n (informational_response r) b h = h
extracted n (response r) b h = h
extracted n (data_ d) b h = h
extracted n (end_of_message hs) b h = h

after_reader-Ends :
    (n : ℕ) (e : Option Event) (c d : Connection)
    → Consumes n e d.receive_buffer × Beside c d
    → Ends (λ e d. Extracted n e d.receive_buffer × Beside c d) (λ _ _. Unit) (after_reader e d)
after_reader-Ends n (some e) c d (h, u) = (extracted n e d.receive_buffer h, u)
after_reader-Ends n none c d (h, u) =
    elim (Bool-cases (is_drained d.receive_buffer && d.receive_buffer_closed)) [
      | inl k ↦ rw k (eof_event-Ends n d.reader c d u h)
      | inr k ↦ rw k (tt, u)
    ]

pub extract-Ends :
    (c : Connection)
    → Ends
        (λ e d. Extracted (size c) e d.receive_buffer × Beside c d)
        (λ _ _. Unit)
        (extract_next_receive_event c)
unfolding extract_next_receive_event
extract-Ends c =
    elim (Bool-cases (is_state (their_state c) done && not (is_drained c.receive_buffer))) [
      | inl h ↦ rw h (tt, (refl, refl))
      | inr h ↦
          rw h
            (elim (Bool-cases (
              is_state (their_state c) might_switch_protocol
              || is_state (their_state c) switched_protocol)) [
                | inl k ↦ rw k (tt, (refl, refl))
                | inr k ↦ rw k (
                    then-Ends (λ e d. Consumes (size c) e d.receive_buffer × Beside c d) _ _
                      (run_reader c.reader c) after_reader (run_reader-Ends c.reader c)
                      (λ e d p. after_reader-Ends (size c) e c d p))
              ])
    ]
