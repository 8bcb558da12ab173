-- ===== src/Connection/Untouched.antt =====
-- The parts of `next_event` and `send` of h11/_connection.py that leave the state machine alone.
use h11_py.Prelude.{not, ◌&&◌, ◌||◌, Option, none, some, Option-cases, inl, inr, Bool-cases}
use h11_py.Effect.{lift, then_do, then_do_keeps}
use h11_py.Events.{Event, response, connection_closed}
use h11_py.Readers.Table.{read_eof, Reader}
use h11_py.ReceiveBuffer.{is_drained}
use h11_py.Writers.{Writer}
use h11_py.Connection.{Connection, their_state, our_state}
use h11_py.Connection.Receive.{run_reader, eof_event, after_reader, extract_next_receive_event}
use h11_py.Connection.Cleanup.{clean_up_response_headers}
use h11_py.Connection.Send.{cleaned, write, write_event}
use h11_py.Connection.Updates.{SameMachine}
use h11_py.State.{State, is_state, done, might_switch_protocol, switched_protocol}

module _ (b : Connection) where
  run_reader-SameMachine :
      (r : Option Reader) (c : Connection) → SameMachine b c → SameMachine b (run_reader r c).1
  run_reader-SameMachine none c p = p
  run_reader-SameMachine (some r) c p = p

  eof_event-SameMachine :
      (r : Option Reader) (c : Connection) → SameMachine b c → SameMachine b (eof_event r c).1
  eof_event-SameMachine none c p = p
  eof_event-SameMachine (some r) c p = elim (Option-cases (read_eof r)) [
    | inl k ↦ rw (k, eof_event) p
    | inr (e, k) ↦ rw (k, eof_event) (then_do_keeps (SameMachine b) (lift e c) _ p (λ _ d q. q))
  ]

  after_reader-SameMachine :
      (e : Option Event) (c : Connection) → SameMachine b c → SameMachine b (after_reader e c).1
  after_reader-SameMachine (some e) c p = p
  after_reader-SameMachine none c p =
      elim (Bool-cases (is_drained c.receive_buffer && c.receive_buffer_closed)) [
        | inl k ↦ rw k (eof_event-SameMachine c.reader c p)
        | inr k ↦ rw k p
      ]

  read-SameMachine :
      (c : Connection)
      → SameMachine b c
      → SameMachine b (then_do (run_reader c.reader c) after_reader).1
  read-SameMachine c p =
      then_do_keeps (SameMachine b) (run_reader c.reader c) after_reader
        (run_reader-SameMachine c.reader c p) after_reader-SameMachine

  pub extract-SameMachine :
      (c : Connection) → SameMachine b c → SameMachine b (extract_next_receive_event c).1
  unfolding extract_next_receive_event
  extract-SameMachine c p =
      elim (Bool-cases (is_state (their_state c) done && not (is_drained c.receive_buffer))) [
        | inl k ↦ rw k p
        | inr k ↦
            rw k
              (elim (Bool-cases (
                is_state (their_state c) might_switch_protocol
                || is_state (their_state c) switched_protocol)) [
                  | inl h ↦ rw h p
                  | inr h ↦ rw h (read-SameMachine c p)
                ])
      ]

  pub cleaned-SameMachine :
      (e : Event) (c : Connection) → SameMachine b c → SameMachine b (cleaned e c).1
  cleaned-SameMachine (response r) c p =
      then_do_keeps (SameMachine b)
        (lift
          (clean_up_response_headers c.request_method c.their_http_version c.cstate.keep_alive r) c)
        _ p (λ _ d q. q)
  cleaned-SameMachine e c p = p

  write-SameMachine :
      (w : Option Writer) (old : State) (e : Event) (c : Connection)
      → SameMachine b c
      → SameMachine b (write w old e c).1
  write-SameMachine none old e c p = p
  write-SameMachine (some w) old e c p = elim (Bool-cases (is_state (our_state c) old)) [
    | inl k ↦ rw k p
    | inr k ↦ rw k p
  ]

  pub write_event-SameMachine :
      (w : Option Writer) (old : State) (e : Event) (c : Connection)
      → SameMachine b c
      → SameMachine b (write_event w old e c).1
  write_event-SameMachine w old connection_closed c p = p
  write_event-SameMachine w old e c p =
      then_do_keeps (SameMachine b) (write w old e c) _ (write-SameMachine w old e c p) (λ _ d q. q)
