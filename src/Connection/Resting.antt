-- ===== src/Connection/Resting.antt =====
-- The public methods of h11/_connection.py leave a connection at rest, whether they return or raise.
use h11_py.Prelude.{ℕ, false, not, none, ◌≡◌, refl, inl, inr, Bool-cases, ltb, length}
use h11_py.Effect.{then_do, then_do_keeps, assert}
use h11_py.Effect.Ends.{Ends, then-Ends}
use h11_py.Util.{Result, ok, raise}
use h11_py.Util.Outcome.{IsLocal}
use h11_py.Bytes.{Bytes, is_empty}
use h11_py.Events.{Event}
use h11_py.Connection.{
  Connection, new, respond_to_state_changes, guarded, start_next_cycle, their_role, their_state,
  our_state, receive_data,
}
use h11_py.Connection.Process.{process_event}
use h11_py.Connection.Receive.{
  Next, event, need_data, paused, handle_next, as_remote, try_next_event,
  extract_next_receive_event, next_event,
}
use h11_py.Connection.Send.{
  cleaned, write_event, try_send, send, send_with_data_passthrough, send_failed,
}
use h11_py.Connection.Updates.{SameMachine}
use h11_py.Connection.Untouched.{extract-SameMachine, cleaned-SameMachine, write_event-SameMachine}
use h11_py.Connection.Rest.{
  AtRest, Rests, rests, respond-AtRest, process_event-Rests, process_error-AtRest, caught-AtRest,
}
use h11_py.Connection.Calls.{
  Call, Calls, receiving, reading, sending, passing, failing, cycling, unused, then_call,
}
use h11_py.State.{Role, ConnectionState, is_state, error}
use h11_py.State.Machine
use h11_py.State.Fixpoint.{IsSettled}
use h11_py.State.Settled.{init-IsSettled, cycle-IsSettled}
use h11_py.State.Waiting.{Waits, cycle-Waits}

same-AtRest : (c d : Connection) → SameMachine c d → AtRest c → AtRest d
same-AtRest c d (e, r, w) k = rw (e, w) k

extract-AtRest : (c : Connection) → AtRest c → AtRest (extract_next_receive_event c).1
extract-AtRest c k =
    same-AtRest c (extract_next_receive_event c).1 (extract-SameMachine c c (refl, refl, refl)) k

cleaned-AtRest : (e : Event) (c : Connection) → AtRest c → AtRest (cleaned e c).1
cleaned-AtRest e c k =
    same-AtRest c (cleaned e c).1 (cleaned-SameMachine c e c (refl, refl, refl)) k

check-AtRest : (c : Connection) → AtRest c → AtRest (handle_next need_data c).1
check-AtRest c k =
    elim (Bool-cases (ltb c.max_incomplete_event_size (length c.receive_buffer.content))) [
      | inl h ↦ rw h k
      | inr h ↦
          rw h (elim (Bool-cases c.receive_buffer_closed) [ inl i ↦ simp i k | inr i ↦ simp i k ])
    ]

handle_next-Rests : (n : Next) (c : Connection) → AtRest c → Rests (handle_next n c)
handle_next-Rests (event e) c k = process_event-Rests (their_role c) e c k
handle_next-Rests need_data c k = rests (handle_next need_data c) (check-AtRest c k)
handle_next-Rests paused c k = k

try_next_event-Rests : (c : Connection) → AtRest c → Rests (try_next_event c)
unfolding try_next_event
try_next_event-Rests c k =
    then-Ends (λ _ d. AtRest d) _ _ (extract_next_receive_event c) _
      (rests (extract_next_receive_event c) (extract-AtRest c k))
      λ n d k.
        then-Ends (λ _ d. AtRest d) _ _ (handle_next n d) _ (handle_next-Rests n d k) (λ _ d k. k)

as_remote-AtRest : (m : Result Next × Connection) → AtRest m.1 → AtRest (as_remote m).1
as_remote-AtRest (ok n, c) k = k
as_remote-AtRest (raise x, c) k = k

next_event-AtRest : (c : Connection) → AtRest c → AtRest (next_event c).1
unfolding next_event
next_event-AtRest c k = elim (Bool-cases (is_state (their_state c) error)) [
  | inl h ↦ rw h k
  | inr h ↦ rw h (
      as_remote-AtRest (guarded (their_role c) try_next_event c)
        (caught-AtRest (their_role c) (try_next_event c) (try_next_event-Rests c k)))
]

try_send-Rests : (e : Event) (c : Connection) → AtRest c → Rests (try_send e c)
unfolding try_send
try_send-Rests e c k =
    then-Ends (λ _ d. AtRest d) _ _ (cleaned e c) _ (rests (cleaned e c) (cleaned-AtRest e c k))
      λ e' d k.
        then-Ends (λ _ d. AtRest d) _ _ (process_event c.our_role e' d) _
          (process_event-Rests c.our_role e' d k)
          λ _ d k. rests (write_event c.writer (our_state c) e' d) (
            same-AtRest d (write_event c.writer (our_state c) e' d).1
              (write_event-SameMachine d c.writer (our_state c) e' d (refl, refl, refl)) k)

pass-AtRest : (e : Event) (c : Connection) → AtRest c → AtRest (send_with_data_passthrough e c).1
unfolding send_with_data_passthrough
pass-AtRest e c k = elim (Bool-cases (is_state (our_state c) error)) [
  | inl h ↦ rw h k
  | inr h ↦ rw h (caught-AtRest c.our_role (try_send e c) (try_send-Rests e c k))
]

-- After the machine's `start_next_cycle`, the assertion on 100-continue holds.
cycled-AtRest :
    (c : Connection) (m : Result (Unit {0}) × ConnectionState)
    → IsSettled c.cstate
    → Ends (λ _ t. IsSettled t) (λ x t. IsLocal x × (t ≡ c.cstate)) m
    → Ends
        (λ _ t. c.client_is_waiting_for_100_continue ≡ false)
        (λ _ t. Waits c.client_is_waiting_for_100_continue t)
        m
    → AtRest
        (then_do
          (m.0, record c { cstate = m.1 })
          (λ _ d.
            then_do
              (assert
                (not c.client_is_waiting_for_100_continue)
                (record d { request_method = none }))
              (λ _. respond_to_state_changes c.cstate.states none))).1
cycled-AtRest c (ok u, s) i p w = rw w (
    respond-AtRest c.cstate.states none
      (record c { cstate = s; request_method = none; client_is_waiting_for_100_continue = false })
      (p, λ h. cc))
cycled-AtRest c (raise x, s) i p w = (rw p.1 i, w)

cycle-AtRest : (c : Connection) → AtRest c → AtRest (start_next_cycle c).1
unfolding start_next_cycle
cycle-AtRest c (s, w) =
    cycled-AtRest c (Machine.start_next_cycle c.cstate) s (cycle-IsSettled c.cstate s)
      (cycle-Waits c.client_is_waiting_for_100_continue c.cstate w)

receive_data-AtRest :
    (content : Bytes) (c : Connection) → AtRest c → AtRest (receive_data content c).1
unfolding receive_data
receive_data-AtRest content c k = elim (Bool-cases (is_empty content)) [
  | inl h ↦ rw h k
  | inr h ↦ rw h (elim (Bool-cases c.receive_buffer_closed) [ inl i ↦ simp i k | inr i ↦ simp i k ])
]

pub Call-AtRest : {c d : Connection} → Call c d → AtRest c → AtRest d
unfolding send send_failed
Call-AtRest {c} (receiving content) k = receive_data-AtRest content c k
Call-AtRest {c} reading k = next_event-AtRest c k
Call-AtRest {c} (sending e) k =
    then_do_keeps AtRest (send_with_data_passthrough e c) _ (pass-AtRest e c k) (λ _ d q. q)
Call-AtRest {c} (passing e) k = pass-AtRest e c k
Call-AtRest {c} failing k = process_error-AtRest c.our_role c k.1
Call-AtRest {c} cycling k = cycle-AtRest c k

Calls_keep-AtRest : {c d : Connection} → Calls c d → AtRest c → AtRest d
Calls_keep-AtRest unused k = k
Calls_keep-AtRest (then_call path call) k = Call-AtRest call (Calls_keep-AtRest path k)

-- After any public calls on a new connection, whether they returned or raised, no state-triggered
-- transition is enabled, and a client that waits for 100-continue is in SEND_BODY or ERROR.
pub Calls-AtRest : {d : Connection} (r : Role) (limit : ℕ) → Calls (new r limit) d → AtRest d
Calls-AtRest r limit path = Calls_keep-AtRest path (init-IsSettled, λ h. cc)
