-- ===== src/State/Waiting.antt =====
-- What h11/_state.py says of a client that waits for 100-continue.
use h11_py.Prelude.{Bool, true, false, Option, none, some, if◌then◌else◌, ◌≡◌, arith}
use h11_py.Effect.Ends.{Ends, then-Ends}
use h11_py.State.{
  Role, client, server, State, send_body, error, EventType, request, informational_response,
  response, data_, end_of_message, Switch, switch_connect, ConnectionState,
}
use h11_py.State.Machine.{
  round, with_states, see_event, process_event, process_error, process_keep_alive_disabled,
  process_client_switch_proposal, start_next_cycle, fire_state_triggered_transitions,
}
use h11_py.State.Fixpoint.{fire_keeps}

abbrev may_wait : State → Bool
may_wait send_body = true
may_wait error = true
may_wait _ = false

-- If the client waits, it is sending its body, or has failed.
abbrev pub Waits : Bool → ConnectionState → Type 0
Waits waits s = waits ≡ true → may_wait s.states.of_client ≡ true

-- `client_is_waiting_for_100_continue` after an event; `expects` is `has_expect_100_continue`.
abbrev pub waiting_after : Role → EventType → Bool → Bool → Bool
waiting_after r request expects waits = if expects then true else waits
waiting_after r informational_response expects waits = false
waiting_after r response expects waits = false
waiting_after client data_ expects waits = false
waiting_after client end_of_message expects waits = false
waiting_after _ _ expects waits = waits

round-Waits : (b : Bool) (s : ConnectionState) → Waits b s → Waits b (with_states (round s) s)
unfolding round
round-Waits b s h = ground arith

fire-Waits :
    (b : Bool) (s : ConnectionState) → Waits b s → Waits b (fire_state_triggered_transitions s)
fire-Waits b s h = fire_keeps (Waits b) (round-Waits b) s h

pub disable-Waits :
    (b : Bool) (s : ConnectionState) → Waits b s → Waits b (process_keep_alive_disabled s)
unfolding process_keep_alive_disabled
disable-Waits b s h = fire-Waits b _ h

pub propose-Waits :
    (b : Bool) (w : Switch) (s : ConnectionState)
    → Waits b s
    → Waits b (process_client_switch_proposal w s)
unfolding process_client_switch_proposal
propose-Waits b w s h = fire-Waits b _ h

pub process_error-Waits :
    (b : Bool) (r : Role) (s : ConnectionState) → Waits b s → Waits b (process_error r s)
unfolding process_error
process_error-Waits b client s h = fire-Waits b _ (ground arith)
process_error-Waits b server s h = fire-Waits b _ h

see_event-Waits :
    (b x : Bool) (r : Role) (e : EventType) (w : Option Switch) (s : ConnectionState)
    → Waits b s
    → Ends (λ _ t. Waits (waiting_after r e x b) t) (λ _ t. Waits b t) (see_event r e w s)
unfolding see_event
see_event-Waits b x client request none s h = ground arith
see_event-Waits b x server response (some switch_connect) s h = ground arith
see_event-Waits b x _ _ _ s h = ground arith

pub process_event-Waits :
    (b x : Bool) (r : Role) (e : EventType) (w : Option Switch) (s : ConnectionState)
    → Waits b s
    → Ends (λ _ t. Waits (waiting_after r e x b) t) (λ _ t. Waits b t) (process_event r e w s)
unfolding process_event
process_event-Waits b x r e w s h =
    then-Ends _ _ _ (see_event r e w s) _ (see_event-Waits b x r e w s h)
      (λ _ t k. fire-Waits (waiting_after r e x b) t k)

-- After `start_next_cycle` the client does not wait.
pub cycle-Waits :
    (b : Bool) (s : ConnectionState)
    → Waits b s
    → Ends (λ _ t. b ≡ false) (λ _ t. Waits b t) (start_next_cycle s)
unfolding start_next_cycle
cycle-Waits b s h = ground arith
