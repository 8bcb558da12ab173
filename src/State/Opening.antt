-- ===== src/State/Opening.antt =====
-- How a role gets into SEND_BODY (h11/_state.py).
use h11_py.Prelude.{Bool, true, false, Option, ◌≡◌, arith}
use h11_py.State.{
  Role, client, server, send_body, state_of, is_state, EventType, request, response, Switch,
  ConnectionState,
}
use h11_py.State.Machine.{
  round, with_states, see_event, process_event, process_error, process_keep_alive_disabled,
  process_client_switch_proposal, start_next_cycle, fire_state_triggered_transitions,
}
use h11_py.State.Fixpoint.{fire_keeps}
use h11_py.State.Steps.{after_fire}

-- The role `q` is not in SEND_BODY.
abbrev pub NotBody : Role → ConnectionState → Type 0
NotBody q s = is_state (state_of q s.states) send_body ≡ false

abbrev pub is_opening : EventType → Bool
is_opening request = true
is_opening response = true
is_opening _ = false

round-NotBody : (q : Role) (s : ConnectionState) → NotBody q s → NotBody q (with_states (round s) s)
unfolding round
round-NotBody client s h = ground arith
round-NotBody server s h = ground arith

pub fire-NotBody :
    (q : Role) (s : ConnectionState) → NotBody q s → NotBody q (fire_state_triggered_transitions s)
fire-NotBody q s h = fire_keeps (NotBody q) (round-NotBody q) s h

pub process_error-NotBody :
    (q r : Role) (s : ConnectionState) → NotBody q s → NotBody q (process_error r s)
unfolding process_error
process_error-NotBody client client s h = fire-NotBody client _ (ground arith)
process_error-NotBody client server s h = fire-NotBody client _ h
process_error-NotBody server client s h = fire-NotBody server _ h
process_error-NotBody server server s h = fire-NotBody server _ (ground arith)

pub disable-NotBody :
    (q : Role) (s : ConnectionState) → NotBody q s → NotBody q (process_keep_alive_disabled s)
unfolding process_keep_alive_disabled
disable-NotBody q s h = fire-NotBody q _ h

pub propose-NotBody :
    (q : Role) (w : Switch) (s : ConnectionState)
    → NotBody q s
    → NotBody q (process_client_switch_proposal w s)
unfolding process_client_switch_proposal
propose-NotBody q w s h = fire-NotBody q _ h

see_event-NotBody :
    (q r : Role) (e : EventType) (w : Option Switch) (s : ConnectionState)
    → is_opening e ≡ false
    → NotBody q s
    → NotBody q (see_event r e w s).1
unfolding see_event
see_event-NotBody client client _ _ s o h = ground arith
see_event-NotBody client server _ _ s o h = ground arith
see_event-NotBody server client _ _ s o h = ground arith
see_event-NotBody server server _ _ s o h = ground arith

-- Only a request or a response opens a body.
pub process_event-NotBody :
    (q r : Role) (e : EventType) (w : Option Switch) (s : ConnectionState)
    → is_opening e ≡ false
    → NotBody q s
    → NotBody q (process_event r e w s).1
unfolding process_event
process_event-NotBody q r e w s o h =
    after_fire (NotBody q) (fire-NotBody q) (see_event r e w s) (see_event-NotBody q r e w s o h)

pub cycle-NotBody :
    (q : Role) (s : ConnectionState) → NotBody q s → NotBody q (start_next_cycle s).1
unfolding start_next_cycle
cycle-NotBody client s h = ground arith
cycle-NotBody server s h = ground arith
