-- ===== src/State/Cycle.antt =====
-- `start_next_cycle`, and what stops a connection from being reused (h11/_state.py).
use h11_py.Prelude.{false, Option, none, some, ◌≡◌, ◌≢◌, refl, ◌&&◌, arith, if◌then◌else◌}
use h11_py.Util.{ok, raise, local_error}
use h11_py.State.{
  Role, client, server, State, idle, done, error, States, state_of, set_state, ConnectionState,
  is_state, EventType, request, response, Switch, switch_connect,
}
use h11_py.State.Machine.{round, with_states, see_event, start_next_cycle}
use h11_py.State.Fixpoint.{IsSettled}
use h11_py.State.Steps.{Reach, IsKept, Reach_keeps}

abbrev pub both : State → States
both q = record { of_client = q; of_server = q }

-- In a settled state the method resets both machines to IDLE exactly when both are DONE, and
-- otherwise raises a LocalProtocolError and changes nothing; its two assertions never fail.
pub start_next_cycle_lem :
    (s : ConnectionState)
    → IsSettled s
    → start_next_cycle s ≡ (
        if is_state s.states.of_client done && is_state s.states.of_server done
        then (ok tt, with_states (both idle) s)
        else (raise (local_error "not in a reusable state. self.states={self.states}"), s))
unfolding start_next_cycle
start_next_cycle_lem s h = ground arith

-- The connection is not to be kept alive, and role `r` has begun its last cycle.
abbrev pub InLastCycle : Role → ConnectionState → Type 0
InLastCycle r s = (s.keep_alive ≡ false) × (state_of r s.states ≢ idle)

round-InLastCycle :
    (r : Role) (s : ConnectionState) → InLastCycle r s → InLastCycle r (with_states (round s) s)
unfolding round
round-InLastCycle client s h = ground arith
round-InLastCycle server s h = ground arith

see_event-InLastCycle :
    (q r : Role) (e : EventType) (w : Option Switch) (s : ConnectionState)
    → InLastCycle q s
    → InLastCycle q (see_event r e w s).1
unfolding see_event
see_event-InLastCycle client client request none s h = ground arith
see_event-InLastCycle server server response (some switch_connect) s h = ground arith
see_event-InLastCycle _ _ _ _ s h = ground arith

set_error-InLastCycle :
    (q r : Role) (s : ConnectionState)
    → InLastCycle q s
    → InLastCycle q (with_states (set_state r error s.states) s)
set_error-InLastCycle client server s h = ground arith
set_error-InLastCycle _ client s h = ground arith
set_error-InLastCycle _ _ s h = ground arith

start_next_cycle-InLastCycle :
    (q : Role) (s : ConnectionState) → InLastCycle q s → InLastCycle q (start_next_cycle s).1
unfolding start_next_cycle
start_next_cycle-InLastCycle client s h = ground arith
start_next_cycle-InLastCycle server s h = ground arith

InLastCycle-IsKept : (q : Role) → IsKept (InLastCycle q)
InLastCycle-IsKept q = record {
  by_round = round-InLastCycle q;
  by_event = see_event-InLastCycle q;
  by_error = set_error-InLastCycle q;
  by_disable = λ s h. (refl, h.1);
  by_proposal = λ w s h. h;
  by_cycle = start_next_cycle-InLastCycle q;
}

-- Once the connection is not to be kept alive, a role that has left IDLE is never IDLE again, by
-- any calls at all, and keep-alive is never restored.
pub Reach-InLastCycle :
    {s t : ConnectionState} (r : Role) → Reach s t → InLastCycle r s → InLastCycle r t
Reach-InLastCycle r path = Reach_keeps (InLastCycle r) (InLastCycle-IsKept r) path
