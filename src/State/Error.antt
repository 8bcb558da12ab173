-- ===== src/State/Error.antt =====
-- The ERROR state of h11/_state.py.
use h11_py.Prelude.{Option, none, some, ◌≡◌, arith}
use h11_py.State.{
  Role, client, server, error, state_of, set_state, ConnectionState, EventType, request, response,
  Switch, switch_connect,
}
use h11_py.State.Machine.{round, with_states, see_event, start_next_cycle}
use h11_py.State.Steps.{Reach, IsKept, Reach_keeps}

abbrev pub HasFailed : Role → ConnectionState → Type 0
HasFailed r s = state_of r s.states ≡ error

pub round-HasFailed :
    (q : Role) (s : ConnectionState) → HasFailed q s → HasFailed q (with_states (round s) s)
unfolding round
round-HasFailed client s h = ground arith
round-HasFailed server s h = ground arith

pub see_event-HasFailed :
    (q r : Role) (e : EventType) (w : Option Switch) (s : ConnectionState)
    → HasFailed q s
    → HasFailed q (see_event r e w s).1
unfolding see_event
see_event-HasFailed client client request none s h = ground arith
see_event-HasFailed server server response (some switch_connect) s h = ground arith
see_event-HasFailed _ _ _ _ s h = ground arith

set_error-HasFailed :
    (q r : Role) (s : ConnectionState)
    → HasFailed q s
    → HasFailed q (with_states (set_state r error s.states) s)
set_error-HasFailed client server s h = ground arith
set_error-HasFailed _ client s h = ground arith
set_error-HasFailed _ _ s h = ground arith

pub cycle-HasFailed :
    (q : Role) (s : ConnectionState) → HasFailed q s → HasFailed q (start_next_cycle s).1
unfolding start_next_cycle
cycle-HasFailed client s h = ground arith
cycle-HasFailed server s h = ground arith

HasFailed-IsKept : (q : Role) → IsKept (HasFailed q)
HasFailed-IsKept q = record {
  by_round = round-HasFailed q;
  by_event = see_event-HasFailed q;
  by_error = set_error-HasFailed q;
  by_disable = λ s h. h;
  by_proposal = λ w s h. h;
  by_cycle = cycle-HasFailed q;
}

-- A role in ERROR stays there, whatever calls follow.
pub Reach-HasFailed : {s t : ConnectionState} (r : Role) → Reach s t → HasFailed r s → HasFailed r t
Reach-HasFailed r path = Reach_keeps (HasFailed r) (HasFailed-IsKept r) path
