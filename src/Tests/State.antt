-- ===== src/Tests/State.antt =====
-- The properties of h11/_state.py at concrete states and histories.
use h11_py.Prelude.{true, false, none, some, ◌≡◌, ◌↔◌, refl, arith}
use h11_py.Util.{ok, raise, attribute_error}
use h11_py.State.{
  client, server, State, idle, send_body, done, error, request, no_proposals, ConnectionState, init,
}
use h11_py.State.Machine.{
  with_states, fire_loop, fuel, fire_state_triggered_transitions, process_event, start_next_cycle,
}
use h11_py.State.Fixpoint.{IsSettled, fire_loop_returns, fire_fixed_iff}
use h11_py.State.Steps.{event, next_cycle, here, next}
use h11_py.State.Reach.{Inv, Reach-Inv}
use h11_py.State.Cycle.{both, InLastCycle, start_next_cycle_lem, Reach-InLastCycle}
use h11_py.State.Error.{HasFailed, Reach-HasFailed}
use h11_py.State.Faults.{TupleMissing, process_event_attribute_error}

abbrev in_states : State → State → ConnectionState
in_states p q = record {
  keep_alive = true;
  pending_switch_proposals = no_proposals;
  states = record { of_client = p; of_server = q };
}

abbrev closing : ConnectionState
closing = record (in_states done send_body) { keep_alive = false }

fire_loop_returns_example : fire_loop fuel closing ≡ some (fire_state_triggered_transitions closing)
fire_loop_returns_example = fire_loop_returns closing

fire_fixed_iff_example : (fire_state_triggered_transitions closing ≡ closing) ↔ IsSettled closing
fire_fixed_iff_example = fire_fixed_iff closing

abbrev requested : ConnectionState
requested = (process_event client request none init).1

Reach-Inv_example : Inv requested
Reach-Inv_example = Reach-Inv (next here (event client request none))

finished-IsSettled : IsSettled (in_states done done)
finished-IsSettled = ground arith

start_next_cycle_lem_example :
    start_next_cycle (in_states done done) ≡ (ok tt, with_states (both idle) (in_states done done))
start_next_cycle_lem_example = start_next_cycle_lem (in_states done done) finished-IsSettled

Reach-InLastCycle_example : InLastCycle client (start_next_cycle closing).1
Reach-InLastCycle_example = Reach-InLastCycle client (next here next_cycle) (refl, λ e. cc)

Reach-HasFailed_example :
    HasFailed server (process_event client request none (in_states idle error)).1
Reach-HasFailed_example = Reach-HasFailed server (next here (event client request none)) refl

process_event_attribute_error_example :
    ((process_event client request none (in_states idle done)).0 ≡ raise attribute_error)
    ↔ TupleMissing client request none (in_states idle done)
process_event_attribute_error_example =
    process_event_attribute_error client request none (in_states idle done)
