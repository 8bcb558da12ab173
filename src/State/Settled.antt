-- ===== src/State/Settled.antt =====
-- Where the methods of h11/_state.py leave no state-triggered transition enabled.
use h11_py.Prelude.{Option, ◌≡◌, arith}
use h11_py.Effect.Ends.{Ends, then-Ends, anyhow}
use h11_py.Util.{Result}
use h11_py.Util.Outcome.{IsLocal}
use h11_py.State.{Role, EventType, Switch, ConnectionState, init}
use h11_py.State.Machine.{
  see_event, process_event, process_error, process_keep_alive_disabled,
  process_client_switch_proposal, start_next_cycle, fire_state_triggered_transitions,
}
use h11_py.State.Fixpoint.{IsSettled, fire-IsSettled}

-- A call that settles the machine, if it returns.
abbrev pub Settles : Result (Unit {0}) × ConnectionState → Type 0
Settles m = Ends (λ _ t. IsSettled t) (λ _ _. Unit) m

pub process_event-Settles :
    (r : Role) (e : EventType) (w : Option Switch) (s : ConnectionState)
    → Settles (process_event r e w s)
unfolding process_event
process_event-Settles r e w s =
    then-Ends (λ _ _. Unit) _ _ (see_event r e w s) _ (anyhow (see_event r e w s))
      (λ _ t k. fire-IsSettled t)

pub process_error-IsSettled : (r : Role) (s : ConnectionState) → IsSettled (process_error r s)
unfolding process_error
process_error-IsSettled r s = fire-IsSettled _

pub disable-IsSettled : (s : ConnectionState) → IsSettled (process_keep_alive_disabled s)
unfolding process_keep_alive_disabled
disable-IsSettled s = fire-IsSettled _

pub propose-IsSettled :
    (w : Switch) (s : ConnectionState) → IsSettled (process_client_switch_proposal w s)
unfolding process_client_switch_proposal
propose-IsSettled w s = fire-IsSettled _

pub init-IsSettled : IsSettled init
init-IsSettled = ground arith

-- On a settled machine `start_next_cycle` returns, or raises a LocalProtocolError and changes nothing:
-- neither of its assertions fails.
pub cycle-IsSettled :
    (s : ConnectionState)
    → IsSettled s
    → Ends (λ _ t. IsSettled t) (λ x t. IsLocal x × (t ≡ s)) (start_next_cycle s)
unfolding start_next_cycle
cycle-IsSettled s h = ground arith

-- A proposal on a settled machine does not move the server.
pub propose-of_server :
    (w : Switch) (s : ConnectionState)
    → IsSettled s
    → (process_client_switch_proposal w s).states.of_server ≡ s.states.of_server
unfolding process_client_switch_proposal fire_state_triggered_transitions
propose-of_server w s h = ground arith
