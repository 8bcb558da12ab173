-- ===== src/Diagrams/Drawn.antt =====
-- The diagrams of docs/source/make-state-diagrams.py and the machine of h11/_state.py.
use h11_py.Prelude.{Bool, true, false, ◌&&◌, ◌||◌, List, [], ◌∷◌, Option, some, ◌≡◌, arith}
use h11_py.Util.{Result, ok, raise}
use h11_py.State.{
  Role, client, server, State, update, EventType, Switch, has_any, ConnectionState, EventKey,
  event_triggered_transitions, is_state, state_triggered_transitions,
}
use h11_py.State.Machine.{switch_rules, close_if_done, with_states, see_event, start_next_cycle}
use h11_py.Diagrams.{Edge, make_dot}

abbrev has_edge : State → State → List (Edge State) → Bool
has_edge p q [] = false
has_edge p q (e ∷ es) = (is_state e.source p && is_state e.target q) || has_edge p q es

abbrev drawn_in : Result (List (Edge State)) → State → State → Bool
drawn_in (ok es) p q = has_edge p q es
drawn_in (raise x) p q = false

-- There is an edge from `p` to `q` in the diagram of the role.
unfoldable pub drawn : Role → State → State → Bool
unfolding make_dot
drawn role p q = drawn_in (make_dot role) p q

-- The same state, or an edge from one to the other.
abbrev pub near : Role → State → State → Bool
near r p q = is_state p q || drawn r p q

event_drawn :
    (r : Role) (q : State) (k : EventKey) {t : State}
    → event_triggered_transitions r q k ≡ some t
    → drawn r q t ≡ true
unfolding drawn event_triggered_transitions
event_drawn client q k h = ground arith
event_drawn server q k h = ground arith

-- The changes of the states that the machine makes, one by one: the event-triggered transitions of a
-- call; in the loop the rules for a switch, for a role without keep-alive, and for a pair of states; and
-- the next cycle. `process_error` alone is left out.
pub data Move : ConnectionState → ConnectionState → Type 0 where
  by_event :
      (q : Role) (e : EventType) (w : Option Switch) (s : ConnectionState)
      → Move s (see_event q e w s).1
  by_switch :
      (s : ConnectionState)
      → Move s (with_states (switch_rules (has_any s.pending_switch_proposals) s.states) s)
  by_keep_alive :
      (q : Role) (s : ConnectionState) → Move s (with_states (close_if_done q s.states) s)
  by_pair :
      (s : ConnectionState)
      → Move s (
          with_states
            (update (state_triggered_transitions s.states.of_client s.states.of_server) s.states)
            s)
  by_cycle : (s : ConnectionState) → Move s (start_next_cycle s).1
