-- ===== src/State/Machine.antt =====
-- The methods of `ConnectionState` in h11/_state.py. A method that mutates `self` is an `Eff` over the
-- record; one that cannot raise returns the new record.
use h11_py.Prelude.{ℕ, zero, suc, Bool, true, false, not, ◌&&◌, Option, none, some, if◌then◌else◌}
use h11_py.Effect.{Eff, return, throw, assert, modify, ◌>>=◌, ◌>>◌}
use h11_py.Util.{Exn, local_error, attribute_error}
use h11_py.State.{
  Role, client, server, State, idle, done, must_close, error, might_switch_protocol, Switch,
  EventType, request, response, EventKey, plain, from_client, switched, event_triggered_transitions,
  state_triggered_transitions, States, state_of, set_state, update, no_proposals, has_any, proposed,
  add_proposal, ConnectionState, is_state, same_states,
}

abbrev pub with_states : States → ConnectionState → ConnectionState
with_states t s = record s { states = t }

-- The two rules on the protocol switch.
abbrev pub switch_rules : Bool → States → States
switch_rules pending t =
    let proposed_now =
      if pending && is_state t.of_client done
      then record t { of_client = might_switch_protocol }
      else t in
    if not pending && is_state proposed_now.of_client might_switch_protocol
    then record proposed_now { of_client = done }
    else proposed_now

-- `if self.states[role] is DONE: self.states[role] = MUST_CLOSE`
abbrev pub close_if_done : Role → States → States
close_if_done r t = if is_state (state_of r t) done then set_state r must_close t else t

-- One pass of the loop's body.
unfoldable pub round : ConnectionState → States
unfolding state_triggered_transitions
round s =
    let switched_states = switch_rules (has_any s.pending_switch_proposals) s.states in
    let closing =
      if not s.keep_alive
      then close_if_done server (close_if_done client switched_states)
      else switched_states in
    update (state_triggered_transitions closing.of_client closing.of_server) closing

-- The `while True` loop on fuel; `none` says that the fuel ran out.
unfoldable pub fire_loop : ℕ → ConnectionState → Option ConnectionState
unfolding round
fire_loop zero s = none
fire_loop (suc fuel) s =
    let next = with_states (round s) s in
    let rest = fire_loop fuel next in if same_states (round s) s.states then some next else rest

abbrev pub fuel : ℕ
fuel = 4

abbrev or_self : Option ConnectionState → ConnectionState → ConnectionState
or_self (some s') s = s'
or_self none s = s

unfoldable pub fire_state_triggered_transitions : ConnectionState → ConnectionState
unfolding fire_loop
fire_state_triggered_transitions s = or_self (fire_loop fuel s) s

unfoldable pub process_error : Role → ConnectionState → ConnectionState
process_error r s = fire_state_triggered_transitions (with_states (set_state r error s.states) s)

unfoldable pub process_keep_alive_disabled : ConnectionState → ConnectionState
process_keep_alive_disabled s = fire_state_triggered_transitions (record s { keep_alive = false })

unfoldable pub process_client_switch_proposal : Switch → ConnectionState → ConnectionState
process_client_switch_proposal w s =
    fire_state_triggered_transitions
      (record s { pending_switch_proposals = add_proposal w s.pending_switch_proposals })

-- What the `except KeyError` clause raises: it reads `event_type.__name__`, which a tuple lacks.
abbrev pub no_transition : EventKey → Exn
no_transition (plain e) = local_error "can't handle event type {} when role={} and state={}"
no_transition _ = attribute_error

abbrev move : Role → EventKey → Option State → Eff ConnectionState (Unit {0})
move r k (some q) = modify λ s. with_states (set_state r q s.states) s
move r k none = throw (no_transition k)

unfoldable pub fire_event_triggered_transitions : Role → EventKey → Eff ConnectionState (Unit {0})
unfolding event_triggered_transitions
fire_event_triggered_transitions r k s =
    move r k (event_triggered_transitions r (state_of r s.states) k) s

abbrev pub is_server : Role → Bool
is_server server = true
is_server client = false

-- `_event_type`, after the checks on an annotated server event.
abbrev event_key : Role → EventType → Option Switch → Eff ConnectionState EventKey
event_key r e none s = (return (plain e)) s
event_key r e (some w) s =
    (do
      assert (is_server r)
      if proposed w s.pending_switch_proposals
          then return (switched e w)
          else throw
              (local_error "Received server _SWITCH_UPGRADE event without a pending proposal"))
      s

-- `if server_switch_event is None and _event_type is Response`
abbrev forget_proposals : EventKey → Eff ConnectionState (Unit {0})
forget_proposals (plain response) = modify λ s. record s { pending_switch_proposals = no_proposals }
forget_proposals _ = return tt

-- The server sees the client's `Request`.
abbrev show_request : Role → EventKey → Eff ConnectionState (Unit {0})
show_request r (plain request) = do
  assert (not (is_server r))
  fire_event_triggered_transitions server (from_client request)
show_request r _ = return tt

-- `process_event` up to its last line: the event-triggered transitions.
unfoldable pub see_event : Role → EventType → Option Switch → Eff ConnectionState (Unit {0})
unfolding fire_event_triggered_transitions
see_event r e w = do
  k ← event_key r e w
  forget_proposals k
  fire_event_triggered_transitions r k
  show_request r k

unfoldable pub process_event : Role → EventType → Option Switch → Eff ConnectionState (Unit {0})
process_event r e w = do see_event r e w; modify fire_state_triggered_transitions

unfoldable pub start_next_cycle : Eff ConnectionState (Unit {0})
start_next_cycle s =
    (do
      if is_state s.states.of_client done && is_state s.states.of_server done
          then return tt
          else throw (local_error "not in a reusable state. self.states={self.states}")
      assert s.keep_alive
      assert (not (has_any s.pending_switch_proposals))
      modify (with_states (record { of_client = idle; of_server = idle })))
      s
