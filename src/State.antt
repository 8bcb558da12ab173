-- ===== src/State.antt =====
-- h11/_state.py: the two automata, the tables that drive them, and `ConnectionState`.
pub mod Machine
pub mod Fixpoint
pub mod Steps
pub mod Reach
pub mod Error
pub mod Cycle
pub mod Faults
pub mod Opening
pub mod Waiting
pub mod Settled
use h11_py.Prelude.{ℕ, Bool, true, false, ◌&&◌, ◌||◌, Option, none, some, List, [], ◌∷◌, ◌==◌}

pub data Role : Type 0 where
  client server : Role

pub data State : Type 0 where
  idle send_response send_body done must_close closed error : State
  might_switch_protocol switched_protocol : State

pub data Switch : Type 0 where
  switch_upgrade switch_connect : Switch

-- The classes of _events.py, as `type(event)`.
pub data EventType : Type 0 where
  request informational_response response data_ end_of_message connection_closed : EventType

-- A key of the event table: a type, or a pair of a type and a sentinel.
pub data EventKey : Type 0 where
  plain : EventType → EventKey
  from_client : EventType → EventKey
  switched : EventType → Switch → EventKey

-- `EVENT_TRIGGERED_TRANSITIONS[role][state][key]`, with `none` for a `KeyError`.
unfoldable pub event_triggered_transitions : Role → State → EventKey → Option State
event_triggered_transitions client idle (plain request) = some send_body
event_triggered_transitions client idle (plain connection_closed) = some closed
event_triggered_transitions client send_body (plain data_) = some send_body
event_triggered_transitions client send_body (plain end_of_message) = some done
event_triggered_transitions client done (plain connection_closed) = some closed
event_triggered_transitions client must_close (plain connection_closed) = some closed
event_triggered_transitions client closed (plain connection_closed) = some closed
event_triggered_transitions server idle (plain connection_closed) = some closed
event_triggered_transitions server idle (plain response) = some send_body
event_triggered_transitions server idle (from_client request) = some send_response
event_triggered_transitions server send_response (plain informational_response) = some send_response
event_triggered_transitions server send_response (plain response) = some send_body
event_triggered_transitions server send_response (switched informational_response switch_upgrade) =
    some switched_protocol
event_triggered_transitions server send_response (switched response switch_connect) =
    some switched_protocol
event_triggered_transitions server send_body (plain data_) = some send_body
event_triggered_transitions server send_body (plain end_of_message) = some done
event_triggered_transitions server done (plain connection_closed) = some closed
event_triggered_transitions server must_close (plain connection_closed) = some closed
event_triggered_transitions server closed (plain connection_closed) = some closed
event_triggered_transitions _ _ _ = none

-- `STATE_TRIGGERED_TRANSITIONS.get((client, server), {})`, a dictionary as its items.
unfoldable pub state_triggered_transitions : State → State → List (Role × State)
state_triggered_transitions might_switch_protocol switched_protocol =
    (client, switched_protocol) ∷ []
state_triggered_transitions closed done = (server, must_close) ∷ []
state_triggered_transitions closed idle = (server, must_close) ∷ []
state_triggered_transitions error done = (server, must_close) ∷ []
state_triggered_transitions done closed = (client, must_close) ∷ []
state_triggered_transitions idle closed = (client, must_close) ∷ []
state_triggered_transitions done error = (client, must_close) ∷ []
state_triggered_transitions _ _ = []

-- `self.states`, a dictionary with the two roles for keys.
pub record States : Type 0 where
  pub of_client : State
  pub of_server : State

abbrev pub state_of : Role → States → State
state_of client t = t.of_client
state_of server t = t.of_server

abbrev pub set_state : Role → State → States → States
set_state client q t = record t { of_client = q }
set_state server q t = record t { of_server = q }

-- `self.states.update(changes)`
abbrev pub update : List (Role × State) → States → States
update [] t = t
update ((r, q) ∷ changes) t = update changes (set_state r q t)

-- `self.pending_switch_proposals`, a set of switch types by membership.
pub record Proposals : Type 0 where
  pub upgrade : Bool
  pub connect : Bool

abbrev pub no_proposals : Proposals
no_proposals = record { upgrade = false; connect = false }

abbrev pub has_any : Proposals → Bool
has_any p = p.upgrade || p.connect

abbrev pub proposed : Switch → Proposals → Bool
proposed switch_upgrade p = p.upgrade
proposed switch_connect p = p.connect

abbrev pub add_proposal : Switch → Proposals → Proposals
add_proposal switch_upgrade p = record p { upgrade = true }
add_proposal switch_connect p = record p { connect = true }

pub record ConnectionState : Type 0 where
  pub keep_alive : Bool
  pub pending_switch_proposals : Proposals
  pub states : States

-- `ConnectionState.__init__`
abbrev pub init : ConnectionState
init = record {
  keep_alive = true;
  pending_switch_proposals = no_proposals;
  states = record { of_client = idle; of_server = idle };
}

-- `is` between two states, which are singletons.
abbrev index : State → ℕ
index idle = 0
index send_response = 1
index send_body = 2
index done = 3
index must_close = 4
index closed = 5
index error = 6
index might_switch_protocol = 7
index switched_protocol = 8

abbrev pub is_state : State → State → Bool
is_state p q = index p == index q

abbrev pub same_states : States → States → Bool
same_states t u = is_state t.of_client u.of_client && is_state t.of_server u.of_server
