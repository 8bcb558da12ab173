-- ===== src/State/Reach.antt =====
-- Every history of `ConnectionState` (h11/_state.py), with the calls that raise: what holds of all.
use mathlib.Core.Path.{subst}
use h11_py.Prelude.{Bool, true, false, Option, none, some, ◌≡◌, ◌≢◌, ◌⊎◌, refl, sym, arith}
use h11_py.State.{
  Role, client, server, State, idle, send_response, send_body, done, error, might_switch_protocol,
  switched_protocol, set_state, Switch, switch_connect, EventType, request, response,
  ConnectionState, init,
}
use h11_py.State.Machine.{round, with_states, see_event, start_next_cycle}
use h11_py.State.Steps.{Reach, IsKept, Reach_keeps}

-- The client has sent a request in this cycle, and has not closed.
abbrev pub is_active : State → Bool
is_active send_body = true
is_active done = true
is_active might_switch_protocol = true
is_active switched_protocol = true
is_active _ = false

pub record Inv (s : ConnectionState) : Type 0 where
  pub client_legal : s.states.of_client ≢ send_response
  pub server_legal : s.states.of_server ≢ might_switch_protocol
  pub request_seen : is_active s.states.of_client ≡ true → s.states.of_server ≢ idle
  pub response_owed : s.states.of_server ≡ send_response → s.states.of_client ≢ idle
  pub switch_joint :
      s.states.of_client ≡ switched_protocol
      → (s.states.of_server ≡ switched_protocol) ⊎ (s.states.of_server ≡ error)

round-Inv : (s : ConnectionState) → Inv s → Inv (with_states (round s) s)
unfolding round
round-Inv s h = record {
  client_legal = ground arith;
  server_legal = ground arith;
  request_seen = ground arith;
  response_owed = ground arith;
  switch_joint = ground arith;
}

see_event-Inv :
    (r : Role) (e : EventType) (w : Option Switch) (s : ConnectionState)
    → Inv s
    → Inv (see_event r e w s).1
unfolding see_event
see_event-Inv client request none s h = ground arith
see_event-Inv server response (some switch_connect) s h = ground arith
see_event-Inv _ _ _ s h = ground arith

start_next_cycle-Inv : (s : ConnectionState) → Inv s → Inv (start_next_cycle s).1
unfolding start_next_cycle
start_next_cycle-Inv s h = ground arith

set_error-Inv :
    (r : Role) (s : ConnectionState) → Inv s → Inv (with_states (set_state r error s.states) s)
set_error-Inv client s h = ground arith
set_error-Inv server s h = ground arith

-- Neither flag matters to the invariant.
same_states-Inv : (s t : ConnectionState) → t.states ≡ s.states → Inv s → Inv t
same_states-Inv s t e h =
    subst (λ q. Inv (record t { states = q })) (sym e)
      (record {
        client_legal = h.client_legal;
        server_legal = h.server_legal;
        request_seen = h.request_seen;
        response_owed = h.response_owed;
        switch_joint = h.switch_joint;
      })

Inv-IsKept : IsKept Inv
Inv-IsKept = record {
  by_round = round-Inv;
  by_event = see_event-Inv;
  by_error = set_error-Inv;
  by_disable = λ s. same_states-Inv s _ refl;
  by_proposal = λ w s. same_states-Inv s _ refl;
  by_cycle = start_next_cycle-Inv;
}

init-Inv : Inv init
init-Inv = ground arith

-- In every state that a new connection can reach by calls that return or raise: the client is never
-- SEND_RESPONSE and the server never MIGHT_SWITCH_PROTOCOL; if the client is past its request, the
-- server is not IDLE; if the server owes a response, the client is not IDLE; and a client that has
-- switched protocols faces a server that has switched or failed.
pub Reach-Inv : {s : ConnectionState} → Reach init s → Inv s
Reach-Inv r = Reach_keeps Inv Inv-IsKept r init-Inv
