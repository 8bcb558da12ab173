-- ===== src/Diagrams.antt =====
-- docs/source/make-state-diagrams.py: the edges of the drawn state machines.
pub mod Drawn
use h11_py.Prelude.{
  ℕ, String, Bool, true, false, not, ◌&&◌, ◌||◌, Option, none, some, List, [], ◌∷◌, ◌++◌,
  if◌then◌else◌,
}
use h11_py.Util.{assertion_error, Result, ok, raise, ◌>>=◌}
use h11_py.State.{
  Role, client, server, State, idle, send_response, send_body, done, must_close, closed, error,
  might_switch_protocol, switched_protocol, Switch, switch_upgrade, switch_connect, EventType,
  request, informational_response, response, data_, end_of_message, connection_closed, EventKey,
  plain, from_client, switched, event_triggered_transitions, state_triggered_transitions, is_state,
}

-- The arguments of `Edges.e`.
pub record Edge (N : Type 0) : Type 0 where
  pub source : N
  pub target : N
  pub label : String
  pub color : String
  pub italicize : Bool
  pub weight : ℕ

abbrev event_color : String
event_color = "#002092"

abbrev state_color : String
state_color = "#017517"

abbrev special_color : String
special_color = "#7600a1"

-- `edges.e` with its default arguments, and with `italicize=True`.
abbrev edge : {N : Type 0} → N → N → String → String → Edge N
edge source target label color = record {
  source = source;
  target = target;
  label = label;
  color = color;
  italicize = false;
  weight = 1;
}

abbrev italic : {N : Type 0} → N → N → String → String → Edge N
italic source target label color = record (edge source target label color) { italicize = true }

-- The edges of `make_dot_special_state`.
abbrev pub special_states : List (Edge String)
special_states =
    italic "kaT" "kaF" "Request/response with<br/>HTTP/1.0 or Connection: close" event_color
    ∷ italic "kaF" "kaF" "Request/response with<br/>HTTP/1.0 or Connection: close" event_color
    ∷ italic "upF" "upT" "Request with Upgrade:" event_color
    ∷ italic "upT" "upF" "Response" event_color
    ∷ italic "coF" "coT" "Request with CONNECT" event_color
    ∷ italic "coT" "coF" "Response without 2xx status" event_color
    ∷ []

-- `event_type.__name__`
abbrev event_name : EventType → String
event_name request = "Request"
event_name informational_response = "InformationalResponse"
event_name response = "Response"
event_name data_ = "Data"
event_name end_of_message = "EndOfMessage"
event_name connection_closed = "ConnectionClosed"

-- `event_type in CORE_EVENTS`
abbrev is_core : EventType → Bool
is_core connection_closed = false
is_core _ = true

abbrev is_response : EventType → Bool
is_response response = true
is_response _ = false

-- The weight and the name of an edge; `assert False` for a tuple that the script does not know.
abbrev event_weight : State → State → EventType → ℕ
event_weight source target e =
    if is_response e && is_state source idle
    then 1
    else if is_core e && not (is_state source target)
    then 10
    else 1

abbrev event_edge : State → EventKey → State → Result (Edge State)
event_edge source (plain e) target = ok (record (edge source target (event_name e) event_color) {
  weight = event_weight source target e;
})
event_edge source (from_client request) target =
    ok (record (edge source target "<i>client makes Request</i>" event_color) { weight = 10 })
event_edge source (switched e switch_upgrade) target =
    ok (edge source target "<i>101 Switching Protocols</i>" event_color)
event_edge source (switched e switch_connect) target =
    ok (edge source target "<i>CONNECT accepted</i>" event_color)
event_edge source (from_client _) target = raise assertion_error

abbrev pub all_states : List State
all_states =
    idle ∷ send_response ∷ send_body ∷ done ∷ must_close ∷ closed ∷ error ∷ might_switch_protocol
    ∷ switched_protocol ∷ []

abbrev all_events : List EventType
all_events =
    request ∷ informational_response ∷ response ∷ data_ ∷ end_of_message ∷ connection_closed ∷ []

abbrev keys_of : List EventType → List EventKey
keys_of [] = []
keys_of (e ∷ es) =
    plain e ∷ from_client e ∷ switched e switch_upgrade ∷ switched e switch_connect ∷ keys_of es

-- The keys of the entry for one state, as those of all keys that are in it.
abbrev edges_from : Role → State → List EventKey → Result (List (Edge State))
edges_from role source [] = ok []
edges_from role source (k ∷ ks) = elim (event_triggered_transitions role source k) [
  | none ↦ edges_from role source ks
  | some target ↦
      event_edge source k target >>= λ e. edges_from role source ks >>= λ es. ok (e ∷ es)
]

-- The first loop of `make_dot`.
abbrev event_edges : Role → List State → Result (List (Edge State))
event_edges role [] = ok []
event_edges role (q ∷ qs) = do
  here ← edges_from role q (keys_of all_events)
  later ← event_edges role qs
  ok (here ++ later)

-- `f"<i>peer in</i><BR/>{their_state}"`
abbrev peer_label : State → String
peer_label idle = "<i>peer in</i><BR/>IDLE"
peer_label send_response = "<i>peer in</i><BR/>SEND_RESPONSE"
peer_label send_body = "<i>peer in</i><BR/>SEND_BODY"
peer_label done = "<i>peer in</i><BR/>DONE"
peer_label must_close = "<i>peer in</i><BR/>MUST_CLOSE"
peer_label closed = "<i>peer in</i><BR/>CLOSED"
peer_label error = "<i>peer in</i><BR/>ERROR"
peer_label might_switch_protocol = "<i>peer in</i><BR/>MIGHT_SWITCH_PROTOCOL"
peer_label switched_protocol = "<i>peer in</i><BR/>SWITCHED_PROTOCOL"

-- The edges for the updates of one pair of states.
abbrev pair_edges : Role → State → State → List (Role × State) → List (Edge State)
pair_edges role of_client of_server [] = []
pair_edges client of_client of_server ((client, q) ∷ us) =
    edge of_client q (peer_label of_server) state_color ∷ pair_edges client of_client of_server us
pair_edges server of_client of_server ((server, q) ∷ us) =
    edge of_server q (peer_label of_client) state_color ∷ pair_edges server of_client of_server us
pair_edges role of_client of_server (_ ∷ us) = pair_edges role of_client of_server us

abbrev peer_edges : Role → State → List State → List (Edge State)
peer_edges role of_client [] = []
peer_edges role of_client (of_server ∷ qs) =
    pair_edges role of_client of_server (state_triggered_transitions of_client of_server)
    ++ peer_edges role of_client qs

-- The second loop of `make_dot`.
abbrev state_edges : Role → List State → List (Edge State)
state_edges role [] = []
state_edges role (q ∷ qs) = peer_edges role q all_states ++ state_edges role qs

-- The edges that `make_dot` adds by hand.
abbrev switch_edges : Role → List (Edge State)
switch_edges client =
    italic done might_switch_protocol "Potential Upgrade:<BR/>or CONNECT pending" state_color
    ∷ italic might_switch_protocol done "No potential Upgrade:<BR/>or CONNECT pending" state_color
    ∷ []
switch_edges server = []

-- The edges of `make_dot`, before it sorts their texts.
unfoldable pub make_dot : Role → Result (List (Edge State))
unfolding event_triggered_transitions state_triggered_transitions
make_dot role = do
  of_events ← event_edges role all_states
  ok (
      of_events
      ++ state_edges role all_states
      ++ switch_edges role
      ++ italic done must_close "keep-alive<BR/>is disabled" state_color
        ∷ edge done idle "start_next_cycle()" special_color
        ∷ [])
