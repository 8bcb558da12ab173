-- ===== src/Connection/Process.antt =====
-- `_process_event` of h11/_connection.py: how an event changes the connection.
use h11_py.Prelude.{Bool, true, false, not, ◌&&◌, Option, none, some, leb, ltb, ◌==◌, if◌then◌else◌}
use h11_py.Effect.{Eff, return, modify, get, ◌>>=◌, ◌>>◌}
use h11_py.Bytes.{Bytes, bytes, eq_bytes, is_empty}
use h11_py.Headers.{get_comma_header, has_expect_100_continue}
use h11_py.Events.{Event, request, informational_response, response, data_, end_of_message, type_of}
use h11_py.Framing.{keep_alive}
use h11_py.State.{Role, client, server, Switch, switch_upgrade, switch_connect, ConnectionState}
use h11_py.State.Machine
use h11_py.Connection.{
  Connection, their_role, same_role, change_cstate, on_cstate, respond_to_state_changes,
}

-- `_server_switch_event`
unfoldable pub server_switch_event : ConnectionState → Event → Option Switch
server_switch_event s (informational_response r) =
    if r.status_code == 101 then some switch_upgrade else none
server_switch_event s (response r) =
    if s.pending_switch_proposals.connect && (leb 200 r.status_code && ltb r.status_code 300)
    then some switch_connect
    else none
server_switch_event s _ = none

-- The proposals that a client's request makes.
abbrev pub propose_switches : Role → Event → Eff Connection (Unit {0})
propose_switches client (request r) = do
  if eq_bytes r.method (bytes "CONNECT")
      then change_cstate (Machine.process_client_switch_proposal switch_connect)
      else return tt
  if not (is_empty (get_comma_header r.headers (bytes "upgrade")))
      then change_cstate (Machine.process_client_switch_proposal switch_upgrade)
      else return tt
propose_switches _ _ = return tt

abbrev pub switch_event_of : Role → Event → ConnectionState → Option Switch
switch_event_of server event s = server_switch_event s event
switch_event_of client event s = none

abbrev pub note_method : Event → Connection → Connection
note_method (request r) c = record c { request_method = some r.method }
note_method _ c = c

abbrev version_of : Event → Option Bytes
version_of (request r) = some r.http_version
version_of (response r) = some r.http_version
version_of (informational_response r) = some r.http_version
version_of _ = none

abbrev or_old : Option Bytes → Option Bytes → Option Bytes
or_old none old = old
or_old (some v) old = some v

abbrev pub note_version : Role → Event → Connection → Connection
note_version role event c =
    if same_role role (their_role c)
    then record c { their_http_version = or_old (version_of event) c.their_http_version }
    else c

-- `type(event) in (Request, Response) and not _keep_alive(event)`
abbrev pub disables_keep_alive : Event → Bool
disables_keep_alive (request r) = not (keep_alive r.http_version r.headers)
disables_keep_alive (response r) = not (keep_alive r.http_version r.headers)
disables_keep_alive _ = false

abbrev pub handle_keep_alive : Event → Eff Connection (Unit {0})
handle_keep_alive event =
    if disables_keep_alive event
    then change_cstate Machine.process_keep_alive_disabled
    else return tt

-- The three rules on 100-continue.
abbrev pub waits_after : Role → Event → Bool → Bool
waits_after role (request r) waits =
    if has_expect_100_continue r.http_version r.headers then true else waits
waits_after role (informational_response r) waits = false
waits_after role (response r) waits = false
waits_after client (data_ d) waits = false
waits_after client (end_of_message h) waits = false
waits_after _ _ waits = waits

abbrev pub note_waiting : Role → Event → Connection → Connection
note_waiting role event c = record c {
  client_is_waiting_for_100_continue = waits_after role event c.client_is_waiting_for_100_continue;
}

-- `_process_event`
unfoldable pub process_event : Role → Event → Eff Connection (Unit {0})
unfolding respond_to_state_changes
process_event role event = do
  before ← get
  propose_switches role event
  c ← get
  on_cstate (Machine.process_event role (type_of event) (switch_event_of role event c.cstate))
  modify (note_method event)
  modify (note_version role event)
  handle_keep_alive event
  modify (note_waiting role event)
  respond_to_state_changes before.cstate.states (some event)
