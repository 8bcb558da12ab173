-- ===== src/Connection.antt =====
-- h11/_connection.py: the state of a connection, and how it answers a change of the state machine.
pub mod Process
pub mod Cleanup
pub mod Receive
pub mod Send
pub mod Updates
pub mod Fails
pub mod Below
pub mod Refines
pub mod Calls
pub mod Coherent
pub mod Fields
pub mod Untouched
pub mod Framed
pub mod CleanEvent
pub mod Closing
pub mod Kept
pub mod Good
pub mod Extract
pub mod Safe
pub mod Sent
pub mod Cycled
pub mod Uses
pub mod Consumed
pub mod Progress
pub mod Drain
pub mod NeedData
pub mod Rest
pub mod Resting
pub mod Paused
pub mod LastCycle
use h11_py.Prelude.{
  ℕ, ◌*◌, Bool, true, false, not, ◌&&◌, ◌||◌, Option, none, some, [], leb, ltb, ◌==◌, if◌then◌else◌,
}
use h11_py.Effect.{Eff, return, throw, assert, modify, lift, get, ◌>>=◌, ◌>>◌}
use h11_py.Util.{assertion_error, runtime_error, Result, ok, raise}
use h11_py.Bytes.{Bytes, bytes, eq_bytes, is_empty}
use h11_py.Headers.{Headers, get_comma_header, has_expect_100_continue}
use h11_py.Events.{
  Event, Request, Response, request, informational_response, response, data_, end_of_message,
  connection_closed, type_of,
}
use h11_py.Framing.{Framing, body_framing, keep_alive}
use h11_py.ReceiveBuffer
use h11_py.ReceiveBuffer.{ReceiveBuffer}
use h11_py.Readers.Table.{Reader, reader_for, body_reader}
use h11_py.State.{
  Role, client, server, State, send_body, Switch, switch_upgrade, switch_connect, States, state_of,
  is_state, ConnectionState, init,
}
use h11_py.State.Machine
use h11_py.Writers.{Writer, writer_for, body_writer}

pub record Connection : Type 0 where
  pub max_incomplete_event_size : ℕ
  pub our_role : Role
  pub cstate : ConnectionState
  pub writer : Option Writer
  pub reader : Option Reader
  pub receive_buffer : ReceiveBuffer
  pub receive_buffer_closed : Bool
  pub their_http_version : Option Bytes
  pub request_method : Option Bytes
  pub client_is_waiting_for_100_continue : Bool

abbrev pub other : Role → Role
other client = server
other server = client

abbrev pub same_role : Role → Role → Bool
same_role client client = true
same_role server server = true
same_role _ _ = false

abbrev pub their_role : Connection → Role
their_role c = other c.our_role

abbrev pub our_state : Connection → State
our_state c = state_of c.our_role c.cstate.states

abbrev pub their_state : Connection → State
their_state c = state_of (their_role c) c.cstate.states

abbrev pub default_max_incomplete_event_size : ℕ
default_max_incomplete_event_size = 16 * 1024

-- `Connection.__init__`; a role that is neither CLIENT nor SERVER is no `Role`.
abbrev pub new : Role → ℕ → Connection
new role max_incomplete_event_size = record {
  max_incomplete_event_size = max_incomplete_event_size;
  our_role = role;
  cstate = init;
  writer = writer_for role (state_of role init.states);
  reader = reader_for (other role) (state_of (other role) init.states);
  receive_buffer = ReceiveBuffer.new;
  receive_buffer_closed = false;
  their_http_version = none;
  request_method = none;
  client_is_waiting_for_100_continue = false;
}

-- `they_are_waiting_for_100_continue`
abbrev pub they_are_waiting_for_100_continue : Connection → Bool
they_are_waiting_for_100_continue c =
    same_role (their_role c) client && c.client_is_waiting_for_100_continue

-- `trailing_data`
abbrev pub trailing_data : Connection → Bytes × Bool
trailing_data c = (c.receive_buffer.content, c.receive_buffer_closed)

-- A call of a method of `self._cstate`, and of one that cannot raise.
abbrev pub on_cstate : {A : Type 0} → Eff ConnectionState A → Eff Connection A
on_cstate m c = let (r, s) = m c.cstate in (r, record c { cstate = s })

abbrev pub change_cstate : (ConnectionState → ConnectionState) → Eff Connection (Unit {0})
change_cstate f = modify λ c. record c { cstate = f c.cstate }

-- `_get_io_object`. Entering SEND_BODY with no event would fail in `_body_framing`'s assertion.
abbrev io_object :
    {A : Type 0}
    → (Role → State → Option A)
    → (Framing → A)
    → Role
    → Option Event
    → Eff Connection (Option A)
io_object table body role event c =
    (if is_state (state_of role c.cstate.states) send_body
        then (do
          framing ← lift (elim event [
            | some e ↦ body_framing c.request_method e
            | none ↦ raise assertion_error
          ])
          return (some (body framing)))
        else return (table role (state_of role c.cstate.states)))
      c

abbrev update_writer : States → Option Event → Eff Connection (Unit {0})
update_writer old_states event c =
    (if is_state (our_state c) (state_of c.our_role old_states) then return tt else (do
      w ← io_object writer_for body_writer c.our_role event
      modify λ c. record c { writer = w }))
      c

abbrev update_reader : States → Option Event → Eff Connection (Unit {0})
update_reader old_states event c =
    (if is_state (their_state c) (state_of (their_role c) old_states) then return tt else (do
      r ← io_object reader_for body_reader (their_role c) event
      modify λ c. record c { reader = r }))
      c

-- `_respond_to_state_changes`
unfoldable pub respond_to_state_changes : States → Option Event → Eff Connection (Unit {0})
respond_to_state_changes old_states event = do
  update_writer old_states event
  update_reader old_states event

-- `start_next_cycle`
unfoldable pub start_next_cycle : Eff Connection (Unit {0})
unfolding respond_to_state_changes
start_next_cycle = do
  before ← get
  on_cstate Machine.start_next_cycle
  modify λ c. record c { request_method = none }
  assert (not before.client_is_waiting_for_100_continue)
  respond_to_state_changes before.cstate.states none

-- `_process_error`
unfoldable pub process_error : Role → Eff Connection (Unit {0})
unfolding respond_to_state_changes
process_error role = do
  before ← get
  change_cstate (Machine.process_error role)
  respond_to_state_changes before.cstate.states none

-- `receive_data`
unfoldable pub receive_data : Bytes → Eff Connection (Unit {0})
receive_data content c =
    if is_empty content
    then (ok tt, record c { receive_buffer_closed = true })
    else if c.receive_buffer_closed
    then (raise runtime_error, c)
    else (ok tt, record c { receive_buffer = ReceiveBuffer.append content c.receive_buffer })

-- `try: m; except ...: self._process_error(role); raise`
abbrev pub caught : {A : Type 0} → Role → Result A × Connection → Result A × Connection
caught role (ok a, c) = (ok a, c)
caught role (raise e, c) = (do process_error role; throw e) c

abbrev pub guarded : {A : Type 0} → Role → Eff Connection A → Eff Connection A
guarded role m c = caught role (m c)
