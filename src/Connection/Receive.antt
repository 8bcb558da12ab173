-- ===== src/Connection/Receive.antt =====
-- `next_event` of h11/_connection.py.
use h11_py.Prelude.{not, ◌&&◌, ◌||◌, Option, none, some, ltb, if◌then◌else◌, length}
use h11_py.Effect.{Eff, return, throw, lift, ◌>>=◌, ◌>>◌}
use h11_py.Util.{
  remote_protocol_error, remote_error, assertion_error, reraise_as_remote, Result, ok, raise,
}
use h11_py.Events.{Event, connection_closed}
use h11_py.Connection.Process.{process_event}
use h11_py.Connection.{Connection, their_role, their_state, guarded}
use h11_py.Readers.Table.{Reader, call_reader, read_eof}
use h11_py.ReceiveBuffer.{is_drained}
use h11_py.State.{done, error, might_switch_protocol, switched_protocol, is_state}

-- `Union[Event, Type[NEED_DATA], Type[PAUSED]]`
pub data Next : Type 0 where
  event : Event → Next
  need_data paused : Next

-- `self._reader(self._receive_buffer)` for a reader that is there.
abbrev pub run_reader : Option Reader → Eff Connection (Option Event)
run_reader none c = throw assertion_error c
run_reader (some reader) c =
    let (r, s) = call_reader reader c.receive_buffer in
    (r, record c { reader = some s.reader; receive_buffer = s.buffer })

abbrev pub eof_event : Option Reader → Eff Connection Next
eof_event none = return (event connection_closed)
eof_event (some reader) = elim (read_eof reader) [
  | some r ↦ (do e ← lift r; return (event e))
  | none ↦ return (event connection_closed)
]

abbrev pub after_reader : Option Event → Eff Connection Next
after_reader (some e) c = return (event e) c
after_reader none c =
    (if is_drained c.receive_buffer && c.receive_buffer_closed
        then eof_event c.reader
        else return need_data)
      c

-- `_extract_next_receive_event`
unfoldable pub extract_next_receive_event : Eff Connection Next
extract_next_receive_event c =
    (if is_state (their_state c) done && not (is_drained c.receive_buffer)
        then return paused
        else if is_state (their_state c) might_switch_protocol
            || is_state (their_state c) switched_protocol
        then return paused
        else (do e ← run_reader c.reader; after_reader e))
      c

-- The checks on NEED_DATA.
abbrev check_need_data : Eff Connection (Unit {0})
check_need_data c =
    (if ltb c.max_incomplete_event_size (length c.receive_buffer.content)
        then throw (remote_protocol_error "Receive buffer too long" 431)
        else if c.receive_buffer_closed
        then throw (remote_error "peer unexpectedly closed connection")
        else return tt)
      c

abbrev pub handle_next : Next → Eff Connection (Unit {0})
handle_next (event e) c = process_event (their_role c) e c
handle_next need_data c = check_need_data c
handle_next paused c = return tt c

abbrev pub as_remote : Result Next × Connection → Result Next × Connection
as_remote (ok n, c) = (ok n, c)
as_remote (raise e, c) = (raise (reraise_as_remote e), c)

-- The body of the `try`.
unfoldable pub try_next_event : Eff Connection Next
try_next_event = do n ← extract_next_receive_event; handle_next n; return n

-- `next_event`
unfoldable pub next_event : Eff Connection Next
next_event c =
    if is_state (their_state c) error
    then (raise (remote_error "Can't receive data when peer state is ERROR"), c)
    else as_remote (guarded (their_role c) try_next_event c)
