-- ===== src/Connection/Send.antt =====
-- `send` and `send_failed` of h11/_connection.py.
use h11_py.Prelude.{Option, none, some, List, if◌then◌else◌}
use h11_py.Effect.{Eff, return, throw, lift, get, ◌>>=◌, ◌>>◌}
use h11_py.Util.{local_error, assertion_error, raise}
use h11_py.Bytes.{Bytes, join}
use h11_py.Events.{Event, response, connection_closed}
use h11_py.Connection.Process.{process_event}
use h11_py.Connection.{Connection, our_state, process_error, guarded}
use h11_py.Connection.Cleanup.{clean_up_response_headers}
use h11_py.State.{State, error, is_state}
use h11_py.Writers.{Writer, call_writer}

abbrev pub cleaned : Event → Eff Connection Event
cleaned (response r) c =
    (do
      r' ←
          lift
            (clean_up_response_headers c.request_method c.their_http_version c.cstate.keep_alive r)
      return (response r'))
      c
cleaned e c = return e c

-- `writer(event, data_list.append)`. The writer's object is the one from before `_process_event`; it
-- is still `self._writer` if our state has not changed.
abbrev pub write : Option Writer → State → Event → Eff Connection (List Bytes)
write none old e c = throw assertion_error c
write (some w) old e c =
    let (r, w') = call_writer w e in
    (r, if is_state (our_state c) old then record c { writer = some w' } else c)

abbrev pub write_event : Option Writer → State → Event → Eff Connection (Option (List Bytes))
write_event w old connection_closed = return none
write_event w old e = do chunks ← write w old e; return (some chunks)

-- The body of the `try`.
unfoldable pub try_send : Event → Eff Connection (Option (List Bytes))
try_send event = do
  before ← get
  e ← cleaned event
  process_event before.our_role e
  write_event before.writer (our_state before) e

unfoldable pub send_with_data_passthrough : Event → Eff Connection (Option (List Bytes))
send_with_data_passthrough event c =
    if is_state (our_state c) error
    then (raise (local_error "Can't send data when our state is ERROR"), c)
    else guarded c.our_role (try_send event) c

abbrev pub joined : Option (List Bytes) → Option Bytes
joined none = none
joined (some chunks) = some (join chunks)

unfoldable pub send : Event → Eff Connection (Option Bytes)
send event = do data_list ← send_with_data_passthrough event; return (joined data_list)

unfoldable pub send_failed : Eff Connection (Unit {0})
send_failed c = process_error c.our_role c
