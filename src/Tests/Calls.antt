-- ===== src/Tests/Calls.antt =====
-- Examples for the calls of a connection.
use h11_py.Prelude.{false}
use h11_py.Bytes.{bytes}
use h11_py.Connection.{Connection, new, receive_data, default_max_incomplete_event_size}
use h11_py.Connection.Receive.{next_event}
use h11_py.Connection.Send.{send}
use h11_py.Connection.Calls.{
  Calls, unused, then_call, receiving, reading, sending, Calls-Reach, Calls-Inv,
}
use h11_py.Events.{new_data}
use h11_py.Prelude.{◌≡◌, ◌↔◌}
use h11_py.Util.{ok}
use h11_py.Connection.Receive.{paused}
use h11_py.Connection.Paused.{IsPausing, next_event_paused}
use h11_py.State.{init, might_switch_protocol, send_response, server}
use h11_py.State.Steps.{Reach}
use h11_py.State.Reach.{Inv}

abbrev serving : Connection
serving = new server default_max_incomplete_event_size

-- A server that has read a request, and sends a body before a response, which raises.
abbrev misused : Connection
misused =
    let c = (receive_data (bytes "GET / HTTP/1.0\r\n\r\n") serving).1 in
    (send (new_data (bytes "x") false false) (next_event c).1).1

misused-Calls : Calls serving misused
misused-Calls = then_call (then_call (then_call unused (receiving _)) reading) (sending _)

Calls-Reach_example : Reach serving.cstate misused.cstate
Calls-Reach_example = Calls-Reach {c = serving} {d = misused} misused-Calls

Calls-Inv_example : Inv misused.cstate
Calls-Inv_example = Calls-Inv {d = misused} server default_max_incomplete_event_size misused-Calls

-- A server whose client asks to switch protocols.
abbrev connecting : Connection
connecting = record serving {
  cstate = record init {
    states = record { of_client = might_switch_protocol; of_server = send_response };
  };
}

next_event_paused_example :
    (((next_event connecting).0 ≡ ok paused) ↔ IsPausing connecting)
    × ((next_event connecting ≡ (ok paused, connecting)) ↔ IsPausing connecting)
next_event_paused_example = next_event_paused connecting
