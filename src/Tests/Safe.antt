-- ===== src/Tests/Safe.antt =====
-- Examples for what the calls of a connection raise, take and leave.
use h11_py.Prelude.{◌*◌, ◌+◌, false, some, [], ◌∷◌, length, ◌≡◌, refl}
use h11_py.Tests.Runs.{everything, serving, plain_response, get_request}
use h11_py.Util.{Exn, Result, ok, raise, local_error, raw}
use h11_py.Util.Outcome.{IsLocal}
use h11_py.Bytes.{bytes}
use h11_py.Events.{response, new_request, pairs}
use h11_py.Events.WellFormed.{IsRequest, new_request-IsRequest}
use h11_py.ReceiveBuffer
use h11_py.ReceiveBuffer.{ReceiveBuffer}
use h11_py.ReceiveBuffer.Valid.{new-IsValid, append-IsValid}
use h11_py.Readers.{new_chunked}
use h11_py.Readers.Table.{by_chunks, call_reader}
use h11_py.Readers.Called
use h11_py.Readers.Called.{call_reader-Calls}
use h11_py.Readers.Progress.{Reads, call_reader-Consumes}
use h11_py.Connection.{
  Connection, receive_data, start_next_cycle, default_max_incomplete_event_size,
}
use h11_py.Connection.Receive.{Next, need_data, next_event}
use h11_py.Connection.Send.{send}
use h11_py.Connection.Calls.{unused, then_call, receiving, reading, sending}
use h11_py.Connection.Rest.{AtRest}
use h11_py.Connection.Resting.{Calls-AtRest}
use h11_py.Connection.Cycled.{start_next_cycle-IsLocal}
use h11_py.Connection.Consumed.{size}
use h11_py.Connection.Drain.{drain, goes_on, drain_returns}
use h11_py.Connection.NeedData.{CanGrow, next_event-CanGrow}
use h11_py.State.{client, switch_upgrade, server, init, request}
use h11_py.State.Faults.{AtServer, Refused, process_event-Refused}
use h11_py.Effect.Ends.{Ends}
use h11_py.State.Machine

-- A server that has answered before the request has come.
abbrev hasty : Connection
hasty =
    (receive_data (bytes "GET / HTTP/1.1\r\nHost: a\r\n\r\n")
      (send (response plain_response) serving).1).1

abbrev too_soon : Exn
too_soon = local_error "not in a reusable state. self.states={self.states}"

hasty_cycle_raises : (start_next_cycle hasty).0 ≡ raise too_soon
unfolding everything
hasty_cycle_raises = refl

start_next_cycle-IsLocal_example : IsLocal too_soon
start_next_cycle-IsLocal_example =
    start_next_cycle-IsLocal {d = hasty} server default_max_incomplete_event_size {x = too_soon}
      (then_call (then_call unused (sending (response plain_response))) (receiving _))
      hasty_cycle_raises

Calls-AtRest_example : AtRest (next_event hasty).1
Calls-AtRest_example =
    Calls-AtRest {d = (next_event hasty).1} server default_max_incomplete_event_size (
      then_call (then_call (then_call unused (sending (response plain_response))) (receiving _))
        reading)

abbrev chunk_start : ReceiveBuffer
chunk_start = ReceiveBuffer.append (bytes "5\r\nhel") ReceiveBuffer.new

call_reader-Calls_example :
    Called.Calls (by_chunks new_chunked) (call_reader (by_chunks new_chunked) chunk_start)
call_reader-Calls_example =
    call_reader-Calls (by_chunks new_chunked) chunk_start
      (append-IsValid (bytes "5\r\nhel") ReceiveBuffer.new new-IsValid)

call_reader-Consumes_example :
    Reads (length chunk_start.content) (call_reader (by_chunks new_chunked) chunk_start)
call_reader-Consumes_example = call_reader-Consumes (by_chunks new_chunked) chunk_start

get_request_made :
    new_request false
      (raw (bytes "GET"))
      (pairs ((raw (bytes "Host"), raw (bytes "a")) ∷ []))
      (raw (bytes "/"))
      (raw (bytes "1.1"))
    ≡ ok get_request
unfolding everything
get_request_made = refl

new_request-IsRequest_example : IsRequest get_request
new_request-IsRequest_example =
    new_request-IsRequest false (raw (bytes "GET"))
      (pairs ((raw (bytes "Host"), raw (bytes "a")) ∷ [])) (raw (bytes "/")) (raw (bytes "1.1"))
      {r = get_request} tt get_request_made

-- A server that has a part of a request.
abbrev begun : Connection
begun = (receive_data (bytes "GET / HT") serving).1

begun_waits : (next_event begun).0 ≡ ok need_data
unfolding everything
begun_waits = refl

next_event-CanGrow_example : CanGrow (next_event begun).1
next_event-CanGrow_example = next_event-CanGrow begun begun_waits

drain_returns_example :
    (m : Result Next × Connection) × (drain (2 * size hasty + 2) hasty ≡ some m)
    × (goes_on m.0 ≡ false)
drain_returns_example = drain_returns hasty

process_event-Refused_example :
    Ends
      (λ _ _. AtServer client (some switch_upgrade))
      (Refused client (some switch_upgrade) init)
      (Machine.process_event client request (some switch_upgrade) init)
process_event-Refused_example = process_event-Refused client request (some switch_upgrade) init
