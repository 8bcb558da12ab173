-- ===== src/Tests/Runs.antt =====
-- Whole conversations through h11/_connection.py, evaluated.
use h11_py.Bytes.{
  eq_bytes, lt_bytes, starts_with, find_first, find, lstrip, rstrip, strip, split, lower,
  title_from, title,
}
use h11_py.Connection.{respond_to_state_changes, start_next_cycle, process_error, receive_data}
use h11_py.Connection.Process.{server_switch_event, process_event}
use h11_py.Connection.Cleanup.{sorted_set, frame, set_close, clean_up_response_headers}
use h11_py.Connection.Receive.{extract_next_receive_event, try_next_event, next_event}
use h11_py.Connection.Send.{try_send, send_with_data_passthrough, send, send_failed}
use h11_py.Events.{
  host_count, new_request, new_response_base, new_informational_response, new_response,
  new_end_of_message,
}
use h11_py.Framing.{keep_alive, framing_of_headers, body_framing}
use h11_py.Headers.{
  raw_items, check_header, take_pair, normalize_from, normalize_and_validate, get_comma_header,
  set_comma_header, has_expect_100_continue,
}
use h11_py.Numeral.{value_from, int, numeral_from, numeral}
use h11_py.Readers.{
  read_content_length, read_trailer, read_chunk_data, read_chunk, read_chunked, read_http10,
}
use h11_py.Readers.Parse.{
  fold_lines, parse_header_lines, decode_header_lines, parse_request, parse_response, trailer,
}
use h11_py.Readers.Table.{read_lines, read_nothing, call_reader, read_eof, reader_for, body_reader}
use h11_py.ReceiveBuffer.{
  blank_line_end, search, append, extract, maybe_extract_at_most, maybe_extract_next_line, chomp,
  ends_blank, but_last_two, maybe_extract_lines, is_next_line_obviously_invalid_request_line,
}
use h11_py.Regex.{star_loop, run, fullmatch, match_prefix}
use h11_py.State.{event_triggered_transitions, state_triggered_transitions}
use h11_py.State.Machine
use h11_py.State.Machine.{
  round, fire_loop, fire_state_triggered_transitions, process_keep_alive_disabled,
  process_client_switch_proposal, fire_event_triggered_transitions, see_event,
}
use h11_py.Util.{bytesify, validate}
use h11_py.Writers.{
  lines_of, write_headers, write_request, write_any_response, send_chunk, end_chunks, call_writer,
  writer_for, body_writer,
}
use h11_py.Prelude.{ℕ, ◌≡◌, refl, some, List, [], ◌∷◌, false, Option}
use h11_py.Util.{ok, raise, attribute_error, remote_error, local_error}
use h11_py.Effect.{Eff, ◌>>=◌, ◌>>◌, return}
use h11_py.Bytes.{Bytes, bytes}
use h11_py.Prelude.{◌≢◌}
use h11_py.Connection.LastCycle.{process_event-InLastCycle}
use h11_py.Connection.Calls.{unused, then_call, reading}
use h11_py.State.{client, server, idle, error, state_of}
use h11_py.Connection.{Connection, new, their_role, default_max_incomplete_event_size}
use h11_py.Connection.Receive.{Next}
use h11_py.Util.Outcome.{IsLocal}
use h11_py.Connection.Fails.{next_event-raises, send-raises}
use h11_py.Events.{Event, request, Request, Response, response, new_data, end_of_message}

-- Unfolds what a run computes with.
unfoldable pub everything : ℕ
unfolding eq_bytes lt_bytes starts_with find_first find lstrip rstrip strip split lower title_from
    title respond_to_state_changes start_next_cycle process_error server_switch_event process_event
    receive_data sorted_set frame set_close clean_up_response_headers extract_next_receive_event
    try_next_event next_event try_send send_with_data_passthrough send send_failed host_count
    new_request new_response_base new_informational_response new_response new_end_of_message
    keep_alive framing_of_headers body_framing raw_items check_header take_pair normalize_from
    normalize_and_validate get_comma_header set_comma_header has_expect_100_continue value_from int
    numeral_from numeral read_content_length read_trailer read_chunk_data read_chunk read_chunked
    read_http10 fold_lines parse_header_lines decode_header_lines parse_request parse_response
    trailer read_lines read_nothing call_reader read_eof reader_for body_reader blank_line_end
    search append extract maybe_extract_at_most maybe_extract_next_line chomp ends_blank
    but_last_two maybe_extract_lines is_next_line_obviously_invalid_request_line star_loop run
    fullmatch match_prefix event_triggered_transitions state_triggered_transitions
    Machine.process_error Machine.process_event Machine.start_next_cycle round fire_loop
    fire_state_triggered_transitions process_keep_alive_disabled process_client_switch_proposal
    fire_event_triggered_transitions see_event bytesify validate lines_of write_headers
    write_request write_any_response send_chunk end_chunks call_writer writer_for body_writer
everything = 0

abbrev pub serving : Connection
serving = new server default_max_incomplete_event_size

abbrev pub get_request : Request
get_request = record {
  method = bytes "GET";
  headers = record { raw_name = bytes "Host"; name = bytes "host"; value = bytes "a" } ∷ [];
  target = bytes "/";
  http_version = bytes "1.1";
}

abbrev pub plain_response : Response
plain_response = record {
  headers = [];
  http_version = bytes "1.1";
  reason = bytes "OK";
  status_code = 200;
}

-- A server reads a request and answers it with a chunked body.
abbrev exchange : Eff Connection (List (Option Bytes))
exchange = do
  receive_data (bytes "GET / HTTP/1.1\r\nHost: a\r\n\r\n")
  _ ← next_event
  _ ← next_event
  head ← send (response plain_response)
  body ← send (new_data (bytes "hello") false false)
  end ← send (end_of_message [])
  return (head ∷ body ∷ end ∷ [])

exchange_sends :
    (exchange serving).0
    ≡ ok (
        some (bytes "HTTP/1.1 200 OK\r\nTransfer-Encoding: chunked\r\n\r\n")
        ∷ some (bytes "5\r\nhello\r\n")
        ∷ some (bytes "0\r\n\r\n")
        ∷ [])
unfolding everything
exchange_sends = refl

-- A server that answers before the request has come meets an AttributeError when it comes.
abbrev early_answer : Eff Connection Next
early_answer = do
  _ ← send (response plain_response)
  receive_data (bytes "GET / HTTP/1.1\r\nHost: a\r\n\r\n")
  next_event

early_answer_raises : (early_answer serving).0 ≡ raise attribute_error
unfolding everything
early_answer_raises = refl

abbrev pub garbled : Connection
garbled = (receive_data (bytes "GET\r\n\r\n") serving).1

pub garbled_raises : (next_event garbled).0 ≡ raise (remote_error "illegal request line: {!r}")
unfolding everything
garbled_raises = refl

next_event-raises_example :
    (state_of (their_role garbled) (next_event garbled).1.cstate.states ≡ error)
    × ¬ (IsLocal (remote_error "illegal request line: {!r}"))
next_event-raises_example = next_event-raises garbled garbled_raises

body_first_raises :
    (send (end_of_message []) serving).0
    ≡ raise (local_error "can't handle event type {} when role={} and state={}")
unfolding everything
body_first_raises = refl

send-raises_example :
    state_of serving.our_role (send (end_of_message []) serving).1.cstate.states ≡ error
send-raises_example = send-raises serving (end_of_message []) body_first_raises

-- A client that asks to close the connection.
abbrev last_request : Event
last_request = request (record {
  method = bytes "GET";
  headers =
      record { raw_name = bytes "Connection"; name = bytes "connection"; value = bytes "close" }
      ∷ [];
  target = bytes "/";
  http_version = bytes "1.1";
})

abbrev closing : Connection
closing = (process_event client last_request serving).1

process_event-InLastCycle_example :
    ((next_event closing).1.cstate.keep_alive ≡ false)
    × (state_of client (next_event closing).1.cstate.states ≢ idle)
unfolding everything
process_event-InLastCycle_example =
    process_event-InLastCycle client last_request serving {d = (next_event closing).1} client refl
      refl (λ h. cc) (then_call unused reading)
