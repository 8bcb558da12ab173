-- ===== src/Lib.antt =====
-- h11, an HTTP/1.1 protocol library without I/O, modelled from the modules of h11/ and the script that
-- draws its state diagrams.
--
-- The program. A `Connection` (h11/_connection.py) is fed bytes by `receive_data` and asked for events
-- by `next_event`; `send` turns an event into bytes. It holds a `ConnectionState` (h11/_state.py), the
-- two automata of client and server, joined with keep-alive and protocol-switch proposals; a
-- `ReceiveBuffer` (h11/_receivebuffer.py) that cuts lines, header blocks and byte runs from the bytes
-- received; and a reader (h11/_readers.py) and a writer (h11/_writers.py), which it replaces when its
-- states change. Readers check lines against the grammar (h11/_abnf.py) and build events
-- (h11/_events.py), whose headers are normalised (h11/_headers.py). Every failed check raises one of the
-- exceptions of h11/_util.py.
--
-- The files. Each name is the source's, in this language's spelling.
-- Prelude, Prelude/Tests, Prelude/Lists: library names and the lemmas that the parts share.
-- Bytes: `bytes` and its methods. Regex: the `re` patterns and their backtracking matcher, with
--   Regex/Greedy on greedy repetition, Regex/Language and Regex/Complete on the language of a pattern,
--   and Regex/Classes on repeated classes. Numeral, Numeral/Value, Numeral/Hex, Numeral/Three: `int`,
--   `str` and `%x`. Effect: methods that change an object and may raise, as functions from the object to
--   a result and the object.
-- Effect/Ends: what such a method returns, raises and leaves, as one predicate.
-- Util: the exceptions, `validate`, `bytesify` of h11/_util.py, with Util/Validate on `validate` and
--   Util/Outcome on calls that raise nothing but a LocalProtocolError. An exception carries its format
--   string and its status hint.
-- Abnf: every pattern of h11/_abnf.py, with those of h11/_headers.py and h11/_readers.py.
-- Headers: `normalize_and_validate` with the state of its loop, `get_comma_header`,
--   `set_comma_header`, `has_expect_100_continue` of h11/_headers.py. Headers/Normal: the
--   lists that normalisation returns. Headers/Values: the values that it and `set_comma_header` keep.
--   Headers/Items: the sequence methods of `Headers`. Headers/Idempotent: normalisation done twice.
-- Events: the event classes of h11/_events.py and their constructors. Events/WellFormed, Events/Outcome:
--   what the constructors accept and raise.
-- State: the tables and the record of h11/_state.py. State/Machine: the methods of `ConnectionState`.
--   State/Steps: calls as a step relation. State/Fixpoint, State/Reach, State/Error, State/Cycle,
--   State/Faults: the loop, the reachable states, failure, the cycles, and what the tables let through.
--   State/Opening, State/Waiting, State/Settled: SEND_BODY, 100-continue, and settled states.
-- ReceiveBuffer: the methods of h11/_receivebuffer.py. ReceiveBuffer/Search, ReceiveBuffer/Valid: the
--   invariant of its search positions. ReceiveBuffer/Lines: header blocks.
--   ReceiveBuffer/Shrinks: what an extraction leaves.
-- Readers/Parse: folded lines, header lines, request and status lines of h11/_readers.py. Readers: the
--   body readers. Readers/Table: `READERS`. Readers/ChunkHeader, Readers/Chunks, Readers/Body: reading a
--   chunked body. Readers/Counted: reading a body of declared length. Readers/Lines,
--   Readers/Outcome, Readers/ChunkOutcome, Readers/Called: what a call of a reader returns and raises.
--   Readers/Progress: what it takes from the buffer. Readers/RequestLine, Readers/StatusLine,
--   Readers/HeaderLine, Readers/Written, Readers/Answered: the lines of a request or a response that was
--   written.
-- Writers: h11/_writers.py. Writers/Counted: writing a body of declared length.
--   Writers/HostFirst: the order of the headers.
-- Framing: `_keep_alive` and `_body_framing` of h11/_connection.py. Framing/Normal: framing by
--   normalised headers. Connection: the object, `receive_data` and `start_next_cycle`.
--   Connection/Process: `_process_event`. Connection/Receive, Connection/Send, Connection/Cleanup:
--   `next_event`, `send` and the headers of a response to be sent. Connection/Calls: a connection in
--   use, as a step relation, on the lemmas of Connection/Updates, Connection/Below and
--   Connection/Refines. Connection/Fails: what is left after an exception.
--   Connection/Paused, Connection/NeedData: when reading stops. Connection/LastCycle: keep-alive.
--   Connection/Rest, Connection/Resting, Connection/Cycled: a connection between calls, and
--   `start_next_cycle`. Connection/Coherent, Connection/Kept, Connection/Good: the reader and the peer's
--   state, through `_process_event`. Connection/CleanEvent, Connection/Sent, Connection/Extract,
--   Connection/Safe, Connection/Uses: the same through every public method. Connection/Consumed,
--   Connection/Progress, Connection/Drain: the calls of `next_event` that no new data separates.
--   Connection/Framed, Connection/Closing: the headers of a response after clean-up.
--   Connection/Fields, Connection/Untouched: rules for what a method leaves alone.
-- Diagrams: the edges that docs/source/make-state-diagrams.py draws, before it sorts their texts.
--   Diagrams/Drawn: the machine's changes of state, one by one, and these edges.
-- Tests and its children: runs of the model, and examples of the theorems.
--
-- Bounds and fuel. `fire_state_triggered_transitions` runs its loop on 4 passes: a machine that the rules
-- move goes from DONE, to or from MIGHT_SWITCH_PROTOCOL, and on by MUST_CLOSE to CLOSED, and no rule
-- leads back. A repetition of the matcher is bounded by the length of the input, since a round that
-- reads nothing ends it. Printing a number takes at most as many digits as its value.
--
-- Bytes are lists of natural numbers and all code works for every number, though a program's bytes are
-- below 256. Python's integers are natural numbers: a negative status code cannot be written here. `int`
-- raises a ValueError on more than 4300 decimal digits, as CPython does from 3.11 on unless it is told
-- otherwise; a content length alone can have so many. A status code has three digits, and base 16 has no
-- limit.
--
-- Not modelled: the texts that format arguments give, `Sentinel` (its constants are constructors), the
-- dataclass methods of events, `__repr__` of `Headers`, and the types that only help a type checker; the
-- files that make-state-diagrams.py writes and its calls of `dot`. The examples, the benchmarks and the
-- fuzzer are clients of the library, which do I/O; setup.py and docs/source/conf.py are settings.
pub mod Prelude
pub mod Bytes
pub mod Regex
pub mod Util
pub mod Effect
pub mod Numeral
pub mod Abnf
pub mod Headers
pub mod ReceiveBuffer
pub mod State
pub mod Events
pub mod Framing
pub mod Readers
pub mod Writers
pub mod Connection
pub mod Diagrams
mod Tests
