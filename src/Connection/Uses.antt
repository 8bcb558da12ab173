-- ===== src/Connection/Uses.antt =====
-- A `Connection` of h11/_connection.py in use with well-formed events, and what `next_event` raises.
use h11_py.Prelude.{◌≢◌}
use h11_py.Effect.Ends.{Ends}
use h11_py.Util.{value_error, raise}
use h11_py.Events.WellFormed.{IsEvent}
use h11_py.Connection.{Connection}
use h11_py.Connection.Send.{send, send_with_data_passthrough}
use h11_py.Connection.Calls.{Call, Calls, sending, passing}

-- The events that are sent are well-formed, and sending them raises no ValueError.
abbrev pub IsUse : {c d : Connection} → Call c d → Type 0
IsUse {c} (sending e) = IsEvent e × ((send e c).0 ≢ raise value_error)
IsUse {c} (passing e) = IsEvent e × ((send_with_data_passthrough e c).0 ≢ raise value_error)
IsUse _ = Unit

pub data Uses (c : Connection) : Connection → Type 0 where
  untouched : Uses c c
  then_use : {d e : Connection} → Uses c d → (call : Call d e) → IsUse call → Uses c e
