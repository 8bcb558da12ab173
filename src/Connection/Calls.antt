-- ===== src/Connection/Calls.antt =====
-- A `Connection` (h11/_connection.py) in use: its public methods as a step relation.
use h11_py.Prelude.{ℕ, refl, arith}
use h11_py.Effect.{then_do_keeps}
use h11_py.Bytes.{Bytes}
use h11_py.Events.{Event}
use h11_py.Connection.{Connection, new, receive_data, start_next_cycle}
use h11_py.Connection.Receive.{next_event}
use h11_py.Connection.Send.{send, send_with_data_passthrough, send_failed}
use h11_py.Connection.Below.{Below, process_error-Below}
use h11_py.Connection.Refines.{next_event-Below, pass-Below, cycle-Below}
use h11_py.State.{Role, ConnectionState}
use h11_py.State.Steps.{Reach, here}
use h11_py.State.Reach.{Inv, Reach-Inv}

-- One call of a public method, whether it returns or raises.
pub data Call (c : Connection) : Connection → Type 0 where
  receiving : (content : Bytes) → Call c (receive_data content c).1
  reading : Call c (next_event c).1
  sending : (e : Event) → Call c (send e c).1
  passing : (e : Event) → Call c (send_with_data_passthrough e c).1
  failing : Call c (send_failed c).1
  cycling : Call c (start_next_cycle c).1

pub data Calls (c : Connection) : Connection → Type 0 where
  unused : Calls c c
  then_call : {d e : Connection} → Calls c d → Call d e → Calls c e

receive_data-Below :
    (s : ConnectionState) (r : Role) (content : Bytes) (c : Connection)
    → Below s r c
    → Below s r (receive_data content c).1
unfolding receive_data
receive_data-Below s r content c p = ground arith

Call-Below :
    (s : ConnectionState) (r : Role) {c d : Connection} → Call c d → Below s r c → Below s r d
unfolding send send_failed
Call-Below s r {c} (receiving content) p = receive_data-Below s r content c p
Call-Below s r {c} reading p = next_event-Below s r c p
Call-Below s r {c} (sending e) p =
    then_do_keeps (Below s r) (send_with_data_passthrough e c) _ (pass-Below s r e c p) (λ _ d q. q)
Call-Below s r {c} (passing e) p = pass-Below s r e c p
Call-Below s r {c} failing p = process_error-Below s r c.our_role c p
Call-Below s r {c} cycling p = cycle-Below s r c p

pub Calls-Below : {c d : Connection} → Calls c d → Below c.cstate c.our_role d
Calls-Below unused = (here, refl)
Calls-Below {c} (then_call path call) = Call-Below c.cstate c.our_role call (Calls-Below path)

-- Whatever calls a connection gets, and whether they return or raise, its state machine is in a state
-- that the machine's own methods reach from the one before.
pub Calls-Reach : {c d : Connection} → Calls c d → Reach c.cstate d.cstate
Calls-Reach path = (Calls-Below path).0

-- In every state that a new connection can reach by public calls that return or raise, the states of
-- client and server satisfy the joint invariant of the machine.
pub Calls-Inv : {d : Connection} (r : Role) (limit : ℕ) → Calls (new r limit) d → Inv d.cstate
Calls-Inv r limit path = Reach-Inv (Calls-Reach path)
