-- ===== src/Connection/Refines.antt =====
-- `next_event`, `send` and `start_next_cycle` of h11/_connection.py and the state machine.
use h11_py.Prelude.{not, Option, none, arith, inl, inr, Bool-cases, refl}
use h11_py.Effect.{assert, then_do_keeps}
use h11_py.Util.{Result, ok, raise}
use h11_py.Events.{Event}
use h11_py.Writers.{Writer}
use h11_py.Connection.{
  Connection, start_next_cycle, their_role, their_state, our_state, guarded, on_cstate,
}
use h11_py.Connection.Process.{process_event}
use h11_py.Connection.Receive.{
  Next, event, need_data, paused, extract_next_receive_event, handle_next, as_remote,
  try_next_event, next_event,
}
use h11_py.Connection.Send.{cleaned, write_event, try_send, send_with_data_passthrough}
use h11_py.Connection.Untouched.{extract-SameMachine, cleaned-SameMachine, write_event-SameMachine}
use h11_py.Connection.Below.{Below, stepped, respond-Below, process_event-Below, caught-Below}
use h11_py.State.{Role, State, ConnectionState, is_state, error}
use h11_py.State.Machine
use h11_py.State.Steps.{next_cycle}

module _ (s : ConnectionState) (our_role : Role) where
  extract-Below :
      (c : Connection) → Below s our_role c → Below s our_role (extract_next_receive_event c).1
  extract-Below c p = let (k, r, _) = extract-SameMachine c c (refl, refl, refl) in rw (k, r) p

  cleaned-Below :
      (e : Event) (c : Connection) → Below s our_role c → Below s our_role (cleaned e c).1
  cleaned-Below e c p = let (k, r, _) = cleaned-SameMachine c e c (refl, refl, refl) in rw (k, r) p

  write_event-Below :
      (w : Option Writer) (old : State) (e : Event) (c : Connection)
      → Below s our_role c
      → Below s our_role (write_event w old e c).1
  write_event-Below w old e c p =
      let (k, r, _) = write_event-SameMachine c w old e c (refl, refl, refl) in rw (k, r) p

  handle_next-Below :
      (n : Next) (c : Connection) → Below s our_role c → Below s our_role (handle_next n c).1
  handle_next-Below (event e) c p = process_event-Below s our_role (their_role c) e c p
  handle_next-Below paused c p = p
  handle_next-Below need_data c p = ground arith

  as_remote-Below :
      (m : Result Next × Connection) → Below s our_role m.1 → Below s our_role (as_remote m).1
  as_remote-Below (ok n, c) p = p
  as_remote-Below (raise x, c) p = p

  pub next_event-Below : (c : Connection) → Below s our_role c → Below s our_role (next_event c).1
  unfolding next_event try_next_event
  next_event-Below c p = elim (Bool-cases (is_state (their_state c) error)) [
    | inl k ↦ rw k p
    | inr k ↦ rw k (
        as_remote-Below (guarded (their_role c) try_next_event c) (
          caught-Below s our_role (their_role c) (try_next_event c) (
            then_do_keeps (Below s our_role) (extract_next_receive_event c) _ (extract-Below c p)
              λ n d q.
                then_do_keeps (Below s our_role) (handle_next n d) _ (handle_next-Below n d q)
                  λ _ d r. r)))
  ]

  try_send-Below :
      (e : Event) (c : Connection) → Below s our_role c → Below s our_role (try_send e c).1
  unfolding try_send
  try_send-Below e c p =
      then_do_keeps (Below s our_role) (cleaned e c) _ (cleaned-Below e c p) λ e' d q.
        then_do_keeps (Below s our_role) (process_event c.our_role e' d) _
          (process_event-Below s our_role c.our_role e' d q)
          (λ _. write_event-Below c.writer (our_state c) e')

  pub pass-Below :
      (e : Event) (c : Connection)
      → Below s our_role c
      → Below s our_role (send_with_data_passthrough e c).1
  unfolding send_with_data_passthrough
  pass-Below e c p = elim (Bool-cases (is_state (our_state c) error)) [
    | inl k ↦ rw k p
    | inr k ↦ rw k (caught-Below s our_role c.our_role (try_send e c) (try_send-Below e c p))
  ]

  pub cycle-Below : (c : Connection) → Below s our_role c → Below s our_role (start_next_cycle c).1
  unfolding start_next_cycle
  cycle-Below c p =
      then_do_keeps (Below s our_role) (on_cstate Machine.start_next_cycle c) _
        (stepped s our_role c p next_cycle)
        λ _ d q.
          then_do_keeps (Below s our_role)
            (assert (not c.client_is_waiting_for_100_continue) (record d { request_method = none }))
            _ (ground arith) λ _ d q. respond-Below s our_role c.cstate.states none d q
