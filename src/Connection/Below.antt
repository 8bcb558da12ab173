-- ===== src/Connection/Below.antt =====
-- The private methods of a `Connection` (h11/_connection.py) and its state machine.
use h11_py.Prelude.{Option, none, some, arith, ◌≡◌, inl, inr, Bool-cases}
use h11_py.Effect.{then_do_keeps}
use h11_py.Util.{Result, ok, raise}
use h11_py.Bytes.{bytes, eq_bytes, is_empty}
use h11_py.Headers.{get_comma_header}
use h11_py.Events.{Event, request, type_of}
use h11_py.Connection.{Connection, on_cstate, respond_to_state_changes, process_error, caught}
use h11_py.Connection.Process.{
  propose_switches, switch_event_of, handle_keep_alive, disables_keep_alive, note_method,
  note_version, note_waiting, process_event,
}
use h11_py.Connection.Updates.{respond-SameMachine}
use h11_py.State.{Role, client, server, States, ConnectionState, switch_upgrade, switch_connect}
use h11_py.State.Machine
use h11_py.State.Steps.{Reach, Step, next, event, fail, disable_keep_alive, propose}

module _ (s : ConnectionState) (our_role : Role) where
  -- The machine of the connection is reached from `s`, and its role is `our_role`.
  abbrev pub Below : Connection → Type 0
  Below c = Reach s c.cstate × (c.our_role ≡ our_role)

  pub stepped :
      (c : Connection) {t : ConnectionState}
      → Below c
      → Step c.cstate t
      → Below (record c { cstate = t })
  stepped c p step = (next p.0 step, p.1)

  pub respond-Below :
      (old : States) (e : Option Event) (c : Connection)
      → Below c
      → Below (respond_to_state_changes old e c).1
  respond-Below old e c p = let (k, r, _) = respond-SameMachine old e c in rw (k, r) p

  pub process_error-Below : (r : Role) (c : Connection) → Below c → Below (process_error r c).1
  unfolding process_error
  process_error-Below r c p =
      respond-Below c.cstate.states none (record c { cstate = Machine.process_error r c.cstate })
        (stepped c p (fail r))

  propose_switches-Below :
      (r : Role) (e : Event) (c : Connection) → Below c → Below (propose_switches r e c).1
  propose_switches-Below client (request r) c p =
      elim (Bool-cases (eq_bytes r.method (bytes "CONNECT"))) [
        | inl k ↦
            rw k (elim (Bool-cases (is_empty (get_comma_header r.headers (bytes "upgrade")))) [
              | inl h ↦ rw h (stepped c p (propose _))
              | inr h ↦ rw h (
                  stepped
                    (record c {
                      cstate = Machine.process_client_switch_proposal switch_connect c.cstate;
                    })
                    (stepped c p (propose switch_connect)) (propose switch_upgrade))
            ])
        | inr k ↦
            rw k (elim (Bool-cases (is_empty (get_comma_header r.headers (bytes "upgrade")))) [
              | inl h ↦ rw h p
              | inr h ↦ rw h (stepped c p (propose _))
            ])
      ]
  propose_switches-Below server e c p = p
  propose_switches-Below client e c p = p

  handle_keep_alive-Below : (e : Event) (c : Connection) → Below c → Below (handle_keep_alive e c).1
  handle_keep_alive-Below e c p = elim (Bool-cases (disables_keep_alive e)) [
    | inl k ↦ rw k (stepped c p disable_keep_alive)
    | inr k ↦ rw k p
  ]

  noted-Below :
      (r : Role) (e : Event) (c : Connection) → Below c → Below (note_version r e (note_method e c))
  noted-Below r e c p = ground arith

  pub process_event-Below :
      (r : Role) (e : Event) (c : Connection) → Below c → Below (process_event r e c).1
  unfolding process_event
  process_event-Below r e c p =
      then_do_keeps Below (propose_switches r e c) _ (propose_switches-Below r e c p) λ _ d q.
        then_do_keeps Below
          (on_cstate (Machine.process_event r (type_of e) (switch_event_of r e d.cstate)) d) _
          (stepped d q (event r (type_of e) (switch_event_of r e d.cstate)))
          λ _ d q.
            then_do_keeps Below (handle_keep_alive e (note_version r e (note_method e d))) _
              (handle_keep_alive-Below e (note_version r e (note_method e d)) (noted-Below r e d q))
              λ _ d q. respond-Below c.cstate.states (some e) (note_waiting r e d) q

  pub caught-Below :
      {A : Type 0} (r : Role) (m : Result A × Connection) → Below m.1 → Below (caught r m).1
  caught-Below r (ok a, c) p = p
  caught-Below r (raise x, c) p =
      then_do_keeps Below (process_error r c) _ (process_error-Below r c p) (λ _ d q. q)
