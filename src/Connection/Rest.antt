-- ===== src/Connection/Rest.antt =====
-- A `Connection` of h11/_connection.py between the calls of its public methods.
use h11_py.Prelude.{Bool, false, Option, none, some, ◌≡◌, refl, inl, inr, Bool-cases}
use mathlib.Core.Path.{subst}
use h11_py.Effect.{then_do_keeps}
use h11_py.Effect.Ends.{Ends, then-Ends}
use h11_py.Util.{Result, ok, raise}
use h11_py.Bytes.{bytes, eq_bytes, is_empty}
use h11_py.Headers.{get_comma_header, has_expect_100_continue}
use h11_py.Events.{
  Event, request, informational_response, response, data_, end_of_message, connection_closed,
  type_of,
}
use h11_py.Connection.{
  Connection, on_cstate, respond_to_state_changes, process_error, caught, their_role, same_role,
}
use h11_py.Connection.Process.{
  propose_switches, switch_event_of, handle_keep_alive, disables_keep_alive, note_method,
  note_version, note_waiting, waits_after, process_event,
}
use h11_py.Connection.Updates.{respond-SameMachine}
use h11_py.State.{
  Role, client, server, States, ConnectionState, Switch, switch_upgrade, switch_connect,
}
use h11_py.State.Machine
use h11_py.State.Fixpoint.{IsSettled}
use h11_py.State.Settled.{
  Settles, process_event-Settles, process_error-IsSettled, disable-IsSettled, propose-IsSettled,
}
use h11_py.State.Waiting.{
  Waits, waiting_after, disable-Waits, propose-Waits, process_error-Waits, process_event-Waits,
}

abbrev pub Waiting : Connection → Type 0
Waiting c = Waits c.client_is_waiting_for_100_continue c.cstate

-- No state-triggered transition is enabled, and a client that waits is in SEND_BODY or ERROR.
abbrev pub AtRest : Connection → Type 0
AtRest c = IsSettled c.cstate × Waiting c

-- A call that returns leaves a connection at rest; one that raises may leave transitions to make.
abbrev pub Rests : {A : Type 0} → Result A × Connection → Type 0
Rests m = Ends (λ _ c. AtRest c) (λ _ c. Waiting c) m

proposed :
    (w : Switch) (c : Connection)
    → AtRest c
    → AtRest (record c { cstate = Machine.process_client_switch_proposal w c.cstate })
proposed w c (s, h) = (propose-IsSettled w c.cstate, propose-Waits _ w c.cstate h)

propose_switches-AtRest :
    (r : Role) (e : Event) (c : Connection) → AtRest c → Rests (propose_switches r e c)
propose_switches-AtRest client (request m) c k =
    elim (Bool-cases (eq_bytes m.method (bytes "CONNECT"))) [
      | inl h ↦ rw h (elim (Bool-cases (is_empty (get_comma_header m.headers (bytes "upgrade")))) [
        | inl i ↦ rw i (proposed _ c k)
        | inr i ↦ rw i (
            proposed switch_upgrade
              (record c { cstate = Machine.process_client_switch_proposal switch_connect c.cstate })
              (proposed switch_connect c k))
      ])
      | inr h ↦ rw h (elim (Bool-cases (is_empty (get_comma_header m.headers (bytes "upgrade")))) [
        | inl i ↦ rw i k
        | inr i ↦ rw i (proposed _ c k)
      ])
    ]
propose_switches-AtRest server e c k = k
propose_switches-AtRest client e c k = k

-- What the flag on 100-continue will be.
abbrev Resting : Role → Event → Connection → Type 0
Resting r e c =
    IsSettled c.cstate × Waits (waits_after r e c.client_is_waiting_for_100_continue) c.cstate

abbrev expects : Event → Bool
expects (request r) = has_expect_100_continue r.http_version r.headers
expects _ = false

waits_after_eq :
    (r : Role) (e : Event) (b : Bool)
    → waiting_after r (type_of e) (expects e) b ≡ waits_after r e b
waits_after_eq r (request m) b = refl
waits_after_eq r (informational_response m) b = refl
waits_after_eq r (response m) b = refl
waits_after_eq client (data_ d) b = refl
waits_after_eq server (data_ d) b = refl
waits_after_eq client (end_of_message hs) b = refl
waits_after_eq server (end_of_message hs) b = refl
waits_after_eq r connection_closed b = refl

-- A call of the machine's `process_event`, put back into the connection.
put_back :
    (r : Role) (e : Event) (c : Connection) (m : Result (Unit {0}) × ConnectionState)
    → Settles m
    → Ends
        (λ _ t.
          Waits (waiting_after r (type_of e) (expects e) c.client_is_waiting_for_100_continue) t)
        (λ _ t. Waits c.client_is_waiting_for_100_continue t)
        m
    → Ends (λ _ d. Resting r e d) (λ _ d. Waiting d) (m.0, record c { cstate = m.1 })
put_back r e c (ok _, s) p q =
    (p, subst (λ b. Waits b s) (waits_after_eq r e c.client_is_waiting_for_100_continue) q)
put_back r e c (raise x, s) p q = q

machine-Resting :
    (r : Role) (e : Event) (w : Option Switch) (c : Connection)
    → AtRest c
    → Ends
        (λ _ d. Resting r e d)
        (λ _ d. Waiting d)
        (on_cstate (Machine.process_event r (type_of e) w) c)
machine-Resting r e w c (s, h) =
    put_back r e c (Machine.process_event r (type_of e) w c.cstate)
      (process_event-Settles r (type_of e) w c.cstate)
      (process_event-Waits c.client_is_waiting_for_100_continue (expects e) r (type_of e) w c.cstate
        h)

note_method-Resting :
    (r : Role) (e f : Event) (c : Connection) → Resting r e c → Resting r e (note_method f c)
note_method-Resting r e (request m) c k = k
note_method-Resting r e _ c k = k

note_version-Resting :
    (r : Role) (e : Event) (c : Connection) → Resting r e c → Resting r e (note_version r e c)
note_version-Resting r e c k = elim (Bool-cases (same_role r (their_role c))) [
  | inl h ↦ rw h k
  | inr h ↦ rw h k
]

handle_keep_alive-Resting :
    (r : Role) (e : Event) (c : Connection)
    → Resting r e c
    → Ends (λ _ d. Resting r e d) (λ _ d. Waiting d) (handle_keep_alive e c)
handle_keep_alive-Resting r e c (s, h) = elim (Bool-cases (disables_keep_alive e)) [
  | inl k ↦ rw k (disable-IsSettled c.cstate, disable-Waits _ c.cstate h)
  | inr k ↦ rw k (s, h)
]

-- Updating the reader and the writer matters to neither part.
pub respond-AtRest :
    (old : States) (e : Option Event) (c : Connection)
    → AtRest c
    → AtRest (respond_to_state_changes old e c).1
respond-AtRest old e c k = let (s, r, w) = respond-SameMachine old e c in rw (s, w) k

pub rests : {A : Type 0} (m : Result A × Connection) → AtRest m.1 → Rests m
rests (ok a, c) p = p
rests (raise x, c) (s, h) = h

-- `_process_event`, on any event.
pub process_event-Rests :
    (r : Role) (e : Event) (c : Connection) → AtRest c → Rests (process_event r e c)
unfolding process_event
process_event-Rests r e c k =
    then-Ends (λ _ d. AtRest d) _ _ (propose_switches r e c) _ (propose_switches-AtRest r e c k)
      λ _ d k.
        then-Ends (λ _ d. Resting r e d) _ _
          (on_cstate (Machine.process_event r (type_of e) (switch_event_of r e d.cstate)) d) _
          (machine-Resting r e (switch_event_of r e d.cstate) d k)
          λ _ d k.
            let n = note_version r e (note_method e d) in
            then-Ends (λ _ d. Resting r e d) _ _ (handle_keep_alive e n) _
              (handle_keep_alive-Resting r e n
                (note_version-Resting r e (note_method e d) (note_method-Resting r e e d k)))
              λ _ d k.
                rests (respond_to_state_changes c.cstate.states (some e) (note_waiting r e d))
                  (respond-AtRest c.cstate.states (some e) (note_waiting r e d) k)

pub process_error-AtRest : (r : Role) (c : Connection) → Waiting c → AtRest (process_error r c).1
unfolding process_error
process_error-AtRest r c h =
    respond-AtRest c.cstate.states none (record c { cstate = Machine.process_error r c.cstate })
      (process_error-IsSettled r c.cstate, process_error-Waits _ r c.cstate h)

pub caught-AtRest :
    {A : Type 0} (r : Role) (m : Result A × Connection) → Rests m → AtRest (caught r m).1
caught-AtRest r (ok a, c) k = k
caught-AtRest r (raise x, c) h =
    then_do_keeps AtRest (process_error r c) _ (process_error-AtRest r c h) (λ _ d p. p)
