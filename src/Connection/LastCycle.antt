-- ===== src/Connection/LastCycle.antt =====
-- Keep-alive in h11/_connection.py: an event that ends it, and the calls after that event.
use h11_py.Prelude.{true, false, Option, some, ◌≡◌, ◌≢◌, refl, sym}
use mathlib.Core.Path.{subst}
use h11_py.Effect.{Eff, then_do}
use h11_py.Util.{Result, ok, raise}
use h11_py.Events.{Event, type_of}
use h11_py.Connection.{Connection, on_cstate, respond_to_state_changes}
use h11_py.Connection.Process.{
  propose_switches, switch_event_of, handle_keep_alive, disables_keep_alive, note_method,
  note_version, note_waiting, process_event,
}
use h11_py.Connection.Updates.{respond-SameMachine}
use h11_py.Connection.Calls.{Calls, Calls-Reach}
use h11_py.State.{Role, States, idle, state_of, ConnectionState}
use h11_py.State.Machine
use h11_py.State.Machine.{with_states, round, process_keep_alive_disabled}
use h11_py.State.Fixpoint.{fire_keeps}
use h11_py.State.Cycle.{Reach-InLastCycle}

-- The second part of a sequence that returned, and where it started.
abbrev Follows : {S A B : Type 0} → Result A × S → (A → Eff S B) → B → Type 0
Follows {S} {A} m f b = (a : A) × (m.0 ≡ ok a) × ((f a m.1).0 ≡ ok b) × (then_do m f ≡ f a m.1)

then_do-Follows :
    {S A B : Type 0} (m : Result A × S) (f : A → Eff S B) {b : B}
    → (then_do m f).0 ≡ ok b
    → Follows m f b
then_do-Follows (ok a, s) f h = (a, refl, h, refl)
then_do-Follows (raise e, s) f h = cc

abbrev Closing : ConnectionState → Type 0
Closing s = s.keep_alive ≡ false

round-Closing : (s : ConnectionState) → Closing s → Closing (with_states (round s) s)
round-Closing s h = h

disabled-Closing : (s : ConnectionState) → Closing (process_keep_alive_disabled s)
unfolding process_keep_alive_disabled
disabled-Closing s = fire_keeps Closing round-Closing (record s { keep_alive = false }) refl

handle-Closing :
    (e : Event) (c : Connection)
    → disables_keep_alive e ≡ true
    → Closing (handle_keep_alive e c).1.cstate
handle-Closing e c h = rw h (disabled-Closing c.cstate)

respond-Closing :
    (old : States) (e : Option Event) (c : Connection)
    → Closing c.cstate
    → Closing (respond_to_state_changes old e c).1.cstate
respond-Closing old e c p = subst Closing (sym (respond-SameMachine old e c).0) p

process_event-Closing :
    (r : Role) (e : Event) (c : Connection)
    → disables_keep_alive e ≡ true
    → (process_event r e c).0 ≡ ok tt
    → Closing (process_event r e c).1.cstate
unfolding process_event
process_event-Closing r e c d h =
    let (u, _, h1, q1) = then_do-Follows (propose_switches r e c) _ h in
    let c1 = (propose_switches r e c).1 in
    let m = on_cstate (Machine.process_event r (type_of e) (switch_event_of r e c1.cstate)) c1 in
    let (u2, _, h2, q2) = then_do-Follows m _ h1 in
    let n = note_version r e (note_method e m.1) in
    let (u3, _, h3, q3) = then_do-Follows (handle_keep_alive e n) _ h2 in
    subst (λ x. Closing x.1.cstate) (sym q1)
      (subst (λ x. Closing x.1.cstate) (sym q2)
        (subst (λ x. Closing x.1.cstate) (sym q3)
          (respond-Closing c.cstate.states (some e) (note_waiting r e (handle_keep_alive e n).1)
            (handle-Closing e n d))))

-- Once a connection has processed a message that forbids keep-alive, no calls, whether they return or
-- raise, turn keep-alive on again, and a role that was not IDLE then is never IDLE again: the
-- connection is not reused.
pub process_event-InLastCycle :
    (r : Role) (e : Event) (c : Connection) {d : Connection} (q : Role)
    → disables_keep_alive e ≡ true
    → (process_event r e c).0 ≡ ok tt
    → state_of q (process_event r e c).1.cstate.states ≢ idle
    → Calls (process_event r e c).1 d
    → (d.cstate.keep_alive ≡ false) × (state_of q d.cstate.states ≢ idle)
process_event-InLastCycle r e c q a h i calls =
    Reach-InLastCycle q (Calls-Reach calls) (process_event-Closing r e c a h, i)
