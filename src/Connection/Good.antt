-- ===== src/Connection/Good.antt =====
-- `_process_event` and `_process_error` of h11/_connection.py keep the reader and the buffer usable.
use h11_py.Prelude.{Option, some, ◌≡◌, refl, sym, ◌⊎◌, inl, inr}
use mathlib.Core.Path.{subst}
use h11_py.Effect.Ends.{Ends, then-Ends, weaken-Ends}
use h11_py.Util.{Exn, value_error}
use h11_py.Events.{Event, type_of}
use h11_py.Events.WellFormed.{IsEvent}
use h11_py.ReceiveBuffer.Valid.{IsValid}
use h11_py.Connection.{
  Connection, on_cstate, respond_to_state_changes, process_error, their_role, their_state, other,
}
use h11_py.Connection.Process.{
  propose_switches, switch_event_of, handle_keep_alive, note_method, note_version, note_waiting,
  process_event,
}
use h11_py.Connection.Coherent.{
  Coherent, Opens, TooLong, opening-CanFrame, responded, responded_alone,
}
use h11_py.State.{Role, client, server, States, state_of, ConnectionState}
use h11_py.State.Machine
use h11_py.State.Faults.{peer_state}
use h11_py.State.Fixpoint.{IsSettled}
use h11_py.State.Opening.{process_error-NotBody}
use h11_py.Connection.Kept.{
  Kept, Unmoved, Faults, Proposing, propose_switches-Kept, machine-Kept, switch-AtServer,
  handle_keep_alive-Kept, note_method-Kept, note_version-Kept, elsewhere,
}

-- The reader fits, the buffer is valid.
pub record IsGood (c : Connection) : Type 0 where
  pub reader : Coherent (their_role c) (their_state c) c.reader
  pub buffer : IsValid c.receive_buffer

pub responded-IsGood :
    (old : States) (event : Option Event) (c : Connection) (E : Exn → Connection → Type 0)
    → Opens old c.cstate.states c.request_method event
    → Coherent (their_role c) (state_of (their_role c) old) c.reader
    → IsValid c.receive_buffer
    → ((d : Connection) → TooLong event value_error → E value_error d)
    → Ends (λ _ d. IsGood d × (d.our_role ≡ c.our_role)) E (respond_to_state_changes old event c)
responded-IsGood old event c E o h v l = elim (responded old event c o) [
  | inl (w, rd, e, p) ↦ rw e (record { reader = p h; buffer = v }, refl)
  | inr (d, e, t) ↦ rw e (l d t)
]

kept-Opens :
    (b : Connection) (e : Event) (c : Connection)
    → IsEvent e
    → Kept b e c
    → Opens b.cstate.states c.cstate.states c.request_method (some e)
kept-Opens b e c v k q n = elim (k.closed_bodies q n) [
  | inl m ↦ inl m
  | inr o ↦ inr (opening-CanFrame c.request_method e v o)
]

kept-Coherent :
    (b : Connection) (e : Event) (c : Connection)
    → IsGood b
    → Kept b e c
    → Coherent (their_role c) (state_of (their_role c) b.cstate.states) c.reader
kept-Coherent b e c g k = rw (k.role, k.reader) g.reader

last_step :
    (b : Connection) (e : Event) (c : Connection) (E : Exn → Connection → Type 0)
    → IsEvent e
    → IsGood b
    → Kept b e c
    → ((d : Connection) → E value_error d)
    → Ends
        (λ _ d. IsGood d × (d.our_role ≡ b.our_role))
        E
        (respond_to_state_changes b.cstate.states (some e) c)
last_step b e c E v g k l =
    subst
      (λ r.
        Ends (λ _ d. IsGood d × (d.our_role ≡ r)) E
          (respond_to_state_changes b.cstate.states (some e) c))
      k.role
      (responded-IsGood b.cstate.states (some e) c E (kept-Opens b e c v k)
        (kept-Coherent b e c g k) (subst IsValid (sym k.buffer) g.buffer) (λ d t. l d))

-- A fault of the state machine, or the ValueError of a content length that is too long for `int`.
abbrev pub Raises : Role → Connection → Exn → Connection → Type 0
Raises r b x c = Faults r b x c ⊎ (x ≡ value_error)

-- `_process_event` on a well-formed event, with a settled machine, returns and leaves a reader that
-- fits and a valid buffer; or it raises a LocalProtocolError or an AttributeError and leaves the
-- reader, the buffer and the other role's state alone; or it raises a ValueError.
pub process_event-IsGood :
    (r : Role) (e : Event) (c : Connection)
    → IsEvent e
    → IsGood c
    → IsSettled c.cstate
    → Ends (λ _ d. IsGood d × (d.our_role ≡ c.our_role)) (Raises r c) (process_event r e c)
unfolding process_event
process_event-IsGood r e c v g s =
    let kept : Kept c e c = record {
      role = refl;
      reader = refl;
      buffer = refl;
      closed_bodies = λ q n. inl n;
    } in
    let unmoved : Unmoved r c c = record {
      role = refl;
      reader = refl;
      buffer = refl;
      peer = refl;
    } in
    then-Ends (λ _ d. Proposing c e r d) _ _ (propose_switches r e c) _
      (propose_switches-Kept (Raises r c) c e r c (kept, unmoved, s))
      λ _ d k.
        let w = switch_event_of r e d.cstate in
        then-Ends (λ _ d. Kept c e d) _ _ (on_cstate (Machine.process_event r (type_of e) w) d) _
          (weaken-Ends _ _ (Faults r c) (Raises r c)
            (on_cstate (Machine.process_event r (type_of e) w) d) (λ _ _ k. k) (λ x d f. inl f)
            (machine-Kept c e r w d (switch-AtServer r e d.cstate) (k.0, k.1)))
          λ _ d k.
            let n = note_version r e (note_method e d) in
            then-Ends (λ _ d. Kept c e d) _ _ (handle_keep_alive e n) _
              (handle_keep_alive-Kept (Raises r c) c e n
                (note_version-Kept c e r (note_method e d) (note_method-Kept c e e d k)))
              λ _ d k.
                last_step c e (note_waiting r e d) (Raises r c) v g
                  (elsewhere refl refl refl refl k) (λ _. inr refl)

-- `_process_error` returns, whatever the reader, and what fitted fits.
pub process_error-returns :
    (r : Role) (c : Connection) (E : Exn → Connection → Type 0)
    → Ends (λ _ d. (IsGood c → IsGood d) × (d.our_role ≡ c.our_role)) E (process_error r c)
unfolding process_error
process_error-returns r c E =
    let (w, rd, e, p) =
      responded_alone c.cstate.states (record c { cstate = Machine.process_error r c.cstate })
        (λ q n. process_error-NotBody q r c.cstate n) in
    rw e (λ g. record { reader = p g.reader; buffer = g.buffer }, refl)

their_peer : (r : Role) (s : ConnectionState) → state_of (other r) s.states ≡ peer_state r s
their_peer client s = refl
their_peer server s = refl

-- An exception of `our_role`'s event leaves the reader fit for the peer's state.
pub Unmoved-IsGood : (b c : Connection) → Unmoved b.our_role b c → IsGood b → IsGood c
Unmoved-IsGood b c u g = record {
  reader =
      rw
        (u.role, u.reader, their_peer b.our_role c.cstate, u.peer, ← their_peer b.our_role b.cstate)
        g.reader;
  buffer = rw u.buffer g.buffer;
}
