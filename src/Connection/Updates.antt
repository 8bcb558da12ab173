-- ===== src/Connection/Updates.antt =====
-- Updating the reader and the writer (h11/_connection.py, `_respond_to_state_changes`).
use h11_py.Prelude.{Option, none, some, ◌≡◌, inl, inr, refl, sym, Bool-cases}
use mathlib.Core.Path.{subst}
use h11_py.Effect.{then_do_keeps}
use h11_py.Framing.{Framing, body_framing}
use h11_py.Readers.Table.{reader_for, body_reader}
use h11_py.Writers.{writer_for, body_writer}
use h11_py.Util.{Result-cases}
use h11_py.Events.{Event}
use h11_py.Connection.{
  Connection, io_object, update_writer, update_reader, their_role, their_state, our_state,
  respond_to_state_changes,
}
use h11_py.State.{Role, State, send_body, States, state_of, is_state}

-- The state machine, the role and the flag on 100-continue of `b`, whatever else of `c` differs.
abbrev pub SameMachine : Connection → Connection → Type 0
SameMachine b c =
    (c.cstate ≡ b.cstate)
    × (c.our_role ≡ b.our_role)
    × (c.client_is_waiting_for_100_continue ≡ b.client_is_waiting_for_100_continue)

pub io_object-eq :
    {A : Type 0} (table : Role → State → Option A) (body : Framing → A) (r : Role)
    (e : Option Event) (c : Connection)
    → (io_object table body r e c).1 ≡ c
io_object-eq table body r none c =
    elim (Bool-cases (is_state (state_of r c.cstate.states) send_body)) [
      | inl h ↦ rw h
      | inr h ↦ rw h
    ]
io_object-eq table body r (some e) c =
    elim (Bool-cases (is_state (state_of r c.cstate.states) send_body)) [
      | inl h ↦ rw h (elim (Result-cases (body_framing c.request_method e)) [
        | inl (f, k) ↦ rw k
        | inr (x, k) ↦ rw k
      ])
      | inr h ↦ rw h
    ]

update_writer-SameMachine :
    (b : Connection) (old : States) (e : Option Event) (c : Connection)
    → SameMachine b c
    → SameMachine b (update_writer old e c).1
update_writer-SameMachine b old e c h =
    elim (Bool-cases (is_state (our_state c) (state_of c.our_role old))) [
      | inl k ↦ rw k h
      | inr k ↦ rw k (
          then_do_keeps (SameMachine b) (io_object writer_for body_writer c.our_role e c) _
            (subst (SameMachine b) (sym (io_object-eq writer_for body_writer c.our_role e c)) h)
            (λ w d p. p))
    ]

update_reader-SameMachine :
    (b : Connection) (old : States) (e : Option Event) (c : Connection)
    → SameMachine b c
    → SameMachine b (update_reader old e c).1
update_reader-SameMachine b old e c h =
    elim (Bool-cases (is_state (their_state c) (state_of (their_role c) old))) [
      | inl k ↦ rw k h
      | inr k ↦ rw k (
          then_do_keeps (SameMachine b) (io_object reader_for body_reader (their_role c) e c) _
            (subst (SameMachine b) (sym (io_object-eq reader_for body_reader (their_role c) e c)) h)
            (λ w d p. p))
    ]

-- Updating the reader and the writer leaves the state machine alone.
pub respond-SameMachine :
    (old : States) (e : Option Event) (c : Connection)
    → SameMachine c (respond_to_state_changes old e c).1
unfolding respond_to_state_changes
respond-SameMachine old e c =
    then_do_keeps (SameMachine c) (update_writer old e c) _
      (update_writer-SameMachine c old e c (refl, refl, refl))
      (λ _ d p. update_reader-SameMachine c old e d p)
