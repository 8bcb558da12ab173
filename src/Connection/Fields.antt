-- ===== src/Connection/Fields.antt =====
-- The fields that `_process_event` of h11/_connection.py sets, as a rule for what it keeps.
use h11_py.Prelude.{Bool, Option, some, sym, inl, inr, Bool-cases}
use mathlib.Core.Path.{subst}
use h11_py.Effect.{then_do_keeps}
use h11_py.Bytes.{Bytes, bytes, eq_bytes, is_empty}
use h11_py.Framing.{Framing}
use h11_py.Headers.{get_comma_header}
use h11_py.Events.{Event, request, type_of}
use h11_py.Readers.Table.{Reader, reader_for, body_reader}
use h11_py.Writers.{Writer, writer_for, body_writer}
use h11_py.Connection.{
  Connection, io_object, update_writer, update_reader, respond_to_state_changes, on_cstate,
  their_role, their_state, our_state, same_role,
}
use h11_py.Connection.Process.{
  propose_switches, switch_event_of, handle_keep_alive, disables_keep_alive, note_method,
  note_version, note_waiting, process_event,
}
use h11_py.Connection.Updates.{io_object-eq}
use h11_py.State.{Role, client, server, State, States, state_of, ConnectionState, is_state}
use h11_py.State.Machine

-- A predicate that does not look at what processing an event sets.
pub record Ignores (P : Connection → Type 0) : Type 0 where
  pub machine : (c : Connection) (s : ConnectionState) → P c → P (record c { cstate = s })
  pub method : (c : Connection) (m : Option Bytes) → P c → P (record c { request_method = m })
  pub version : (c : Connection) (v : Option Bytes) → P c → P (record c { their_http_version = v })
  pub waiting :
      (c : Connection) (b : Bool) → P c → P (record c { client_is_waiting_for_100_continue = b })
  pub reader : (c : Connection) (rd : Option Reader) → P c → P (record c { reader = rd })
  pub writer : (c : Connection) (w : Option Writer) → P c → P (record c { writer = w })

module _ (P : Connection → Type 0) (i : Ignores P) where
  io_object_keeps :
      {A : Type 0} (table : Role → State → Option A) (body : Framing → A) (r : Role)
      (e : Option Event) (c : Connection)
      → P c
      → P (io_object table body r e c).1
  io_object_keeps table body r e c p = subst P (sym (io_object-eq table body r e c)) p

  update_writer_keeps :
      (old : States) (e : Option Event) (c : Connection) → P c → P (update_writer old e c).1
  update_writer_keeps old e c p =
      elim (Bool-cases (is_state (our_state c) (state_of c.our_role old))) [
        | inl k ↦ rw k p
        | inr k ↦ rw k (
            then_do_keeps P (io_object writer_for body_writer c.our_role e c) _
              (io_object_keeps writer_for body_writer c.our_role e c p) (λ w d p. i.writer d w p))
      ]

  update_reader_keeps :
      (old : States) (e : Option Event) (c : Connection) → P c → P (update_reader old e c).1
  update_reader_keeps old e c p =
      elim (Bool-cases (is_state (their_state c) (state_of (their_role c) old))) [
        | inl k ↦ rw k p
        | inr k ↦ rw k (
            then_do_keeps P (io_object reader_for body_reader (their_role c) e c) _
              (io_object_keeps reader_for body_reader (their_role c) e c p)
              (λ rd d p. i.reader d rd p))
      ]

  pub respond_keeps :
      (old : States) (e : Option Event) (c : Connection)
      → P c
      → P (respond_to_state_changes old e c).1
  unfolding respond_to_state_changes
  respond_keeps old e c p =
      then_do_keeps P (update_writer old e c) _ (update_writer_keeps old e c p)
        (λ _ d p. update_reader_keeps old e d p)

  propose_keeps : (r : Role) (e : Event) (c : Connection) → P c → P (propose_switches r e c).1
  propose_keeps client (request m) c p = elim (Bool-cases (eq_bytes m.method (bytes "CONNECT"))) [
    | inl k ↦ rw k (elim (Bool-cases (is_empty (get_comma_header m.headers (bytes "upgrade")))) [
      | inl h ↦ rw h (i.machine c _ p)
      | inr h ↦ rw h (i.machine c _ p)
    ])
    | inr k ↦ rw k (elim (Bool-cases (is_empty (get_comma_header m.headers (bytes "upgrade")))) [
      | inl h ↦ rw h p
      | inr h ↦ rw h (i.machine c _ p)
    ])
  ]
  propose_keeps server e c p = p
  propose_keeps client e c p = p

  note_method_keeps : (e : Event) (c : Connection) → P c → P (note_method e c)
  note_method_keeps (request m) c p = i.method c _ p
  note_method_keeps _ c p = p

  note_version_keeps : (r : Role) (e : Event) (c : Connection) → P c → P (note_version r e c)
  note_version_keeps r e c p = elim (Bool-cases (same_role r (their_role c))) [
    | inl k ↦ rw k (i.version c _ p)
    | inr k ↦ rw k p
  ]

  handle_keeps : (e : Event) (c : Connection) → P c → P (handle_keep_alive e c).1
  handle_keeps e c p = elim (Bool-cases (disables_keep_alive e)) [
    | inl k ↦ rw k (i.machine c _ p)
    | inr k ↦ rw k p
  ]

  pub process_event_keeps :
      (r : Role) (e : Event) (c : Connection) → P c → P (process_event r e c).1
  unfolding process_event
  process_event_keeps r e c p =
      then_do_keeps P (propose_switches r e c) _ (propose_keeps r e c p) λ _ d p.
        then_do_keeps P
          (on_cstate (Machine.process_event r (type_of e) (switch_event_of r e d.cstate)) d) _
          (i.machine d _ p)
          λ _ d p.
            let n = note_version r e (note_method e d) in
            then_do_keeps P (handle_keep_alive e n) _
              (handle_keeps e n
                (note_version_keeps r e (note_method e d) (note_method_keeps e d p)))
              λ _ d p. respond_keeps c.cstate.states (some e) (note_waiting r e d) (i.waiting d _ p)
