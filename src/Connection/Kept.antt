-- ===== src/Connection/Kept.antt =====
-- The steps of `_process_event` in h11/_connection.py: what they leave alone, and what they raise.
use h11_py.Prelude.{true, Option, ◌≡◌, ◌⊎◌, refl, sym, ◌∙◌, inl, inr, Bool-cases}
use mathlib.Core.Path.{subst}
use h11_py.Effect.Ends.{Ends}
use h11_py.Util.{Exn, Result, ok, raise}
use h11_py.Bytes.{bytes, eq_bytes, is_empty}
use h11_py.Headers.{get_comma_header}
use h11_py.Events.{Event, request, type_of}
use h11_py.Connection.{Connection, on_cstate, their_role, same_role}
use h11_py.Connection.Process.{
  propose_switches, switch_event_of, handle_keep_alive, disables_keep_alive, note_method,
  note_version,
}
use h11_py.State.{Role, client, server, ConnectionState, Switch, switch_upgrade, switch_connect}
use h11_py.State.Machine
use h11_py.State.Faults.{IsFault, AtServer, peer_state, Stays, process_event-Stays}
use h11_py.State.Fixpoint.{IsSettled}
use h11_py.State.Settled.{propose-IsSettled, propose-of_server}
use h11_py.State.Opening.{
  NotBody, is_opening, process_event-NotBody, disable-NotBody, propose-NotBody,
}

-- What the steps of `_process_event` before the last one leave alone, from `b` on.
pub record Kept (b : Connection) (e : Event) (c : Connection) : Type 0 where
  pub role : c.our_role ≡ b.our_role
  pub reader : c.reader ≡ b.reader
  pub buffer : c.receive_buffer ≡ b.receive_buffer
  pub closed_bodies :
      (q : Role) → NotBody q b.cstate → NotBody q c.cstate ⊎ (is_opening (type_of e) ≡ true)

-- A change of the state machine that opens no body.
changed :
    (b : Connection) (e : Event) (c : Connection) (s : ConnectionState)
    → Kept b e c
    → ((q : Role) → NotBody q c.cstate → NotBody q s ⊎ (is_opening (type_of e) ≡ true))
    → Kept b e (record c { cstate = s })
changed b e c s k h = record {
  role = k.role;
  reader = k.reader;
  buffer = k.buffer;
  closed_bodies = λ q n. elim (k.closed_bodies q n) [ inl m ↦ h q m | inr o ↦ inr o ];
}

-- A step that returns and keeps.
abbrev Keeps : Connection → Event → Result (Unit {0}) × Connection → Type 0
Keeps b e m = Ends (λ _ c. Kept b e c) (λ _ _. ⊥) m

-- An exception of the state machine, which leaves the other role where it was.
pub record Unmoved (r : Role) (b : Connection) (c : Connection) : Type 0 where
  pub role : c.our_role ≡ b.our_role
  pub reader : c.reader ≡ b.reader
  pub buffer : c.receive_buffer ≡ b.receive_buffer
  pub peer : peer_state r c.cstate ≡ peer_state r b.cstate

abbrev pub Faults : Role → Connection → Exn → Connection → Type 0
Faults r b x c = IsFault x × Unmoved r b c

-- A connection with a settled machine, before the event is processed.
abbrev pub Proposing : Connection → Event → Role → Connection → Type 0
Proposing b e r c = Kept b e c × Unmoved r b c × IsSettled c.cstate

proposed :
    (b : Connection) (e : Event) (w : Switch) (c : Connection)
    → Proposing b e client c
    → Proposing b e client (record c { cstate = Machine.process_client_switch_proposal w c.cstate })
proposed b e w c (k, u, s) = (
  changed b e c _ k (λ q n. inl (propose-NotBody q w c.cstate n)),
  record {
    role = u.role;
    reader = u.reader;
    buffer = u.buffer;
    peer = propose-of_server w c.cstate s ∙ u.peer;
  },
  propose-IsSettled w c.cstate,
)

module _ (E : Exn → Connection → Type 0) where
  pub propose_switches-Kept :
      (b : Connection) (e : Event) (r : Role) (c : Connection)
      → Proposing b e r c
      → Ends (λ _ c. Proposing b e r c) E (propose_switches r e c)
  propose_switches-Kept b (request m) client c k =
      elim (Bool-cases (eq_bytes m.method (bytes "CONNECT"))) [
        | inl h ↦
            rw h (elim (Bool-cases (is_empty (get_comma_header m.headers (bytes "upgrade")))) [
              | inl i ↦ rw i (proposed b (request m) _ c k)
              | inr i ↦ rw i (
                  proposed b (request m) switch_upgrade
                    (record c {
                      cstate = Machine.process_client_switch_proposal switch_connect c.cstate;
                    })
                    (proposed b (request m) switch_connect c k))
            ])
        | inr h ↦
            rw h (elim (Bool-cases (is_empty (get_comma_header m.headers (bytes "upgrade")))) [
              | inl i ↦ rw i k
              | inr i ↦ rw i (proposed b (request m) _ c k)
            ])
      ]
  propose_switches-Kept b e server c k = k
  propose_switches-Kept b e client c k = k

  pub handle_keep_alive-Kept :
      (b : Connection) (e : Event) (c : Connection)
      → Kept b e c
      → Ends (λ _ c. Kept b e c) E (handle_keep_alive e c)
  handle_keep_alive-Kept b e c k = elim (Bool-cases (disables_keep_alive e)) [
    | inl h ↦ rw h (changed b e c _ k (λ q n. inl (disable-NotBody q c.cstate n)))
    | inr h ↦ rw h k
  ]

-- A change of fields that `Kept` does not mention.
pub elsewhere :
    {b : Connection} {e : Event} {c d : Connection}
    → (d.our_role ≡ c.our_role)
    → (d.reader ≡ c.reader)
    → (d.receive_buffer ≡ c.receive_buffer)
    → (d.cstate ≡ c.cstate)
    → Kept b e c
    → Kept b e d
elsewhere {b} {e} {c} {d} h i j l k = record {
  role = h ∙ k.role;
  reader = i ∙ k.reader;
  buffer = j ∙ k.buffer;
  closed_bodies = λ q n.
      subst (λ s. NotBody q s ⊎ (is_opening (type_of e) ≡ true)) (sym l) (k.closed_bodies q n);
}

pub note_method-Kept :
    (b : Connection) (e : Event) (f : Event) (c : Connection)
    → Kept b e c
    → Kept b e (note_method f c)
note_method-Kept b e (request r) c k = elsewhere refl refl refl refl k
note_method-Kept b e _ c k = k

pub note_version-Kept :
    (b : Connection) (e : Event) (r : Role) (c : Connection)
    → Kept b e c
    → Kept b e (note_version r e c)
note_version-Kept b e r c k = elim (Bool-cases (same_role r (their_role c))) [
  | inl h ↦ rw h (elsewhere refl refl refl refl k)
  | inr h ↦ rw h k
]

pub switch-AtServer :
    (r : Role) (e : Event) (s : ConnectionState) → AtServer r (switch_event_of r e s)
switch-AtServer client e s = tt
switch-AtServer server e s = tt

ended :
    (r : Role) (b : Connection) (e : Event) (c : Connection)
    (m : Result (Unit {0}) × ConnectionState)
    → Stays r c.cstate m
    → Unmoved r b c
    → Kept b e (record c { cstate = m.1 })
    → Ends (λ _ c. Kept b e c) (Faults r b) (m.0, record c { cstate = m.1 })
ended r b e c (ok a, s) h u p = p
ended r b e c (raise x, s) (f, h) u p =
    (f, record { role = u.role; reader = u.reader; buffer = u.buffer; peer = h ∙ u.peer })

pub machine-Kept :
    (b : Connection) (e : Event) (r : Role) (w : Option Switch) (c : Connection)
    → AtServer r w
    → Kept b e c × Unmoved r b c
    → Ends (λ _ c. Kept b e c) (Faults r b) (on_cstate (Machine.process_event r (type_of e) w) c)
machine-Kept b e r w c a (k, u) =
    let m = Machine.process_event r (type_of e) w c.cstate in
    let kept : Kept b e (record c { cstate = m.1 }) = changed b e c m.1 k λ q n.
      elim (Bool-cases (is_opening (type_of e))) [
        | inl o ↦ inr o
        | inr o ↦ inl (process_event-NotBody q r (type_of e) w c.cstate o n)
      ] in
    ended r b e c m (process_event-Stays r (type_of e) w c.cstate a) u kept
