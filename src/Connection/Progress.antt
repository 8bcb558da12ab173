-- ===== src/Connection/Progress.antt =====
-- The events that `next_event` of h11/_connection.py gives with no new data: each one makes progress.
use h11_py.Prelude.{
  ℕ, ◌+◌, ◌*◌, ◌≤◌, ◌<◌, true, none, some, ◌≡◌, refl, inl, inr, arith, Bool-cases, if◌then◌else◌,
}
use h11_py.Effect.Ends.{Ends, then-Ends, weaken-Ends}
use h11_py.Util.{Result, ok, raise}
use h11_py.Events.{Event, end_of_message, connection_closed}
use h11_py.Headers.{Headers}
use h11_py.Connection.{
  Connection, on_cstate, respond_to_state_changes, their_role, their_state, same_role,
}
use h11_py.Connection.Process.{note_version, note_waiting, server_switch_event, process_event}
use h11_py.Connection.Receive.{Next, event, need_data, paused}
use h11_py.Connection.Updates.{respond-SameMachine}
use h11_py.Connection.Fields.{Ignores, process_event_keeps}
use h11_py.State.{Role, client, server, send_body, is_state, state_of, ConnectionState, EventType}
use h11_py.State.Machine
use h11_py.State.Machine.{see_event, fire_state_triggered_transitions}
use h11_py.State.Opening.{NotBody, fire-NotBody}
use h11_py.Connection.Consumed.{size, Beside}

abbrev in_body : Connection → ℕ
in_body c = if is_state (their_state c) send_body then 1 else 0

-- What is still to come with no new data: an event for a byte, and one for the end of a body.
abbrev pub to_come : Connection → ℕ
to_come c = 2 * size c + in_body c

-- Processing an event leaves the buffer and the role alone.
abbrev SameBuffer : Connection → Connection → Type 0
SameBuffer c d = (d.receive_buffer ≡ c.receive_buffer) × (d.our_role ≡ c.our_role)

SameBuffer-Ignores : (c : Connection) → Ignores (SameBuffer c)
SameBuffer-Ignores c = record {
  machine = λ d s h. h;
  method = λ d m h. h;
  version = λ d v h. h;
  waiting = λ d b h. h;
  reader = λ d rd h. h;
  writer = λ d w h. h;
}

-- The end of a message takes a role out of SEND_BODY.
see_end-Ends :
    (r : Role) (s : ConnectionState)
    → Ends
        (λ _ t. (is_state (state_of r s.states) send_body ≡ true) × NotBody r t)
        (λ _ _. Unit)
        (see_event r EventType.end_of_message none s)
unfolding see_event
see_end-Ends client s = ground arith
see_end-Ends server s = ground arith

machine_end-Ends :
    (r : Role) (s : ConnectionState)
    → Ends
        (λ _ t. (is_state (state_of r s.states) send_body ≡ true) × NotBody r t)
        (λ _ _. Unit)
        (Machine.process_event r EventType.end_of_message none s)
unfolding Machine.process_event
machine_end-Ends r s =
    then-Ends _ _ _ (see_event r EventType.end_of_message none s) _ (see_end-Ends r s)
      (λ _ t p. (p.0, fire-NotBody r t p.1))

-- Parts of the connection that `_process_event` sets after the machine has moved.
ended :
    (r : Role) (P : ConnectionState → Type 0) (c : Connection)
    (m : Result (Unit {0}) × ConnectionState)
    → Ends (λ _ t. P t) (λ _ _. Unit) m
    → Ends (λ _ d. P d.cstate) (λ _ _. Unit) (m.0, record c { cstate = m.1 })
ended r P c (ok a, s) h = h
ended r P c (raise x, s) h = tt

at_end :
    {A : Type 0} (P : Connection → Type 0) (m : Result A × Connection)
    → P m.1
    → Ends (λ _ d. P d) (λ _ _. Unit) m
at_end P (ok a, c) h = h
at_end P (raise x, c) h = tt

both-Ends :
    {A : Type 0} (P Q : Connection → Type 0) (m : Result A × Connection)
    → Ends (λ _ d. P d) (λ _ _. Unit) m
    → Ends (λ _ d. Q d) (λ _ _. Unit) m
    → Ends (λ _ d. P d × Q d) (λ _ _. Unit) m
both-Ends P Q (ok a, c) p q = (p, q)
both-Ends P Q (raise x, c) p q = tt

-- What the machine says of the end of a message that `c` was in.
abbrev Leaves : Role → Connection → ConnectionState → Type 0
Leaves r c t = (is_state (state_of r c.cstate.states) send_body ≡ true) × NotBody r t

end_responded :
    (r : Role) (hs : Headers) (c d : Connection)
    → Leaves r c d.cstate
    → Ends
        (λ _ d. Leaves r c d.cstate)
        (λ _ _. Unit)
        (respond_to_state_changes c.cstate.states
          (some (end_of_message hs))
          (note_waiting r (end_of_message hs) (note_version r (end_of_message hs) d)))
end_responded r hs c d h = elim (Bool-cases (same_role r (their_role d))) [
  | inl k ↦ at_end (λ d. Leaves r c d.cstate) _ (rw ((respond-SameMachine _ _ _).0, k) h)
  | inr k ↦ at_end (λ d. Leaves r c d.cstate) _ (rw ((respond-SameMachine _ _ _).0, k) h)
]

process_end-Ends :
    (r : Role) (hs : Headers) (c : Connection)
    → Ends (λ _ d. Leaves r c d.cstate) (λ _ _. Unit) (process_event r (end_of_message hs) c)
unfolding process_event server_switch_event
process_end-Ends client hs c =
    then-Ends (λ _ d. Leaves client c d.cstate) _ _
      (on_cstate (Machine.process_event client EventType.end_of_message none) c) _
      (ended client (Leaves client c) c
        (Machine.process_event client EventType.end_of_message none c.cstate)
        (machine_end-Ends client c.cstate))
      (λ _ d h. end_responded client hs c d h)
process_end-Ends server hs c =
    then-Ends (λ _ d. Leaves server c d.cstate) _ _
      (on_cstate (Machine.process_event server EventType.end_of_message none) c) _
      (ended server (Leaves server c) c
        (Machine.process_event server EventType.end_of_message none c.cstate)
        (machine_end-Ends server c.cstate))
      (λ _ d h. end_responded server hs c d h)

in_body_le : (c : Connection) → in_body c ≤ 1
in_body_le c = elim (Bool-cases (is_state (their_state c) send_body)) [
  | inl h ↦ rw h (omega arith)
  | inr h ↦ rw h (omega arith)
]

pub to_come_lt : (c : Connection) → to_come c < 2 * size c + 2
to_come_lt c = omega (arith, in_body_le c)

abbrev pub Lower : Connection → Next → Connection → Type 0
Lower c (event connection_closed) d = Unit
Lower c (event e) d = to_come d < to_come c
Lower c need_data d = Unit
Lower c paused d = Unit

-- An event that has taken bytes.
shorter : (c d d' : Connection) → size d < size c → SameBuffer d d' → to_come d' < to_come c
shorter c d d' h (b, _) = let same : size d' ≡ size d = rw b refl in omega (arith, in_body_le d')

pub shorter-Ends :
    (r : Role) (e : Event) (c d : Connection)
    → size d < size c
    → Ends (λ _ d'. to_come d' < to_come c) (λ _ _. Unit) (process_event r e d)
shorter-Ends r e c d h =
    at_end (λ d'. to_come d' < to_come c) (process_event r e d)
      (shorter c d (process_event r e d).1 h
        (process_event_keeps (SameBuffer d) (SameBuffer-Ignores d) r e d (refl, refl)))

left_body :
    (c d d' : Connection)
    → Beside c d
    → size d ≤ size c
    → SameBuffer d d'
    → Leaves (their_role d) d d'.cstate
    → to_come d' < to_come c
left_body c d d' (s, r) h (b, q) (before, after) =
    let same : size d' ≡ size d = rw b refl in
    let was : in_body c ≡ 1 = rw (rw (s, r) at before) refl in
    let is_now : in_body d' ≡ 0 = rw (q, after) refl in omega arith

pub ends-Ends :
    (hs : Headers) (c d : Connection)
    → Beside c d
    → size d ≤ size c
    → Ends
        (λ _ d'. to_come d' < to_come c)
        (λ _ _. Unit)
        (process_event (their_role d) (end_of_message hs) d)
ends-Ends hs c d u h =
    weaken-Ends (λ _ d'. SameBuffer d d' × Leaves (their_role d) d d'.cstate)
      (λ _ d'. to_come d' < to_come c) (λ _ _. Unit) (λ _ _. Unit)
      (process_event (their_role d) (end_of_message hs) d) (λ _ d' p. left_body c d d' u h p.0 p.1)
      (λ _ _ u. u)
      (both-Ends (SameBuffer d) (λ d'. Leaves (their_role d) d d'.cstate)
        (process_event (their_role d) (end_of_message hs) d)
        (at_end (SameBuffer d) (process_event (their_role d) (end_of_message hs) d) (
          process_event_keeps (SameBuffer d) (SameBuffer-Ignores d) (their_role d)
            (end_of_message hs) d (refl, refl)))
        (process_end-Ends (their_role d) hs d))
