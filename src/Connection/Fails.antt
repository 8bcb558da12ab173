-- ===== src/Connection/Fails.antt =====
-- What an exception leaves behind in h11/_connection.py.
use h11_py.Prelude.{true, Option, none, List, ◌≡◌, inl, inr, refl, arith, Bool-cases}
use mathlib.Core.Path.{subst}
use h11_py.Effect.{then_do, then_do_keeps, return}
use h11_py.Util.{
  Exn, local_protocol_error, remote_protocol_error, assertion_error, attribute_error, value_error,
  runtime_error, type_error, reraise_as_remote, Result, ok, raise,
}
use h11_py.Util.Outcome.{IsLocal}
use h11_py.Bytes.{Bytes}
use h11_py.Events.{Event}
use h11_py.Connection.Updates.{respond-SameMachine}
use h11_py.Connection.{
  Connection, their_role, their_state, our_state, process_error, guarded, caught,
}
use h11_py.Connection.Receive.{Next, as_remote, next_event, try_next_event}
use h11_py.Connection.Send.{send_with_data_passthrough, send, send_failed, try_send, joined}
use h11_py.State.{Role, client, server, State, error, state_of, ConnectionState, is_state}
use h11_py.State.Machine
use h11_py.State.Machine.{with_states}
use h11_py.State.Fixpoint.{fire_keeps}
use h11_py.State.Error.{HasFailed, round-HasFailed}

machine_fails : (r : Role) (s : ConnectionState) → HasFailed r (Machine.process_error r s)
unfolding Machine.process_error
machine_fails client s = fire_keeps (HasFailed client) (round-HasFailed client) _ refl
machine_fails server s = fire_keeps (HasFailed server) (round-HasFailed server) _ refl

abbrev Failed : Role → Connection → Type 0
Failed r c = state_of r c.cstate.states ≡ error

process_error-Failed : (r : Role) (c : Connection) → Failed r (process_error r c).1
unfolding process_error
process_error-Failed r c =
    let d : Connection = record c { cstate = Machine.process_error r c.cstate } in
    rw ((respond-SameMachine c.cstate.states none d).0) (machine_fails r c.cstate)

caught-Failed :
    {A : Type 0} (r : Role) (m : Result A × Connection) {e : Exn}
    → (caught r m).0 ≡ raise e
    → Failed r (caught r m).1
caught-Failed r (ok a, c) h = cc
caught-Failed r (raise x, c) h =
    then_do_keeps (Failed r) (process_error r c) _ (process_error-Failed r c) (λ _ d p. p)

reraise-IsLocal : (e : Exn) → ¬ (IsLocal (reraise_as_remote e))
reraise-IsLocal (local_protocol_error msg hint) h = h
reraise-IsLocal (remote_protocol_error msg hint) h = h
reraise-IsLocal assertion_error h = h
reraise-IsLocal attribute_error h = h
reraise-IsLocal value_error h = h
reraise-IsLocal runtime_error h = h
reraise-IsLocal type_error h = h

reraise-ne-IsLocal : (x e : Exn) → reraise_as_remote x ≡ e → ¬ (IsLocal e)
reraise-ne-IsLocal x e h = subst (λ y. ¬ (IsLocal y)) h (reraise-IsLocal x)

raised-IsLocal :
    {A : Type 0} {x e : Exn}
    → ◌≡◌ {A = Result A} (raise x) (raise e)
    → ¬ (IsLocal x)
    → ¬ (IsLocal e)
raised-IsLocal {A} {x} {e} h n = let q : x ≡ e = cc in subst (λ y. ¬ (IsLocal y)) q n

is_state-eq : (p q : State) → is_state p q ≡ true → p ≡ q
is_state-eq p q h = ground arith

as_remote-Failed :
    (r : Role) (m : Result Next × Connection) {e : Exn}
    → ((x : Exn) → m.0 ≡ raise x → Failed r m.1)
    → (as_remote m).0 ≡ raise e
    → Failed r (as_remote m).1 × ¬ (IsLocal e)
as_remote-Failed r (ok n, c) f h = cc
as_remote-Failed r (raise x, c) {e} f h = (f x refl, reraise-ne-IsLocal x e (cc))

-- If `next_event` raises, the peer's state is ERROR afterwards, and the exception is no
-- LocalProtocolError.
pub next_event-raises :
    (c : Connection) {e : Exn}
    → (next_event c).0 ≡ raise e
    → (state_of (their_role c) (next_event c).1.cstate.states ≡ error) × ¬ (IsLocal e)
unfolding next_event
next_event-raises c {e} h = elim (Bool-cases (is_state (their_state c) error)) [
  | inl k ↦ rw k (is_state-eq _ _ k, raised-IsLocal (rw k at h) (λ l. l))
  | inr k ↦ rw k (
      as_remote-Failed (their_role c) (guarded (their_role c) try_next_event c)
        (λ x. caught-Failed (their_role c) (try_next_event c)) (rw k at h))
]

send_with_data_passthrough-raises :
    (c : Connection) (event : Event) {e : Exn}
    → (send_with_data_passthrough event c).0 ≡ raise e
    → Failed c.our_role (send_with_data_passthrough event c).1
unfolding send_with_data_passthrough
send_with_data_passthrough-raises c event h = elim (Bool-cases (is_state (our_state c) error)) [
  | inl k ↦ rw k (is_state-eq _ _ k)
  | inr k ↦ rw k (caught-Failed c.our_role (try_send event c) (rw k at h))
]

joined-Failed :
    (r : Role) (m : Result (Option (List Bytes)) × Connection) {e : Exn}
    → ((x : Exn) → m.0 ≡ raise x → Failed r m.1)
    → (then_do m (λ chunks. return (joined chunks))).0 ≡ raise e
    → Failed r (then_do m (λ chunks. return (joined chunks))).1
joined-Failed r (ok chunks, c) f h = cc
joined-Failed r (raise x, c) f h = f x refl

-- If `send` raises, our state is ERROR afterwards.
pub send-raises :
    (c : Connection) (event : Event) {e : Exn}
    → (send event c).0 ≡ raise e
    → state_of c.our_role (send event c).1.cstate.states ≡ error
unfolding send
send-raises c event h =
    joined-Failed c.our_role (send_with_data_passthrough event c)
      (λ x. send_with_data_passthrough-raises c event) h

-- After `send_failed` our state is ERROR.
pub send_failed-error :
    (c : Connection) → state_of c.our_role (send_failed c).1.cstate.states ≡ error
unfolding send_failed
send_failed-error c = process_error-Failed c.our_role c
