-- ===== src/Connection/Safe.antt =====
-- The public methods of h11/_connection.py keep a connection usable, and what they raise.
use h11_py.Prelude.{false, ◌≡◌, ◌≢◌, ◌⊎◌, sym, inl, inr, Bool-cases, ltb, length}
use mathlib.Core.Path.{subst}
use h11_py.Effect.Ends.{Ends, then-Ends, weaken-Ends}
use h11_py.Util.{
  Exn, local_protocol_error, remote_protocol_error, attribute_error, assertion_error, value_error,
  runtime_error, type_error, Result, ok, raise,
}
use h11_py.Connection.{Connection, caught, guarded, process_error, their_role, their_state}
use h11_py.Connection.Process.{process_event}
use h11_py.Connection.Receive.{
  Next, event, need_data, paused, extract_next_receive_event, handle_next, as_remote,
  try_next_event, next_event,
}
use h11_py.Connection.Good.{IsGood, Raises, process_event-IsGood, process_error-returns}
use h11_py.Connection.Extract.{IsProtocol, IsFault-IsProtocol, IsNextEvent, Usable, extract-Ends}
use h11_py.Connection.Rest.{AtRest}
use h11_py.State.{
  Role, client, server, State, ConnectionState, send_response, error, is_state, state_of,
}
use h11_py.State.Fixpoint.{IsSettled}
use h11_py.State.Reach.{Inv}

-- What `next_event` may let out: a RemoteProtocolError, the AttributeError of `event_type.__name__`, or
-- the ValueError of `int`.
abbrev pub IsReported : Exn → Type 0
IsReported (remote_protocol_error _ _) = Unit
IsReported attribute_error = Unit
IsReported value_error = Unit
IsReported _ = ⊥

-- `_process_error` in the handler returns, so the exception that is caught is the one raised again.
pub caught-Ends :
    {A : Type 0} (r : Role) (P : A → Connection → Type 0) (E : Exn → Type 0)
    (m : Result A × Connection)
    → Ends P (λ x _. E x) m
    → Ends P (λ x _. E x) (caught r m)
caught-Ends r P E (ok a, c) h = h
caught-Ends r P E (raise x, c) h =
    then-Ends (λ _ _. Unit) P (λ x _. E x) (process_error r c) _
      (weaken-Ends (λ _ d. (IsGood c → IsGood d) × (d.our_role ≡ c.our_role)) (λ _ _. Unit)
        (λ _ _. ⊥) (λ x _. E x) (process_error r c) (λ _ _ _. tt) (λ x d n. elim n [ ])
        (process_error-returns r c (λ _ _. ⊥)))
      (λ _ _ _. h)

Raises-IsProtocol : {r : Role} {b d : Connection} (x : Exn) → Raises r b x d → IsProtocol x
Raises-IsProtocol x (inl f) = IsFault-IsProtocol x f.0
Raises-IsProtocol x (inr e) = rw e tt

check-Ends :
    (d : Connection)
    → IsGood d
    → Ends (λ _ d. IsGood d) (λ x _. IsProtocol x) (handle_next need_data d)
check-Ends d g =
    elim (Bool-cases (ltb d.max_incomplete_event_size (length d.receive_buffer.content))) [
      | inl h ↦ rw h tt
      | inr h ↦
          rw h (elim (Bool-cases d.receive_buffer_closed) [ inl i ↦ simp i tt | inr i ↦ simp i g ])
    ]

handle_next-Ends :
    (n : Next) (d : Connection)
    → IsNextEvent n
    → IsGood d
    → IsSettled d.cstate
    → Ends (λ _ d. IsGood d) (λ x _. IsProtocol x) (handle_next n d)
handle_next-Ends (event e) d v g s =
    weaken-Ends _ _ _ _ (process_event (their_role d) e d) (λ _ _ p. p.0)
      (λ x _ p. Raises-IsProtocol x p) (process_event-IsGood (their_role d) e d v g s)
handle_next-Ends need_data d v g s = check-Ends d g
handle_next-Ends paused d v g s = g

try_next_event-Ends :
    (c : Connection)
    → IsGood c
    → IsSettled c.cstate
    → is_state (their_state c) error ≡ false
    → ((their_role c ≡ client) → their_state c ≢ send_response)
    → Ends (λ _ d. IsGood d) (λ x _. IsProtocol x) (try_next_event c)
unfolding try_next_event
try_next_event-Ends c g s e l =
    then-Ends (λ n d. IsNextEvent n × Usable c d) _ _ (extract_next_receive_event c) _
      (extract-Ends c g e l)
      λ n d p.
        let (v, u) = p in
        then-Ends (λ _ d. IsGood d) _ _ (handle_next n d) _
          (handle_next-Ends n d v u.0 (subst IsSettled (sym u.1) s)) (λ _ d g. g)

as_remote-Ends :
    (m : Result Next × Connection)
    → Ends (λ _ d. IsGood d) (λ x _. IsProtocol x) m
    → Ends (λ _ d. IsGood d) (λ x _. IsReported x) (as_remote m)
as_remote-Ends (ok n, c) h = h
as_remote-Ends (raise (local_protocol_error _ _), c) h = tt
as_remote-Ends (raise (remote_protocol_error _ _), c) h = tt
as_remote-Ends (raise attribute_error, c) h = tt
as_remote-Ends (raise assertion_error, c) h = h
as_remote-Ends (raise value_error, c) h = tt
as_remote-Ends (raise runtime_error, c) h = h
as_remote-Ends (raise type_error, c) h = h

never_owes :
    (s : ConnectionState) (r : Role) → Inv s → r ≡ client → state_of r s.states ≢ send_response
never_owes s client i h = i.client_legal
never_owes s server i h = cc

-- The peer has failed, or the connection is usable.
abbrev pub Sound : Connection → Type 0
Sound c = (their_state c ≡ error) ⊎ IsGood c

not_error : {A : Type 0} (q : State) → q ≡ error → is_state q error ≡ false → A
not_error q e h = let k = rw e at h in cc

pub next_event-Ends :
    (c : Connection)
    → Sound c
    → AtRest c
    → Inv c.cstate
    → Ends (λ _ d. IsGood d) (λ x _. IsReported x) (next_event c)
unfolding next_event
next_event-Ends c g k i = elim (Bool-cases (is_state (their_state c) error)) [
  | inl h ↦ rw h tt
  | inr h ↦ rw h (elim g [
    | inl e ↦ not_error (their_state c) e h
    | inr g ↦ as_remote-Ends (guarded (their_role c) try_next_event c) (
        caught-Ends (their_role c) (λ _ d. IsGood d) IsProtocol (try_next_event c)
          (try_next_event-Ends c g k.0 h (never_owes c.cstate (their_role c) i)))
  ])
]
