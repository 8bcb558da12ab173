-- ===== src/State/Faults.antt =====
-- What `process_event` raises (h11/_state.py).
use h11_py.Prelude.{true, Option, none, some, ◌≡◌, ◌≢◌, ◌↔◌, ◌⊎◌, inl, inr, refl, arith}
use h11_py.Effect.{then_do, modify}
use h11_py.Util.{Exn, local_protocol_error, Result, ok, raise, attribute_error, assertion_error}
use h11_py.Effect.Ends.{Ends, then-Ends, weaken-Ends}
use h11_py.State.{
  Role, client, server, State, idle, ConnectionState, EventType, request, response, proposed,
  Switch, switch_connect, switched, event_triggered_transitions,
}
use h11_py.State.Machine.{fire_state_triggered_transitions, see_event, process_event}

-- The two ways to reach `event_type.__name__` with a tuple.
abbrev pub TupleMissing : Role → EventType → Option Switch → ConnectionState → Type 0
TupleMissing client request none s = (s.states.of_client ≡ idle) × (s.states.of_server ≢ idle)
TupleMissing server e (some w) s =
    (proposed w s.pending_switch_proposals ≡ true)
    × (event_triggered_transitions server s.states.of_server (switched e w) ≡ none)
TupleMissing _ _ _ _ = ⊥

see_event_attribute_error :
    (r : Role) (e : EventType) (w : Option Switch) (s : ConnectionState)
    → ((see_event r e w s).0 ≡ raise attribute_error) ↔ TupleMissing r e w s
unfolding see_event
see_event_attribute_error client request none s = (λ h. ground arith, λ h. ground arith)
see_event_attribute_error server response (some switch_connect) s =
    (λ h. ground arith, λ h. ground arith)
see_event_attribute_error _ _ _ s = (λ h. ground arith, λ h. ground arith)

raises_before_fire :
    (m : Result (Unit {0}) × ConnectionState) (x : Exn)
    → ((then_do m (λ _. modify fire_state_triggered_transitions)).0 ≡ raise x) ↔ (m.0 ≡ raise x)
raises_before_fire (ok _, s) x = (λ h. cc, λ h. cc)
raises_before_fire (raise _, s) x = (λ h. h, λ h. h)

-- `process_event` raises an AttributeError in exactly two cases: the client's request arrives while
-- the client is IDLE and the server is not, or an annotated server event was proposed and has no
-- transition from the server's state.
pub process_event_attribute_error :
    (r : Role) (e : EventType) (w : Option Switch) (s : ConnectionState)
    → ((process_event r e w s).0 ≡ raise attribute_error) ↔ TupleMissing r e w s
unfolding process_event
process_event_attribute_error r e w s =
    let before = raises_before_fire (see_event r e w s) attribute_error in
    let seen = see_event_attribute_error r e w s in
    (λ h. seen.0 (before.0 h), λ h. before.1 (seen.1 h))

-- A LocalProtocolError, or the AttributeError of `event_type.__name__`.
abbrev pub IsFault : Exn → Type 0
IsFault (local_protocol_error msg hint) = Unit
IsFault attribute_error = Unit
IsFault _ = ⊥

-- A server event is the server's.
abbrev pub AtServer : Role → Option Switch → Type 0
AtServer client (some w) = ⊥
AtServer _ _ = Unit

-- The state of the other role.
abbrev pub peer_state : Role → ConnectionState → State
peer_state client s = s.states.of_server
peer_state server s = s.states.of_client

-- A fault, with the other role where it was.
abbrev pub Stays : Role → ConnectionState → Result (Unit {0}) × ConnectionState → Type 0
Stays r s m = Ends (λ _ _. Unit) (λ x t. IsFault x × (peer_state r t ≡ peer_state r s)) m

see_event-Stays :
    (r : Role) (e : EventType) (w : Option Switch) (s : ConnectionState)
    → AtServer r w
    → Stays r s (see_event r e w s)
unfolding see_event
see_event-Stays client e (some w) s h = elim h [ ]
see_event-Stays client request none s h = ground arith
see_event-Stays client _ none s h = ground arith
see_event-Stays server response (some switch_connect) s h = ground arith
see_event-Stays server _ _ s h = ground arith

pub process_event-Stays :
    (r : Role) (e : EventType) (w : Option Switch) (s : ConnectionState)
    → AtServer r w
    → Stays r s (process_event r e w s)
unfolding process_event
process_event-Stays r e w s h =
    then-Ends _ _ _ (see_event r e w s) _ (see_event-Stays r e w s h) (λ _ _ _. tt)

-- A fault of an event that its role may have, or the failed assertion on one that it may not; either
-- way the other role stays where it was.
abbrev pub Refused : Role → Option Switch → ConnectionState → Exn → ConnectionState → Type 0
Refused r w s x t =
    ((AtServer r w × IsFault x) ⊎ ((¬ (AtServer r w)) × (x ≡ assertion_error)))
    × (peer_state r t ≡ peer_state r s)

-- `process_event` with a switch event for the client raises an AssertionError. Without one, or for the
-- server, it returns, or it raises a LocalProtocolError or an AttributeError, so then neither of its
-- assertions fails. Whenever it raises, the other role's state is unchanged.
pub process_event-Refused :
    (r : Role) (e : EventType) (w : Option Switch) (s : ConnectionState)
    → Ends (λ _ _. AtServer r w) (Refused r w s) (process_event r e w s)
unfolding process_event see_event
process_event-Refused client e (some w) s = (inr (λ a. a, refl), refl)
process_event-Refused client e none s =
    weaken-Ends _ _ _ _ (process_event client e none s) (λ _ _ _. tt)
      (λ x t p. (inl (tt, p.0), p.1)) (process_event-Stays client e none s tt)
process_event-Refused server e w s =
    weaken-Ends _ _ _ _ (process_event server e w s) (λ _ _ _. tt) (λ x t p. (inl (tt, p.0), p.1))
      (process_event-Stays server e w s tt)
