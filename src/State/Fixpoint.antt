-- ===== src/State/Fixpoint.antt =====
-- The loop of `_fire_state_triggered_transitions` in h11/_state.py: it ends, and where.
use h11_py.Prelude.{ℕ, zero, suc, inl, inr, Bool-cases, true, ◌≡◌, ◌≢◌, ◌↔◌, some, arith}
use mathlib.Core.Path.{subst}
use h11_py.State.{
  idle, done, closed, error, might_switch_protocol, switched_protocol, has_any, same_states, States,
  ConnectionState,
}
use h11_py.State.Machine.{with_states, round, fire_loop, fuel, fire_state_triggered_transitions}

-- From every configuration of the five machines the loop reaches a pass that changes nothing within
-- `fuel` passes, and `fire_state_triggered_transitions` is what it returns then.
pub fire_loop_returns :
    (s : ConnectionState) → fire_loop fuel s ≡ some (fire_state_triggered_transitions s)
unfolding fire_state_triggered_transitions
fire_loop_returns s = ground arith

-- No state-triggered transition is enabled, each rule read off the documentation's diagrams.
pub record IsSettled (s : ConnectionState) : Type 0 where
  pub switch_first : has_any s.pending_switch_proposals ≡ true → s.states.of_client ≢ done
  pub switch_pending :
      s.states.of_client ≡ might_switch_protocol → has_any s.pending_switch_proposals ≡ true
  pub switch_joint :
      s.states.of_client ≡ might_switch_protocol → s.states.of_server ≢ switched_protocol
  pub client_kept : s.states.of_client ≡ done → s.keep_alive ≡ true
  pub server_kept : s.states.of_server ≡ done → s.keep_alive ≡ true
  pub client_closed :
      s.states.of_client ≡ closed → (s.states.of_server ≢ done) × (s.states.of_server ≢ idle)
  pub server_closed :
      s.states.of_server ≡ closed → (s.states.of_client ≢ done) × (s.states.of_client ≢ idle)
  pub client_error : s.states.of_client ≡ error → s.states.of_server ≢ done
  pub server_error : s.states.of_server ≡ error → s.states.of_client ≢ done

same_states_eq : (t u : States) → same_states t u ≡ true → t ≡ u
same_states_eq t u h = ground arith

eq_of_same :
    (s : ConnectionState) → same_states (round s) s.states ≡ true → with_states (round s) s ≡ s
eq_of_same s h = rw (same_states_eq (round s) s.states h)

-- What the loop returns is unchanged by one more pass.
fire_loop_stops :
    (n : ℕ) (s : ConnectionState) {s' : ConnectionState}
    → fire_loop n s ≡ some s'
    → round s' ≡ s'.states
unfolding fire_loop
fire_loop_stops zero s h = cc
fire_loop_stops (suc n) s h = elim (Bool-cases (same_states (round s) s.states)) [
  | inl same ↦ ground (arith, eq_of_same s same, same_states_eq (round s) s.states)
  | inr changed ↦ fire_loop_stops n (with_states (round s) s) (rw changed at h)
]

round_fixed-IsSettled : (s : ConnectionState) → round s ≡ s.states → IsSettled s
unfolding round
round_fixed-IsSettled s h = record {
  switch_first = ground arith;
  switch_pending = ground arith;
  switch_joint = ground arith;
  client_kept = ground arith;
  server_kept = ground arith;
  client_closed = ground arith;
  server_closed = ground arith;
  client_error = ground arith;
  server_error = ground arith;
}

-- After the loop no state-triggered transition is enabled.
pub fire-IsSettled : (s : ConnectionState) → IsSettled (fire_state_triggered_transitions s)
fire-IsSettled s =
    round_fixed-IsSettled (fire_state_triggered_transitions s)
      (fire_loop_stops fuel s (fire_loop_returns s))

fire_of_IsSettled : (s : ConnectionState) → IsSettled s → fire_state_triggered_transitions s ≡ s
unfolding fire_state_triggered_transitions
fire_of_IsSettled s h = ground arith

-- The loop changes nothing exactly when no state-triggered transition is enabled.
pub fire_fixed_iff : (s : ConnectionState) → (fire_state_triggered_transitions s ≡ s) ↔ IsSettled s
fire_fixed_iff s = (λ h. rw h at (fire-IsSettled s), fire_of_IsSettled s)

-- A predicate that each pass keeps holds of what the loop returns.
fire_loop_keeps :
    (P : ConnectionState → Type 0)
    → ((s : ConnectionState) → P s → P (with_states (round s) s))
    → (n : ℕ) (s : ConnectionState) {s' : ConnectionState} → P s
    → fire_loop n s ≡ some s'
    → P s'
unfolding fire_loop
fire_loop_keeps P keep zero s p h = cc
fire_loop_keeps P keep (suc n) s {s'} p h = elim (Bool-cases (same_states (round s) s.states)) [
  | inl same ↦ let e : with_states (round s) s ≡ s' = ground arith in subst P e (keep s p)
  | inr changed ↦ fire_loop_keeps P keep n (with_states (round s) s) (keep s p) (rw changed at h)
]

pub fire_keeps :
    (P : ConnectionState → Type 0)
    → ((s : ConnectionState) → P s → P (with_states (round s) s))
    → (s : ConnectionState) → P s
    → P (fire_state_triggered_transitions s)
fire_keeps P keep s p = fire_loop_keeps P keep fuel s p (fire_loop_returns s)
