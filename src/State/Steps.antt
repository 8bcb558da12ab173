-- ===== src/State/Steps.antt =====
-- The calls of `ConnectionState`'s methods (h11/_state.py) as a step relation, and its induction rule.
use h11_py.Prelude.{false, Option}
use h11_py.Effect.{then_do, modify}
use h11_py.Util.{Result, ok, raise}
use h11_py.State.{Role, error, Switch, EventType, set_state, add_proposal, ConnectionState}
use h11_py.State.Machine.{
  round, with_states, fire_state_triggered_transitions, process_error, process_keep_alive_disabled,
  process_client_switch_proposal, see_event, process_event, start_next_cycle,
}
use h11_py.State.Fixpoint.{fire_keeps}

-- One call of a method, whether it returns or raises.
pub data Step (s : ConnectionState) : ConnectionState → Type 0 where
  event : (r : Role) (e : EventType) (w : Option Switch) → Step s (process_event r e w s).1
  fail : (r : Role) → Step s (process_error r s)
  disable_keep_alive : Step s (process_keep_alive_disabled s)
  propose : (w : Switch) → Step s (process_client_switch_proposal w s)
  next_cycle : Step s (start_next_cycle s).1

pub data Reach (s : ConnectionState) : ConnectionState → Type 0 where
  here : Reach s s
  next : {t u : ConnectionState} → Reach s t → Step t u → Reach s u

-- A predicate that the event-triggered part and the loop keep is kept by `process_event`.
pub after_fire :
    (P : ConnectionState → Type 0)
    → ((s : ConnectionState) → P s → P (fire_state_triggered_transitions s))
    → (m : Result (Unit {0}) × ConnectionState) → P m.1
    → P (then_do m (λ _. modify fire_state_triggered_transitions)).1
after_fire P keep (ok _, s) p = keep s p
after_fire P keep (raise _, s) p = p

-- What a predicate has to satisfy to be kept by every call.
pub record IsKept (P : ConnectionState → Type 0) : Type 0 where
  pub by_round : (s : ConnectionState) → P s → P (with_states (round s) s)
  pub by_event :
      (r : Role) (e : EventType) (w : Option Switch) (s : ConnectionState)
      → P s
      → P (see_event r e w s).1
  pub by_error :
      (r : Role) (s : ConnectionState) → P s → P (with_states (set_state r error s.states) s)
  pub by_disable : (s : ConnectionState) → P s → P (record s { keep_alive = false })
  pub by_proposal :
      (w : Switch) (s : ConnectionState)
      → P s
      → P (record s { pending_switch_proposals = add_proposal w s.pending_switch_proposals })
  pub by_cycle : (s : ConnectionState) → P s → P (start_next_cycle s).1

module _ (P : ConnectionState → Type 0) (k : IsKept P) where
  pub Step_keeps : {s t : ConnectionState} → Step s t → P s → P t
  unfolding process_event process_error process_keep_alive_disabled process_client_switch_proposal
  Step_keeps {s} (event r e w) p =
      after_fire P (fire_keeps P k.by_round) (see_event r e w s) (k.by_event r e w s p)
  Step_keeps {s} (fail r) p = fire_keeps P k.by_round _ (k.by_error r s p)
  Step_keeps {s} disable_keep_alive p = fire_keeps P k.by_round _ (k.by_disable s p)
  Step_keeps {s} (propose w) p = fire_keeps P k.by_round _ (k.by_proposal w s p)
  Step_keeps {s} next_cycle p = k.by_cycle s p

  pub Reach_keeps : {s t : ConnectionState} → Reach s t → P s → P t
  Reach_keeps here p = p
  Reach_keeps (next r st) p = Step_keeps st (Reach_keeps r p)
