-- ===== src/Connection/Cycled.antt =====
-- `start_next_cycle` of h11/_connection.py: what it raises, and the reader after it.
use h11_py.Prelude.{ℕ, false, not, none, ◌≡◌, ap}
use mathlib.Core.Path.{subst}
use h11_py.Effect.{then_do, assert}
use h11_py.Effect.Ends.{Ends}
use h11_py.Util.{Exn, Result, ok, raise}
use h11_py.Util.Outcome.{IsLocal}
use h11_py.Connection.{Connection, new, respond_to_state_changes, start_next_cycle}
use h11_py.Connection.Coherent.{responded_alone}
use h11_py.Connection.Good.{IsGood}
use h11_py.Connection.Rest.{AtRest}
use h11_py.Connection.Resting.{Calls-AtRest}
use h11_py.Connection.Calls.{Calls}
use h11_py.State.{Role, ConnectionState}
use h11_py.State.Machine
use h11_py.State.Fixpoint.{IsSettled}
use h11_py.State.Opening.{NotBody, cycle-NotBody}
use h11_py.State.Settled.{cycle-IsSettled}
use h11_py.State.Waiting.{Waits, cycle-Waits}

-- A connection after the machine's `start_next_cycle`.
cycled-Ends :
    (c : Connection) (m : Result (Unit {0}) × ConnectionState)
    → ((q : Role) → NotBody q c.cstate → NotBody q m.1)
    → Ends (λ _ t. IsSettled t) (λ x t. IsLocal x × (t ≡ c.cstate)) m
    → Ends
        (λ _ t. c.client_is_waiting_for_100_continue ≡ false)
        (λ _ t. Waits c.client_is_waiting_for_100_continue t)
        m
    → Ends
        (λ _ d. IsGood c → IsGood d)
        (λ x d. IsLocal x × (IsGood c → IsGood d))
        (then_do
          (m.0, record c { cstate = m.1 })
          (λ _ d.
            then_do
              (assert
                (not c.client_is_waiting_for_100_continue)
                (record d { request_method = none }))
              (λ _. respond_to_state_changes c.cstate.states none)))
cycled-Ends c (ok u, s) n p w =
    let (v, rd, e, fits) =
      responded_alone c.cstate.states (record c { cstate = s; request_method = none }) n in
    let holds = ap not w in
    rw (holds, e) (λ g. record { reader = fits g.reader; buffer = g.buffer })
cycled-Ends c (raise x, s) n (l, e) w = (l, λ g. rw e g)

pub cycle-Ends :
    (c : Connection)
    → AtRest c
    → Ends
        (λ _ d. IsGood c → IsGood d)
        (λ x d. IsLocal x × (IsGood c → IsGood d))
        (start_next_cycle c)
unfolding start_next_cycle
cycle-Ends c (s, w) =
    cycled-Ends c (Machine.start_next_cycle c.cstate) (λ q n. cycle-NotBody q c.cstate n)
      (cycle-IsSettled c.cstate s) (cycle-Waits c.client_is_waiting_for_100_continue c.cstate w)

pub either_way :
    {A : Type 0} (P : Connection → Type 0) (m : Result A × Connection)
    → Ends (λ _ d. P d) (λ x d. IsLocal x × P d) m
    → P m.1
either_way P (ok a, c) h = h
either_way P (raise x, c) h = h.1

Ends-IsLocal :
    (P : Connection → Type 0) (m : Result (Unit {0}) × Connection) (x : Exn)
    → m.0 ≡ raise x
    → Ends (λ _ d. P d) (λ x d. IsLocal x × P d) m
    → IsLocal x
Ends-IsLocal P (ok a, c) x h e = cc
Ends-IsLocal P (raise y, c) x h e = let q : y ≡ x = cc in subst IsLocal q e.0

-- After any public calls on a new connection, whether they returned or raised, `start_next_cycle`
-- raises nothing but a LocalProtocolError: none of its assertions, and none of those that it leads to,
-- fails.
pub start_next_cycle-IsLocal :
    {d : Connection} (r : Role) (limit : ℕ) {x : Exn}
    → Calls (new r limit) d
    → (start_next_cycle d).0 ≡ raise x
    → IsLocal x
start_next_cycle-IsLocal {d} r limit {x} path h =
    Ends-IsLocal (λ e. IsGood d → IsGood e) (start_next_cycle d) x h
      (cycle-Ends d (Calls-AtRest r limit path))
