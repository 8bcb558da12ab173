-- ===== src/Connection/Sent.antt =====
-- `send`, `send_failed` and `receive_data` of h11/_connection.py keep a connection usable.
use h11_py.Prelude.{
  Option, none, some, ◌≡◌, ◌≢◌, ◌⊎◌, ◌∙◌, ap, refl, List, sym, inl, inr, Bool-cases,
}
use mathlib.Core.Path.{subst}
use h11_py.Effect.{return, throw, then_do, then_do_keeps}
use h11_py.Effect.Ends.{Ends, then-Ends, weaken-Ends}
use h11_py.Util.{Exn, value_error, Result, ok, raise}
use h11_py.Bytes.{Bytes, is_empty}
use h11_py.Events.{Event, connection_closed}
use h11_py.Events.WellFormed.{IsEvent}
use h11_py.ReceiveBuffer.Valid.{append-IsValid}
use h11_py.Writers.{Writer}
use h11_py.Connection.{Connection, caught, process_error, receive_data, our_state}
use h11_py.Connection.Process.{process_event}
use h11_py.Connection.Send.{
  cleaned, write, write_event, try_send, joined, send, send_with_data_passthrough,
}
use h11_py.Connection.CleanEvent.{cleaned-Ends}
use h11_py.Connection.Good.{
  IsGood, Raises, process_event-IsGood, process_error-returns, Unmoved-IsGood,
}
use h11_py.State.{Role, State, error, is_state}
use h11_py.State.Fixpoint.{IsSettled}

write-IsGood :
    (w : Option Writer) (old : State) (e : Event) (c : Connection)
    → IsGood c
    → IsGood (write w old e c).1
write-IsGood none old e c g = g
write-IsGood (some w) old e c g = elim (Bool-cases (is_state (our_state c) old)) [
  | inl h ↦ rw h (record { reader = g.reader; buffer = g.buffer })
  | inr h ↦ rw h g
]

write_event-IsGood :
    (w : Option Writer) (old : State) (e : Event) (c : Connection)
    → IsGood c
    → IsGood (write_event w old e c).1
write_event-IsGood w old connection_closed c g = g
write_event-IsGood w old e c g =
    then_do_keeps IsGood (write w old e c) _ (write-IsGood w old e c g) (λ _ d g. g)

-- A call after which the connection is usable, unless it raised a ValueError.
abbrev Stays : {A : Type 0} → Result A × Connection → Type 0
Stays m = Ends (λ _ d. IsGood d) (λ x d. IsGood d ⊎ (x ≡ value_error)) m

stays : {A : Type 0} (m : Result A × Connection) → IsGood m.1 → Stays m
stays (ok a, c) g = g
stays (raise x, c) g = inl g

unmoved_or_raised :
    (c : Connection) (x : Exn) (d : Connection)
    → Raises c.our_role c x d
    → IsGood c
    → IsGood d ⊎ (x ≡ value_error)
unmoved_or_raised c x d (inl f) g = inl (Unmoved-IsGood c d f.1 g)
unmoved_or_raised c x d (inr e) g = inr e

try_send-Stays :
    (e : Event) (c : Connection) → IsEvent e → IsGood c → IsSettled c.cstate → Stays (try_send e c)
unfolding try_send
try_send-Stays e c v g s =
    then-Ends (λ e' d. IsEvent e' × (d ≡ c)) _ _ (cleaned e c) _
      (weaken-Ends _ _ _ _ (cleaned e c) (λ _ _ p. p) (λ x d q. inl (subst IsGood (sym q) g))
        (cleaned-Ends e c v))
      λ e' d p.
        let (v', q) = p in
        subst
          (λ d.
            Stays (
              then_do (process_event c.our_role e' d) (λ _. write_event c.writer (our_state c) e')))
          (sym q)
          (then-Ends (λ _ d. IsGood d) _ _ (process_event c.our_role e' c) _
            (weaken-Ends _ _ (Raises c.our_role c) _ (process_event c.our_role e' c) (λ _ _ k. k.0)
              (λ x d k. unmoved_or_raised c x d k g) (process_event-IsGood c.our_role e' c v' g s))
            (λ _ d g.
              stays (write_event c.writer (our_state c) e' d)
                (write_event-IsGood c.writer (our_state c) e' d g)))

only_returns :
    {A : Type 0} (P : Connection → Type 0) (m : Result A × Connection)
    → Ends (λ _ d. P d) (λ _ _. ⊥) m
    → P m.1
only_returns P (ok a, c) h = h
only_returns P (raise x, c) h = elim h [ ]

pub process_error-IsGood : (r : Role) (c : Connection) → IsGood c → IsGood (process_error r c).1
process_error-IsGood r c g = only_returns IsGood (process_error r c) (
    weaken-Ends (λ _ d. (IsGood c → IsGood d) × (d.our_role ≡ c.our_role)) (λ _ d. IsGood d)
      (λ _ _. ⊥) (λ _ _. ⊥) (process_error r c) (λ _ d p. p.0 g) (λ _ _ n. n)
      (process_error-returns r c (λ _ _. ⊥)))

-- The handler raises what it has caught.
raised_again :
    {A : Type 0} (m : Result (Unit {0}) × Connection) (x : Exn)
    → Ends (λ _ _. Unit) (λ _ _. ⊥) m
    → (then_do {B = A} m (λ _. throw x)).0 ≡ raise x
raised_again (ok u, d) x h = refl
raised_again (raise y, d) x h = elim h [ ]

caught-raises :
    {A : Type 0} (r : Role) (x : Exn) (c : Connection) → (caught {A = A} r (raise x, c)).0 ≡ raise x
caught-raises {A} r x c = raised_again {A = A} (process_error r c) x (
    weaken-Ends (λ _ d. (IsGood c → IsGood d) × (d.our_role ≡ c.our_role)) (λ _ _. Unit) (λ _ _. ⊥)
      (λ _ _. ⊥) (process_error r c) (λ _ _ _. tt) (λ _ _ n. n)
      (process_error-returns r c (λ _ _. ⊥)))

caught-IsGood :
    {A : Type 0} (r : Role) (m : Result A × Connection)
    → Stays m
    → (caught r m).0 ≢ raise value_error
    → IsGood (caught r m).1
caught-IsGood r (ok a, c) g n = g
caught-IsGood r (raise x, c) (inl g) n =
    then_do_keeps IsGood (process_error r c) _ (process_error-IsGood r c g) (λ _ d p. p)
caught-IsGood r (raise x, c) (inr e) n = absurd (n (caught-raises r x c ∙ ap raise e))

pub pass-IsGood :
    (e : Event) (c : Connection)
    → IsEvent e
    → IsGood c
    → IsSettled c.cstate
    → (send_with_data_passthrough e c).0 ≢ raise value_error
    → IsGood (send_with_data_passthrough e c).1
unfolding send_with_data_passthrough
pass-IsGood e c v g s n = elim (Bool-cases (is_state (our_state c) error)) [
  | inl h ↦ rw h g
  | inr h ↦ rw h (caught-IsGood c.our_role (try_send e c) (try_send-Stays e c v g s) (rw h at n))
]

joined_raises :
    (m : Result (Option (List Bytes)) × Connection) (x : Exn)
    → m.0 ≡ raise x
    → (then_do m (λ data_list. return (joined data_list))).0 ≡ raise x
joined_raises (ok a, d) x h = cc
joined_raises (raise y, d) x h = cc

pub send-IsGood :
    (e : Event) (c : Connection)
    → IsEvent e
    → IsGood c
    → IsSettled c.cstate
    → (send e c).0 ≢ raise value_error
    → IsGood (send e c).1
unfolding send
send-IsGood e c v g s n =
    then_do_keeps IsGood (send_with_data_passthrough e c) _
      (pass-IsGood e c v g s
        (λ h. n (joined_raises (send_with_data_passthrough e c) value_error h)))
      (λ _ d p. p)

pub receive_data-IsGood :
    (content : Bytes) (c : Connection) → IsGood c → IsGood (receive_data content c).1
unfolding receive_data
receive_data-IsGood content c g = elim (Bool-cases (is_empty content)) [
  | inl h ↦ rw h (record { reader = g.reader; buffer = g.buffer })
  | inr h ↦ rw h (elim (Bool-cases c.receive_buffer_closed) [
    | inl i ↦ simp i g
    | inr i ↦
        simp i
          (record { reader = g.reader; buffer = append-IsValid content c.receive_buffer g.buffer })
  ])
]
