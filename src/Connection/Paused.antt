-- ===== src/Connection/Paused.antt =====
-- When `next_event` of h11/_connection.py returns PAUSED.
use h11_py.Prelude.{
  true, false, not, ◌&&◌, ◌||◌, Option, none, some, [], ◌≡◌, ◌≢◌, ◌↔◌, refl, ap, ◌⊎◌, inl, inr,
  arith, Bool-cases, Option-cases,
}
use h11_py.Effect.{then_do, return, throw, ◌>>=◌}
use h11_py.Util.{Exn, Result, ok, raise}
use h11_py.Bytes.{Bytes, is_empty}
use h11_py.Events.{Event}
use h11_py.Readers.Table.{Reader, read_eof}
use h11_py.ReceiveBuffer.{is_drained}
use h11_py.Connection.{Connection, their_role, their_state, process_error, caught, guarded}
use h11_py.Connection.Receive.{
  Next, paused, run_reader, eof_event, after_reader, extract_next_receive_event, handle_next,
  as_remote, try_next_event, next_event,
}
use h11_py.State.{State, Role, error, done, might_switch_protocol, switched_protocol, is_state}

-- The peer has finished this cycle but sent more, or it may have switched or has switched protocols.
abbrev pub IsPausing : Connection → Type 0
IsPausing c =
    ((their_state c ≡ done) × (c.receive_buffer.content ≢ []))
    ⊎ ((their_state c ≡ might_switch_protocol) ⊎ (their_state c ≡ switched_protocol))

abbrev Answer : Type 0
Answer = Result Next × Connection

eof_event-ne : (r : Option Reader) (c : Connection) → (eof_event r c).0 ≢ ok paused
eof_event-ne none c h = cc
eof_event-ne (some r) c h = elim (Option-cases (read_eof r)) [
  | inl e ↦ let h' = rw (e, eof_event) at h in cc
  | inr (ok e, q) ↦ let h' = rw (q, eof_event) at h in cc
  | inr (raise x, q) ↦ let h' = rw (q, eof_event) at h in cc
]

after_reader-ne : (e : Option Event) (c : Connection) → (after_reader e c).0 ≢ ok paused
after_reader-ne (some e) c h = cc
after_reader-ne none c h =
    elim (Bool-cases (is_drained c.receive_buffer && c.receive_buffer_closed)) [
      | inl k ↦ eof_event-ne c.reader c (rw k at h)
      | inr k ↦ let h' = rw k at h in cc
    ]

read-ne : (m : Result (Option Event) × Connection) → (then_do m after_reader).0 ≢ ok paused
read-ne (ok e, c) h = after_reader-ne e c h
read-ne (raise x, c) h = cc

done_state :
    (p : State) (b : Bytes) → (is_state p done && not (is_empty b)) ≡ true → (p ≡ done) × (b ≢ [])
done_state p b h = ground arith

switch_state :
    (p : State)
    → (is_state p might_switch_protocol || is_state p switched_protocol) ≡ true
    → (p ≡ might_switch_protocol) ⊎ (p ≡ switched_protocol)
switch_state p h = ground arith

pausing : (c : Connection) → ((extract_next_receive_event c).0 ≡ ok paused) → IsPausing c
unfolding extract_next_receive_event
pausing c h =
    elim (Bool-cases (is_state (their_state c) done && not (is_drained c.receive_buffer))) [
      | inl k ↦ inl (done_state (their_state c) c.receive_buffer.content k)
      | inr k ↦
          elim (Bool-cases (
            is_state (their_state c) might_switch_protocol
            || is_state (their_state c) switched_protocol)) [
              | inl l ↦ inr (switch_state (their_state c) l)
              | inr l ↦ absurd (read-ne (run_reader c.reader c) (rw (k, l) at h))
            ]
    ]

paused_by : (c : Connection) → IsPausing c → extract_next_receive_event c ≡ (ok paused, c)
unfolding extract_next_receive_event
paused_by c h = ground arith

returned :
    (m : Result (Unit {0}) × Connection) (n : Next)
    → (then_do m (λ _. return n)).0 ≡ ok paused
    → n ≡ paused
returned (ok u, c) n h = cc
returned (raise x, c) n h = cc

tried :
    (m : Answer)
    → (then_do m (λ n. (handle_next n >>= λ _. return n))).0 ≡ ok paused
    → m.0 ≡ ok paused
tried (ok n, c) h = ap ok (returned (handle_next n c) n h)
tried (raise x, c) h = cc

raised_again :
    (m : Result (Unit {0}) × Connection) (x : Exn)
    → (then_do m (λ _. throw {A = Next} x)).0 ≢ ok paused
raised_again (ok u, c) x h = cc
raised_again (raise y, c) x h = cc

caught_paused : (r : Role) (m : Answer) → (caught r m).0 ≡ ok paused → m.0 ≡ ok paused
caught_paused r (ok n, c) h = h
caught_paused r (raise x, c) h = absurd (raised_again (process_error r c) x h)

remote_paused : (m : Answer) → (as_remote m).0 ≡ ok paused → m.0 ≡ ok paused
remote_paused (ok n, c) h = h
remote_paused (raise x, c) h = cc

only-IsPausing : (c : Connection) → (next_event c).0 ≡ ok paused → IsPausing c
unfolding next_event try_next_event
only-IsPausing c h = elim (Bool-cases (is_state (their_state c) error)) [
  | inl k ↦ let h' = rw k at h in cc
  | inr k ↦
      let m = remote_paused (guarded (their_role c) try_next_event c) (rw k at h) in
      pausing c
        (tried (extract_next_receive_event c) (caught_paused (their_role c) (try_next_event c) m))
]

not_failed : (c : Connection) → IsPausing c → is_state (their_state c) error ≡ false
not_failed c h = ground arith

pauses : (c : Connection) → IsPausing c → next_event c ≡ (ok paused, c)
unfolding next_event try_next_event
pauses c h = rw (not_failed c h, paused_by c h) refl

-- `next_event` returns PAUSED exactly when the peer is DONE and there is data left, or it may switch
-- or has switched protocols; and exactly then it returns PAUSED and changes nothing.
pub next_event_paused :
    (c : Connection)
    → (((next_event c).0 ≡ ok paused) ↔ IsPausing c)
      × ((next_event c ≡ (ok paused, c)) ↔ IsPausing c)
next_event_paused c = (
  (only-IsPausing c, λ h. ap (λ m. m.0) (pauses c h)),
  (λ h. only-IsPausing c (ap (λ m. m.0) h), pauses c),
)
