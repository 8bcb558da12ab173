-- ===== src/Connection/Drain.antt =====
-- Calls of `next_event` of h11/_connection.py with no new data come to an end.
use h11_py.Prelude.{
  ℕ, zero, suc, ◌+◌, ◌*◌, ◌<◌, Bool, true, false, Option, none, some, ◌≡◌, refl, inl, inr, arith,
  Bool-cases, if◌then◌else◌,
}
use h11_py.Effect.Ends.{Ends, then-Ends, anyhow}
use h11_py.Util.{Result, ok, raise}
use h11_py.Events.{
  request, informational_response, response, data_, end_of_message, connection_closed,
}
use h11_py.Connection.{Connection, their_role, their_state}
use h11_py.Connection.Process.{process_event}
use h11_py.Connection.Receive.{
  Next, event, need_data, paused, extract_next_receive_event, handle_next, try_next_event,
  next_event,
}
use h11_py.State.{error, is_state}
use h11_py.Connection.Consumed.{size, Extracted, Beside, extract-Ends}
use h11_py.Connection.NeedData.{caught-Ends}
use h11_py.Connection.Progress.{to_come, to_come_lt, Lower, shorter-Ends, ends-Ends}

handle_next-Ends :
    (n : Next) (c d : Connection)
    → Extracted (size c) n d.receive_buffer
    → Beside c d
    → Ends (λ _ d'. Lower c n d') (λ _ _. Unit) (handle_next n d)
handle_next-Ends (event (request r)) c d h u = shorter-Ends (their_role d) (request r) c d h
handle_next-Ends (event (informational_response r)) c d h u =
    shorter-Ends (their_role d) (informational_response r) c d h
handle_next-Ends (event (response r)) c d h u = shorter-Ends (their_role d) (response r) c d h
handle_next-Ends (event (data_ x)) c d h u = shorter-Ends (their_role d) (data_ x) c d h
handle_next-Ends (event (end_of_message hs)) c d h u = ends-Ends hs c d u h
handle_next-Ends (event connection_closed) c d h u =
    anyhow (process_event (their_role d) connection_closed d)
handle_next-Ends need_data c d h u = anyhow (handle_next need_data d)
handle_next-Ends paused c d h u = tt

try_next_event-Ends : (c : Connection) → Ends (λ n d. Lower c n d) (λ _ _. Unit) (try_next_event c)
unfolding try_next_event
try_next_event-Ends c =
    then-Ends (λ n d. Extracted (size c) n d.receive_buffer × Beside c d) _ _
      (extract_next_receive_event c) _ (extract-Ends c)
      λ n d p.
        then-Ends (λ _ d. Lower c n d) _ _ (handle_next n d) _ (handle_next-Ends n c d p.0 p.1)
          (λ _ d h. h)

-- If `next_event` returns an event other than ConnectionClosed, less is to come than before.
pub next_event-Lower : (c : Connection) → Ends (λ n d. Lower c n d) (λ _ _. Unit) (next_event c)
unfolding next_event
next_event-Lower c = elim (Bool-cases (is_state (their_state c) error)) [
  | inl h ↦ rw h tt
  | inr h ↦ rw h (caught-Ends (their_role c) (Lower c) (try_next_event c) (try_next_event-Ends c))
]

-- Whether a caller goes on after this result with no new data.
abbrev pub goes_on : Result Next → Bool
goes_on (ok (event connection_closed)) = false
goes_on (ok (event e)) = true
goes_on _ = false

-- `next_event` is called until it gives no event that another may follow; `none` says that the fuel
-- ran out.
unfoldable pub drain : ℕ → Connection → Option (Result Next × Connection)
drain zero c = none
drain (suc fuel) c =
    let rest = drain fuel (next_event c).1 in
    if goes_on (next_event c).0 then rest else some (next_event c)

lowered :
    (c : Connection) (m : Result Next × Connection)
    → goes_on m.0 ≡ true
    → Ends (λ n d. Lower c n d) (λ _ _. Unit) m
    → to_come m.1 < to_come c
lowered c (ok (event (request r)), d) g h = h
lowered c (ok (event (informational_response r)), d) g h = h
lowered c (ok (event (response r)), d) g h = h
lowered c (ok (event (data_ x)), d) g h = h
lowered c (ok (event (end_of_message hs)), d) g h = h
lowered c (ok (event connection_closed), d) g h = cc
lowered c (ok need_data, d) g h = cc
lowered c (ok paused, d) g h = cc
lowered c (raise x, d) g h = cc

drained :
    (fuel : ℕ) (c : Connection)
    → to_come c < fuel
    → (m : Result Next × Connection) × (drain fuel c ≡ some m) × (goes_on m.0 ≡ false)
unfolding drain
drained zero c h = let no : ⊥ = omega arith in elim no [ ]
drained (suc fuel) c h = elim (Bool-cases (goes_on (next_event c).0)) [
  | inl g ↦
      let l = lowered c (next_event c) g (next_event-Lower c) in
      let (m, e, n) = drained fuel (next_event c).1 (omega arith) in (m, rw g e, n)
  | inr g ↦ (next_event c, rw g refl, g)
]

-- A loop over `next_event` without new data ends: in any state of a connection, at most two calls for
-- each byte in the buffer, and two more, come to NEED_DATA, PAUSED, a ConnectionClosed event or an
-- exception.
pub drain_returns :
    (c : Connection)
    → (m : Result Next × Connection) × (drain (2 * size c + 2) c ≡ some m) × (goes_on m.0 ≡ false)
drain_returns c = drained (2 * size c + 2) c (to_come_lt c)
