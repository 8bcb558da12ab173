-- ===== src/Connection/NeedData.antt =====
-- NEED_DATA of `next_event` in h11/_connection.py.
use h11_py.Prelude.{ℕ, ◌≤◌, false, ltb, length, ◌≡◌, refl, inl, inr, arith, Bool-cases}
use h11_py.Effect.Ends.{Ends, then-Ends, anyhow}
use h11_py.Util.{Result, ok, raise, Result-cases}
use h11_py.Connection.{Connection, process_error, caught, their_role, their_state}
use h11_py.Connection.Receive.{
  Next, event, need_data, paused, handle_next, as_remote, try_next_event, next_event,
  extract_next_receive_event,
}
use h11_py.State.{Role, error, is_state}

-- The buffer is within the limit, and the peer has not closed.
abbrev pub CanGrow : Connection → Type 0
CanGrow c =
    (length c.receive_buffer.content ≤ c.max_incomplete_event_size)
    × (c.receive_buffer_closed ≡ false)

abbrev Bounded : Next → Connection → Type 0
Bounded need_data c = CanGrow c
Bounded _ c = Unit

not_over : (m n : ℕ) → ltb m n ≡ false → n ≤ m
not_over m n h = ground arith

handle_next-Ends :
    (n : Next) (c : Connection) → Ends (λ _ d. Bounded n d) (λ _ _. Unit) (handle_next n c)
handle_next-Ends (event e) c = anyhow (handle_next (event e) c)
handle_next-Ends paused c = tt
handle_next-Ends need_data c =
    elim (Bool-cases (ltb c.max_incomplete_event_size (length c.receive_buffer.content))) [
      | inl h ↦ rw h tt
      | inr h ↦ rw h (elim (Bool-cases c.receive_buffer_closed) [
        | inl i ↦ simp i tt
        | inr i ↦
            simp i (not_over c.max_incomplete_event_size (length c.receive_buffer.content) h, refl)
      ])
    ]

-- The handler of `next_event` raises whatever happens in it.
pub caught-Ends :
    (r : Role) (P : Next → Connection → Type 0) (m : Result Next × Connection)
    → Ends P (λ _ _. Unit) m
    → Ends P (λ _ _. Unit) (as_remote (caught r m))
caught-Ends r P (ok a, c) h = h
caught-Ends r P (raise x, c) h = elim (Result-cases (process_error r c).0) [
  | inl (u, e) ↦ rw e tt
  | inr (y, e) ↦ rw e tt
]

next_event-Ends : (c : Connection) → Ends (λ n d. Bounded n d) (λ _ _. Unit) (next_event c)
unfolding next_event try_next_event
next_event-Ends c = elim (Bool-cases (is_state (their_state c) error)) [
  | inl h ↦ rw h tt
  | inr h ↦ rw h (
      caught-Ends (their_role c) Bounded (try_next_event c) (
        then-Ends (λ _ _. Unit) _ _ (extract_next_receive_event c) _
          (anyhow (extract_next_receive_event c))
          λ n d u.
            then-Ends (λ _ d. Bounded n d) _ _ (handle_next n d) _ (handle_next-Ends n d)
              (λ _ d h. h)))
]

bounded :
    (m : Result Next × Connection)
    → Ends (λ n d. Bounded n d) (λ _ _. Unit) m
    → m.0 ≡ ok need_data
    → CanGrow m.1
bounded (ok need_data, d) h e = h
bounded (ok paused, d) h e = cc
bounded (ok (event x), d) h e = cc
bounded (raise x, d) h e = cc

-- If `next_event` returns NEED_DATA, then the buffer that it leaves holds at most
-- `max_incomplete_event_size` bytes, and the peer has not closed the connection.
pub next_event-CanGrow :
    (c : Connection) → (next_event c).0 ≡ ok need_data → CanGrow (next_event c).1
next_event-CanGrow c h = bounded (next_event c) (next_event-Ends c) h
