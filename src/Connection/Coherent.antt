-- ===== src/Connection/Coherent.antt =====
-- The reader of a connection (h11/_connection.py) fits the peer's state, and updating it keeps that.
use h11_py.Prelude.{
  Bool, true, false, Option, none, some, ◌≡◌, ◌≢◌, ◌∙◌, ◌⊎◌, refl, sym, inl, inr, arith, Bool-cases,
}
use mathlib.Core.Path.{subst}
use h11_py.Util.{
  Exn, local_protocol_error, remote_protocol_error, assertion_error, attribute_error, value_error,
  runtime_error, type_error, Result, ok, raise,
}
use h11_py.Bytes.{Bytes}
use h11_py.Events.{
  Event, request, informational_response, response, data_, end_of_message, connection_closed,
  type_of,
}
use h11_py.Events.WellFormed.{IsEvent}
use h11_py.Framing.{Framing, content_length, chunked, http10, body_framing}
use h11_py.Framing.Normal.{IsFramed, request-IsFramed, response-IsFramed}
use h11_py.Readers.Table.{Reader, reader_for, body_reader}
use h11_py.Readers.Called.{is_body, Follows}
use h11_py.Writers.{Writer, writer_for, body_writer}
use h11_py.Connection.{
  Connection, io_object, update_writer, update_reader, their_role, their_state, our_state,
  respond_to_state_changes,
}
use h11_py.State.{
  Role, client, server, State, idle, send_response, send_body, done, must_close, closed, error,
  might_switch_protocol, switched_protocol, States, state_of, is_state,
}
use h11_py.State.Opening.{is_opening}

abbrev IsBody : Option Reader → Type 0
IsBody none = ⊥
IsBody (some rd) = is_body rd ≡ true

-- In SEND_BODY the reader is one for a body; in any other state it is the one of the table.
abbrev pub Coherent : Role → State → Option Reader → Type 0
Coherent r send_body rd = IsBody rd
Coherent r q rd = rd ≡ reader_for r q

abbrev pub CanFrame : Option Bytes → Option Event → Type 0
CanFrame method none = ⊥
CanFrame method (some e) = IsFramed (body_framing method e)

-- There is an event, and with it the exception was raised that the framing of its body can raise.
abbrev pub TooLong : Option Event → Exn → Type 0
TooLong none x = ⊥
TooLong (some e) x = x ≡ value_error

pub opening-CanFrame :
    (method : Option Bytes) (e : Event)
    → IsEvent e
    → is_opening (type_of e) ≡ true
    → CanFrame method (some e)
opening-CanFrame method (request r) v h = request-IsFramed method r v.0
opening-CanFrame method (response r) v h = response-IsFramed method r v.0 v.1
opening-CanFrame method (informational_response r) v h = cc
opening-CanFrame method (data_ d) v h = cc
opening-CanFrame method (end_of_message hs) v h = cc
opening-CanFrame method connection_closed v h = cc

-- A role that gets into SEND_BODY does so with an event whose body can be framed.
abbrev pub Opens : States → States → Option Bytes → Option Event → Type 0
Opens old now method event =
    (q : Role)
    → is_state (state_of q old) send_body ≡ false
    → (is_state (state_of q now) send_body ≡ false) ⊎ CanFrame method event

moved :
    (p q : State)
    → is_state p q ≡ false
    → is_state p send_body ≡ true
    → is_state q send_body ≡ false
moved p q h k = ground arith

is_state-eq : (p q : State) → is_state p q ≡ true → p ≡ q
is_state-eq p q h = ground arith

in_body : {A : Type 0} {b : Bool} → b ≡ true → b ≡ false → A
in_body h k = cc

framed_or_raised :
    (m : Result Framing) → IsFramed m → ((f : Framing) × (m ≡ ok f)) ⊎ (m ≡ raise value_error)
framed_or_raised (ok f) h = inl (f, refl)
framed_or_raised (raise value_error) h = inr refl
framed_or_raised (raise (local_protocol_error msg hint)) h = elim h [ ]
framed_or_raised (raise (remote_protocol_error msg hint)) h = elim h [ ]
framed_or_raised (raise assertion_error) h = elim h [ ]
framed_or_raised (raise attribute_error) h = elim h [ ]
framed_or_raised (raise runtime_error) h = elim h [ ]
framed_or_raised (raise type_error) h = elim h [ ]

io_in_body :
    {A : Type 0} (table : Role → State → Option A) (body : Framing → A) (r : Role)
    (event : Option Event) (c : Connection)
    → is_state (state_of r c.cstate.states) send_body ≡ true
    → CanFrame c.request_method event
    → ((f : Framing) × (io_object table body r event c ≡ (ok (some (body f)), c)))
      ⊎ ((io_object table body r event c ≡ (raise value_error, c)) × TooLong event value_error)
io_in_body table body r none c h f = elim f [ ]
io_in_body table body r (some e) c h f =
    elim (framed_or_raised (body_framing c.request_method e) f) [
      | inl (g, k) ↦ inl (g, rw (h, k) refl)
      | inr k ↦ inr (rw (h, k) refl, refl)
    ]

io_elsewhere :
    {A : Type 0} (table : Role → State → Option A) (body : Framing → A) (r : Role)
    (event : Option Event) (c : Connection)
    → is_state (state_of r c.cstate.states) send_body ≡ false
    → io_object table body r event c ≡ (ok (table r (state_of r c.cstate.states)), c)
io_elsewhere table body r none c h = rw h refl
io_elsewhere table body r (some e) c h = rw h refl

write_updated :
    (old : States) (event : Option Event) (c : Connection)
    → Opens old c.cstate.states c.request_method event
    → ((w : Option Writer) × (update_writer old event c ≡ (ok tt, record c { writer = w })))
      ⊎ ((update_writer old event c ≡ (raise value_error, c)) × TooLong event value_error)
write_updated old event c o = elim (Bool-cases (is_state (our_state c) (state_of c.our_role old))) [
  | inl k ↦ inl (c.writer, rw k refl)
  | inr k ↦ elim (Bool-cases (is_state (our_state c) send_body)) [
    | inr n ↦ inl (
      writer_for c.our_role (our_state c),
      rw (k, io_elsewhere writer_for body_writer c.our_role event c n) refl,
    )
    | inl n ↦ elim (o c.our_role (moved _ _ k n)) [
      | inl m ↦ in_body n m
      | inr f ↦ elim (io_in_body writer_for body_writer c.our_role event c n f) [
        | inl (g, e) ↦ inl (some (body_writer g), rw (k, e) refl)
        | inr (e, t) ↦ inr (rw (k, e) refl, t)
      ]
    ]
  ]
]

body_reader-Coherent :
    (r : Role) (q : State) (f : Framing)
    → is_state q send_body ≡ true
    → Coherent r q (some (body_reader f))
unfolding body_reader
body_reader-Coherent r q (content_length n) h = ground arith
body_reader-Coherent r q chunked h = ground arith
body_reader-Coherent r q http10 h = ground arith

reader_for-Coherent :
    (r : Role) (q : State) → is_state q send_body ≡ false → Coherent r q (reader_for r q)
reader_for-Coherent r q h = ground arith

-- A reader that fits before fits after.
abbrev Refits : Role → State → State → Option Reader → Option Reader → Type 0
Refits r p q old now = Coherent r p old → Coherent r q now

read_updated :
    (old : States) (event : Option Event) (c : Connection)
    → Opens old c.cstate.states c.request_method event
    → ((rd : Option Reader) × (update_reader old event c ≡ (ok tt, record c { reader = rd }))
        × Refits (their_role c) (state_of (their_role c) old) (their_state c) c.reader rd)
      ⊎ ((update_reader old event c ≡ (raise value_error, c)) × TooLong event value_error)
read_updated old event c o =
    elim (Bool-cases (is_state (their_state c) (state_of (their_role c) old))) [
      | inl k ↦ inl (
        c.reader,
        rw k refl,
        λ h. subst (λ q. Coherent (their_role c) q c.reader) (sym (is_state-eq _ _ k)) h,
      )
      | inr k ↦ elim (Bool-cases (is_state (their_state c) send_body)) [
        | inr n ↦ inl (
          reader_for (their_role c) (their_state c),
          rw (k, io_elsewhere reader_for body_reader (their_role c) event c n) refl,
          λ h. reader_for-Coherent (their_role c) (their_state c) n,
        )
        | inl n ↦ elim (o (their_role c) (moved _ _ k n)) [
          | inl m ↦ in_body n m
          | inr f ↦ elim (io_in_body reader_for body_reader (their_role c) event c n f) [
            | inl (g, e) ↦ inl (
              some (body_reader g),
              rw (k, e) refl,
              λ h. body_reader-Coherent (their_role c) (their_state c) g n,
            )
            | inr (e, t) ↦ inr (rw (k, e) refl, t)
          ]
        ]
      ]
    ]

-- The update returns, and a reader that fitted the peer's old state makes place for one that fits the
-- new state; or the framing of the event's body raised a ValueError.
pub responded :
    (old : States) (event : Option Event) (c : Connection)
    → Opens old c.cstate.states c.request_method event
    → ((w : Option Writer) × (rd : Option Reader) × (respond_to_state_changes old event c
          ≡ (ok tt, record c { writer = w; reader = rd }))
        × Refits (their_role c) (state_of (their_role c) old) (their_state c) c.reader rd)
      ⊎ ((d : Connection) × (respond_to_state_changes old event c ≡ (raise value_error, d))
          × TooLong event value_error)
unfolding respond_to_state_changes
responded old event c o = elim (write_updated old event c o) [
  | inr (e, t) ↦ inr (c, rw e refl, t)
  | inl (w, e) ↦ elim (read_updated old event (record c { writer = w }) o) [
    | inr (k, t) ↦ inr (record c { writer = w }, rw (e, k) refl, t)
    | inl (rd, k, p) ↦ inl (w, rd, rw (e, k) refl, p)
  ]
]

-- Without an event it returns.
pub responded_alone :
    (old : States) (c : Connection)
    → ((q : Role)
        → is_state (state_of q old) send_body ≡ false
        → is_state (state_of q c.cstate.states) send_body ≡ false)
    → (w : Option Writer) × (rd : Option Reader) × (respond_to_state_changes old none c
        ≡ (ok tt, record c { writer = w; reader = rd }))
      × Refits (their_role c) (state_of (their_role c) old) (their_state c) c.reader rd
responded_alone old c o = elim (responded old none c (λ q n. inl (o q n))) [
  | inl r ↦ r
  | inr (d, e, t) ↦ elim t [ ]
]

-- The peer is in a state in which something can come, and has a reader then.
pub has_reader :
    (r : Role) (q : State) (rd : Option Reader)
    → Coherent r q rd
    → is_state q error ≡ false
    → is_state q might_switch_protocol ≡ false
    → is_state q switched_protocol ≡ false
    → ((r ≡ client) → q ≢ send_response)
    → rd ≢ none
unfolding reader_for
has_reader client q rd h e m s l = ground arith
has_reader server q rd h e m s l = ground arith

table_reader : (r : Role) (q : State) (rd : Reader) → some rd ≡ reader_for r q → is_body rd ≡ false
unfolding reader_for
table_reader r q rd h = ground arith

still_listed :
    (r : Role) (q : State) (rd rd' : Reader)
    → some rd ≡ reader_for r q
    → Follows rd rd'
    → some rd' ≡ reader_for r q
still_listed r q rd rd' h (_, same) =
    subst (λ x. some x ≡ reader_for r q) (sym (same (table_reader r q rd h))) h

-- A reader that has been called still fits.
pub Follows-Coherent :
    (r : Role) (q : State) (rd rd' : Reader)
    → Coherent r q (some rd)
    → Follows rd rd'
    → Coherent r q (some rd')
Follows-Coherent r send_body rd rd' h (b, s) = b ∙ h
Follows-Coherent r idle rd rd' h f = still_listed r idle rd rd' h f
Follows-Coherent r send_response rd rd' h f = still_listed r send_response rd rd' h f
Follows-Coherent r done rd rd' h f = still_listed r done rd rd' h f
Follows-Coherent r must_close rd rd' h f = still_listed r must_close rd rd' h f
Follows-Coherent r closed rd rd' h f = still_listed r closed rd rd' h f
Follows-Coherent r error rd rd' h f = still_listed r error rd rd' h f
Follows-Coherent r might_switch_protocol rd rd' h f =
    still_listed r might_switch_protocol rd rd' h f
Follows-Coherent r switched_protocol rd rd' h f = still_listed r switched_protocol rd rd' h f
