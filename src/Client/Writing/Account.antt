-- ===== src/Client/Writing/Account.antt =====
-- What becomes of the messages that a client sends (game/common/client/client.go).
use dice_server.Prelude.{
  ℕ, zero, suc, ◌+◌, ◌≡◌, refl, ap, Bool, true, false, Option, none, some, List, [], ◌∷◌, ◌++◌,
  if◌then◌else◌, if_intro, ltb, length, get_elem?, set, arith,
}
use dice_server.Client.Socket.{
  message_buffer_limit, send, take_from, take_outgoing, reconnect, close, new_web_socket_client,
}
use dice_server.Client.Writing.{
  is_woken, Writing, looping, selecting, writing, ended, Writer, Wire, WriterEvent, enters, takes,
  wakes, has_written, WireEvent, client_sends, client_reconnects, client_closes, in_writer,
  new_wire, move_writer, write_taken, writer_step, writer_at, after_send, wire_step, run_wire,
}

module _ {B : Type 0} (test : B → Bool) where
  -- How many of these messages pass the test.
  abbrev pub tally : List B → ℕ
  tally [] = 0
  tally (msg ∷ msgs) = (if test msg then 1 else 0) + tally msgs

  tally-append : (xs ys : List B) → tally (xs ++ ys) ≡ tally xs + tally ys
  tally-append [] ys = omega arith
  tally-append (x ∷ xs) ys = omega (arith, tally-append xs ys)

  abbrev pub tally_written : List (ℕ × B) → ℕ
  tally_written [] = 0
  tally_written ((conn, msg) ∷ xs) = (if test msg then 1 else 0) + tally_written xs

  tally_written-append :
      (xs : List (ℕ × B)) (conn : ℕ) (msg : B)
      → tally_written (xs ++ (conn, msg) ∷ []) ≡ tally_written xs + tally (msg ∷ [])
  tally_written-append [] conn msg = omega arith
  tally_written-append ((c, m) ∷ xs) conn msg = omega (arith, tally_written-append xs conn msg)

  abbrev pub tally_at : Writing B → ℕ
  tally_at looping = 0
  tally_at (selecting generation) = 0
  tally_at (writing msg) = tally (msg ∷ [])
  tally_at ended = 0

  -- The messages that are being written.
  abbrev pub tally_writers : List (Writer B) → ℕ
  tally_writers [] = 0
  tally_writers (w ∷ ws) = tally_at w.stands + tally_writers ws

  tally_writers-append :
      (ws : List (Writer B)) (conn : ℕ)
      → tally_writers (ws ++ record { conn = conn; stands = looping } ∷ []) ≡ tally_writers ws
  tally_writers-append [] conn = omega arith
  tally_writers-append (w ∷ ws) conn = omega (arith, tally_writers-append ws conn)

  tally_writers-set :
      (ws : List (Writer B)) (i : ℕ) (w : Writer B) (stands : Writing B)
      → get_elem? ws i ≡ some w
      → tally_writers (set ws i (record w { stands = stands })) + tally_at w.stands
        ≡ tally_writers ws + tally_at stands
  tally_writers-set [] i w stands e = absurd (ground arith)
  tally_writers-set (v ∷ ws) zero w stands e =
      let same : v ≡ w = ground (arith, e) in
      omega (arith, ap (λ x. tally_at (Writer.stands x)) same)
  tally_writers-set (v ∷ ws) (suc i) w stands e = omega (arith, tally_writers-set ws i w stands e)

  moved :
      (ws : List (Writer B)) (i : ℕ) (w : Writer B) (before after : Writing B)
      → get_elem? ws i ≡ some w
      → w.stands ≡ before
      → tally_writers (set ws i (record w { stands = after })) + tally_at before
        ≡ tally_writers ws + tally_at after
  moved ws i w before after there at =
      omega (arith, tally_writers-set ws i w after there, ap tally_at at)

module _ {A B : Type 0} where
  -- Of the messages that were accepted, as many pass the test as of those that were written, were lost,
  -- are being written and wait.
  abbrev pub IsAccounted : (B → Bool) → Wire A B → Type 0
  IsAccounted test r =
      tally test r.accepted
      ≡ tally_written test r.written
        + tally test r.lost
        + tally_writers test r.writers
        + tally test r.client.outgoing

  taken-IsAccounted :
      (test : B → Bool) (i : ℕ) (w : Writer B) (out : List B) (r : Wire A B)
      → get_elem? r.writers i ≡ some w
      → tally_at test w.stands ≡ 0
      → r.client.outgoing ≡ out
      → IsAccounted test r
      → IsAccounted test (write_taken i w (take_from out r.client) r)
  unfolding write_taken take_from move_writer
  taken-IsAccounted test i w [] r e z at h = h
  taken-IsAccounted test i w (msg ∷ rest) r e z at h =
      omega (arith, h, ap (tally test) at, tally_writers-set test r.writers i w (writing msg) e, z)

  writer_step-IsAccounted :
      (test : B → Bool) (i : ℕ) (w : Writer B) (stands : Writing B) (e : WriterEvent) (r : Wire A B)
      → get_elem? r.writers i ≡ some w
      → w.stands ≡ stands
      → IsAccounted test r
      → IsAccounted test (writer_step i w stands e r)
  unfolding writer_step take_outgoing
  writer_step-IsAccounted test i w looping enters r there at h =
      omega (arith, h, moved test r.writers i w looping (selecting r.client.generation) there at)
  writer_step-IsAccounted test i w (selecting generation) takes r there at h =
      taken-IsAccounted test i w r.client.outgoing r there (ap (tally_at test) at) refl h
  writer_step-IsAccounted test i w (selecting generation) wakes r there at h =
      if_intro (IsAccounted test) (is_woken generation r.client) (move_writer i w ended r) r
        (omega (arith, h, moved test r.writers i w (selecting generation) ended there at)) h
  writer_step-IsAccounted test i w (writing msg) (has_written true) r there at h = omega (
    arith,
    h,
    moved test r.writers i w (writing msg) looping there at,
    tally_written-append test r.written w.conn msg,
  )
  writer_step-IsAccounted test i w (writing msg) (has_written false) r there at h = omega (
    arith,
    h,
    moved test r.writers i w (writing msg) ended there at,
    tally-append test r.lost (msg ∷ []),
  )
  writer_step-IsAccounted test i w looping takes r there at h = h
  writer_step-IsAccounted test i w looping wakes r there at h = h
  writer_step-IsAccounted test i w looping (has_written ok) r there at h = h
  writer_step-IsAccounted test i w (selecting generation) enters r there at h = h
  writer_step-IsAccounted test i w (selecting generation) (has_written ok) r there at h = h
  writer_step-IsAccounted test i w (writing msg) enters r there at h = h
  writer_step-IsAccounted test i w (writing msg) takes r there at h = h
  writer_step-IsAccounted test i w (writing msg) wakes r there at h = h
  writer_step-IsAccounted test i w ended e r there at h = h

  writer_at-IsAccounted :
      (test : B → Bool) (i : ℕ) (o : Option (Writer B)) (e : WriterEvent) (r : Wire A B)
      → get_elem? r.writers i ≡ o
      → IsAccounted test r
      → IsAccounted test (writer_at i o e r)
  unfolding writer_at
  writer_at-IsAccounted test i none e r there h = h
  writer_at-IsAccounted test i (some w) e r there h =
      writer_step-IsAccounted test i w w.stands e r there refl h

  send-IsAccounted :
      (test : B → Bool) (msg : B) (r : Wire A B)
      → IsAccounted test r
      → IsAccounted test (after_send msg (send msg r.client) r)
  unfolding after_send send
  send-IsAccounted test msg r h =
      if_intro (λ x. IsAccounted test (after_send msg x r))
        (ltb (length r.client.outgoing) message_buffer_limit) _ _
        (omega (
          arith,
          h,
          tally-append test r.accepted (msg ∷ []),
          tally-append test r.client.outgoing (msg ∷ []),
        ))
        h

  wire_step-IsAccounted :
      (test : B → Bool) (e : WireEvent B) (r : Wire A B)
      → IsAccounted test r
      → IsAccounted test (wire_step e r)
  unfolding wire_step reconnect close
  wire_step-IsAccounted test (client_sends msg) r h = send-IsAccounted test msg r h
  wire_step-IsAccounted test (client_reconnects conn) r h =
      omega (arith, h, tally_writers-append test r.writers conn)
  wire_step-IsAccounted test client_closes r h = h
  wire_step-IsAccounted test (in_writer i e) r h =
      writer_at-IsAccounted test i (get_elem? r.writers i) e r refl h

  run_wire-IsAccounted :
      (test : B → Bool) (es : List (WireEvent B)) (r : Wire A B)
      → IsAccounted test r
      → IsAccounted test (run_wire es r)
  unfolding run_wire
  run_wire-IsAccounted test [] r h = h
  run_wire-IsAccounted test (e ∷ es) r h =
      run_wire-IsAccounted test es (wire_step e r) (wire_step-IsAccounted test e r h)

-- However the writing loops of all the connections that a client has had and its other methods
-- interleave: of the messages that `Send` took, as many pass any test as of those that were written,
-- those whose writing failed, those that a loop is writing and those that wait. So each is written at
-- most once, and none is lost but by a write that failed.
pub run_wire-new_wire-IsAccounted :
    {B : Type 0} (A : Type 0) (es : List (WireEvent B)) (test : B → Bool)
    → IsAccounted {A = A} test (run_wire es new_wire)
unfolding new_wire new_web_socket_client
run_wire-new_wire-IsAccounted A es test = run_wire-IsAccounted test es new_wire (omega arith)
