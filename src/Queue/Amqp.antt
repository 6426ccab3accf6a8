-- ===== src/Queue/Amqp.antt =====
-- What common/queue uses of the AMQP library: `Dial`, `Connection.Channel`, and `Close` and `IsClosed`
-- of both. Whether a call succeeds is up to the broker: the next answer of a stream. `log` is what
-- has succeeded or was tried, in order. A handle on which `Close` was called is closed, whatever the
-- answer.
use dice_server.Prelude.{
  ℕ, suc, ◌+◌, Bool, true, false, Option, none, some, List, [], ◌∷◌, ◌++◌, if◌then◌else◌,
}

pub record Handle : Type 0 where
  pub id : ℕ
  pub is_closed : Bool

-- `opened c i` is the channel i on the connection c.
pub data Call : Type 0 where
  dialed : ℕ → Call
  opened : ℕ → ℕ → Call
  closed : ℕ → Call

pub record Amqp : Type 0 where
  pub answers : ℕ → Bool
  pub next_id : ℕ
  pub log : List Call

abbrev pub answer : Amqp → Bool × Amqp
answer w = (w.answers 0, record w { answers = λ i. w.answers (suc i) })

-- A new handle for a call that succeeds.
abbrev pub grant : (ℕ → Call) → Bool × Amqp → Option Handle × Amqp
grant call (false, w) = (none, w)
grant call (true, w) = (
  some (record { id = w.next_id; is_closed = false }),
  record w { next_id = w.next_id + 1; log = w.log ++ call w.next_id ∷ [] },
)

abbrev pub dial : Amqp → Option Handle × Amqp
dial w = grant dialed (answer w)

abbrev pub open_channel : Handle → Amqp → Option Handle × Amqp
open_channel conn w = grant (opened conn.id) (answer w)

-- Whether it closed without an error.
abbrev pub close_handle : Handle → Amqp → Bool × Amqp
close_handle h w = answer (record w { log = w.log ++ closed h.id ∷ [] })

abbrev pub shut : Handle → Handle
shut h = record h { is_closed = true }

abbrev pub shut_all : Option Handle → Option Handle
shut_all none = none
shut_all (some h) = some (shut h)

-- `inner != nil && !inner.IsClosed()`.
abbrev pub is_open : Option Handle → Bool
is_open none = false
is_open (some h) = if h.is_closed then false else true

-- Closes a handle that is open; true where there is none.
abbrev pub close_open : Option Handle → Amqp → Bool × Amqp
close_open none w = (true, w)
close_open (some h) w = elim (h.is_closed) [ true ↦ (true, w) | false ↦ close_handle h w ]
