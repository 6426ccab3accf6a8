-- ===== src/Queue/Connection/Life.antt =====
-- A connection over its life: the listener sets it up again when it closes, and others take channels
-- from it (common/queue/connection.go).
use native.Mathlib.Nat.{mod-lt}
use dice_server.Prelude.{
  if_intro, ℕ, zero, suc, ◌+◌, ◌*◌, ◌%◌, ◌^◌, ◌≤◌, ◌<◌, ◌≡◌, refl, Option, none, some, List, [],
  ◌∷◌, String, ◌==◌, ◌∙◌, arith,
}
use dice_server.Queue.Amqp.{Amqp, shut_all}
use dice_server.Queue.Channel.{Channel}
use dice_server.Queue.Connection.{
  Connection, new_connection, u32_mod, setup, next_index, pick, channel, reconnect_backoff_base,
  after_setup, listen_round,
}
use dice_server.Queue.Connection.Ready.{
  IsNew, new_connection-IsNew, setup-IsSetUp, IsWhole, setup-IsWhole,
}

-- The connection closes; the listener notices a closed connection; a channel is taken.
pub data Event : Type 0 where
  lost noticed taken : Event

-- `streak` counts the rounds of the listener that have failed since the last one that did not, and
-- `slept` is how long it has slept in them.
pub record Life : Type 0 where
  pub backoff : ℕ
  pub conn : Connection
  pub amqp : Amqp
  pub streak : ℕ
  pub slept : ℕ

abbrev pub after_round : Option ℕ × ℕ × Connection × Amqp → Life → Life
after_round (none, backoff, rc, w) l = record {
  backoff = backoff;
  conn = rc;
  amqp = w;
  streak = 0;
  slept = 0;
}
after_round (some time, backoff, rc, w) l = record {
  backoff = backoff;
  conn = rc;
  amqp = w;
  streak = suc l.streak;
  slept = l.slept + time;
}

abbrev pub happen : Event → Life → Life
happen lost l = record l { conn = record (l.conn) { inner = shut_all l.conn.inner } }
happen noticed l = after_round (listen_round l.backoff l.conn l.amqp) l
happen taken l = record l { conn = (channel l.conn).1 }

abbrev pub happen_all : List Event → Life → Life
happen_all [] l = l
happen_all (e ∷ es) l = happen_all es (happen e l)

abbrev pub start : Connection → Amqp → Life
start rc w = record { backoff = reconnect_backoff_base; conn = rc; amqp = w; streak = 0; slept = 0 }

abbrev twos : ℕ → ℕ
twos zero = 1
twos (suc k) = 2 * twos k

twos_mono : (k n : ℕ) → k ≤ n → twos k ≤ twos n
twos_mono zero zero h = omega arith
twos_mono zero (suc n) h = omega (arith, twos_mono zero n)
twos_mono (suc k) zero h = absurd (omega arith)
twos_mono (suc k) (suc n) h = omega (arith, twos_mono k n)

pub channel-some :
    (rc : Connection)
    → IsWhole rc
    → 0 < rc.channel_count
    → (c : Channel) × ((channel rc).0 ≡ some (some c))
unfolding channel pick next_index
channel-some rc h many =
    let (c, e) = h.filled ((rc.cursor + 1) % u32_mod % rc.channel_count) (mod-lt _ many) in
    (c, ground arith)

pub channel-IsWhole :
    (rc : Connection)
    → IsWhole rc
    → IsWhole (channel rc).1 × ((channel rc).1.channel_count ≡ rc.channel_count)
unfolding channel pick next_index
channel-IsWhole rc h =
    if_intro
      (λ (p : Option (Option Channel) × Connection).
        IsWhole p.1 × (p.1.channel_count ≡ rc.channel_count))
      (rc.channel_count == 0) _ _ (h, refl) (record { count = h.count; filled = h.filled }, refl)

-- All n channels are there, and up to 37 failures in a row the next wait is 100 ms and all the waits
-- before it together.
record IsSteady (n : ℕ) (l : Life) : Type 0 where
  asked : l.conn.channel_count ≡ n
  whole : IsWhole l.conn
  power : l.streak ≤ 37 → l.backoff ≡ reconnect_backoff_base * twos l.streak
  paced : l.streak ≤ 37 → l.backoff ≡ reconnect_backoff_base + l.slept

after_round-IsSteady :
    (n : ℕ) (l : Life) (r : Option String × Connection × Amqp)
    → r.1.channel_count ≡ n
    → IsWhole r.1
    → IsSteady n l
    → IsSteady n (after_round (after_setup l.backoff r) l)
unfolding after_setup
after_round-IsSteady n l (none, rc, w) asked whole s = record {
  asked = asked;
  whole = whole;
  power = λ few. refl;
  paced = λ few. refl;
}
after_round-IsSteady n l (some err, rc, w) asked whole s = record {
  asked = asked;
  whole = whole;
  power = λ few. omega (arith, s.power (omega arith), twos_mono l.streak 36 (omega arith));
  paced = λ few.
      omega
        (arith, s.power (omega arith), s.paced (omega arith), twos_mono l.streak 36 (omega arith));
}

happen-IsSteady : (n : ℕ) (e : Event) (l : Life) → IsSteady n l → IsSteady n (happen e l)
unfolding listen_round
happen-IsSteady n lost l s = record {
  asked = s.asked;
  whole = record { count = s.whole.count; filled = s.whole.filled };
  power = s.power;
  paced = s.paced;
}
happen-IsSteady n noticed l s =
    after_round-IsSteady n l (setup l.conn l.amqp)
      ((setup-IsSetUp l.conn l.amqp).same_count ∙ s.asked) (setup-IsWhole l.conn l.amqp s.whole) s
happen-IsSteady n taken l s =
    let (whole, same) = channel-IsWhole l.conn s.whole in
    record { asked = same ∙ s.asked; whole = whole; power = s.power; paced = s.paced }

happen_all-IsSteady :
    (n : ℕ) (es : List Event) (l : Life) → IsSteady n l → IsSteady n (happen_all es l)
happen_all-IsSteady n [] l s = s
happen_all-IsSteady n (e ∷ es) l s = happen_all-IsSteady n es (happen e l) (happen-IsSteady n e l s)

start-IsSteady : (n : ℕ) (rc : Connection) (w : Amqp) → IsNew n rc → IsSteady n (start rc w)
start-IsSteady n rc w h = record {
  asked = h.asked;
  whole = h.whole;
  power = λ few. refl;
  paced = λ few. refl;
}

-- After whatever a new connection with at least one channel goes through, lost connections, rounds of
-- the listener that fail half-way or not, and channels taken, the next `channel` gives a channel: it
-- never panics and the channel is never nil.
pub happen_all-channel :
    (n : ℕ) (w w' : Amqp) (rc : Connection) (es : List Event)
    → 0 < n
    → new_connection n w ≡ (some rc, w')
    → (c : Channel) × ((channel (happen_all es (start rc w')).conn).0 ≡ some (some c))
happen_all-channel n w w' rc es many e =
    let s =
      happen_all-IsSteady n es (start rc w')
        (start-IsSteady n rc w' (new_connection-IsNew n w w' rc e)) in
    channel-some (happen_all es (start rc w')).conn s.whole (omega (arith, s.asked))

-- After at most 36 failed rounds of the listener in a row, its next wait is as long as all the waits in
-- this row together and 100 ms, and as a signed 64-bit duration it has not overflowed.
pub happen_all-backoff :
    (n : ℕ) (w w' : Amqp) (rc : Connection) (es : List Event)
    → new_connection n w ≡ (some rc, w')
    → (happen_all es (start rc w')).streak ≤ 36
    → ((happen_all es (start rc w')).backoff
        ≡ reconnect_backoff_base + (happen_all es (start rc w')).slept)
      × ((happen_all es (start rc w')).backoff < 2 ^ 63)
happen_all-backoff n w w' rc es e few =
    let l = happen_all es (start rc w') in
    let s =
      happen_all-IsSteady n es (start rc w')
        (start-IsSteady n rc w' (new_connection-IsNew n w w' rc e)) in
    (s.paced (omega arith), omega (arith, s.power (omega arith), twos_mono l.streak 36 few))
