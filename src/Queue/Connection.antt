-- ===== src/Queue/Connection.antt =====
-- common/queue/connection.go: a connection that is set up again when it closes, with its channels.
-- `setup` runs under the lock, so it is one step. `channels` is a Go slice of pointers, nil at first.
pub mod Ready
pub mod Life
use dice_server.Prelude.{
  ℕ, zero, suc, ◌+◌, ◌*◌, ◌%◌, ◌^◌, String, Bool, true, false, Option, none, some, List, [], ◌∷◌,
  ltb, ◌==◌, if◌then◌else◌, get_elem?, set,
}
use dice_server.Queue.Amqp.{Handle, Amqp, dial, close_handle, shut_all, is_open, close_open}
use dice_server.Queue.Channel
use dice_server.Queue.Channel.{Channel, new_channel}

pub record Connection : Type 0 where
  pub channel_count : ℕ
  pub inner : Option Handle
  pub channels : List (Option Channel)
  pub cursor : ℕ

abbrev pub u32_mod : ℕ
u32_mod = 4_294_967_296

-- `make([]*Channel, n)`.
unfoldable pub nil_channels : ℕ → List (Option Channel)
nil_channels zero = []
nil_channels (suc n) = none ∷ nil_channels n

-- Where a channel cannot be made, the new connection is closed.
unfoldable pub give_up : Connection → Bool × Amqp → Option String × Connection × Amqp
give_up rc (ok, w) = (some "failed to create channel", record rc { inner = shut_all rc.inner }, w)

unfoldable pub after_channel :
    (Connection → Amqp → Option String × Connection × Amqp)
    → Handle
    → ℕ
    → Connection
    → Option Channel × Amqp
    → Option String × Connection × Amqp
unfolding give_up
after_channel rest conn i rc (none, w) = give_up rc (close_handle conn w)
after_channel rest conn i rc (some ch, w) =
    rest (record rc { channels = set rc.channels i (some ch) }) w

-- The loop of `setup` over so many channels from the index i.
unfoldable pub make_channels :
    ℕ → ℕ → Handle → Connection → Amqp → Option String × Connection × Amqp
unfolding after_channel
make_channels zero i conn rc w = (none, rc, w)
make_channels (suc n) i conn rc w =
    after_channel (make_channels n (i + 1) conn) conn i rc (new_channel conn w)

unfoldable pub use_dialed : Option Handle × Amqp → Connection → Option String × Connection × Amqp
unfolding make_channels
use_dialed (none, w) rc = (some "failed to dial rabbitmq", rc, w)
use_dialed (some conn, w) rc =
    make_channels rc.channel_count 0 conn (record rc { inner = some conn; cursor = 0 }) w

unfoldable pub redial : Bool × Amqp → Connection → Option String × Connection × Amqp
unfolding use_dialed
redial (false, w) rc =
    (some "failed to close previous connection", record rc { inner = shut_all rc.inner }, w)
redial (true, w) rc = use_dialed (dial w) (record rc { inner = shut_all rc.inner })

unfoldable pub setup : Connection → Amqp → Option String × Connection × Amqp
unfolding redial
setup rc w = redial (close_open rc.inner w) rc

unfoldable pub made : Option String × Connection × Amqp → Option Connection × Amqp
made (none, rc, w) = (some rc, w)
made (some err, rc, w) = (none, w)

unfoldable pub new_connection : ℕ → Amqp → Option Connection × Amqp
unfolding made setup nil_channels
new_connection channel_count w = made (
    setup
      (record {
        channel_count = channel_count;
        inner = none;
        channels = nil_channels channel_count;
        cursor = 0;
      })
      w)

unfoldable pub is_ready : Connection → Bool
is_ready rc = is_open rc.inner

-- `cursor.Add(1) % count` with the cursor afterwards, for a count above 0; `Pool.connection` takes
-- its index in the same way.
unfoldable pub next_index : ℕ → ℕ → ℕ × ℕ
next_index count cursor = let cursor' = (cursor + 1) % u32_mod in (cursor' % count, cursor')

-- The slot that `channel` reads, and the connection afterwards. `none` is the panic of a remainder by
-- 0 or of an index out of range; `some none` is a nil channel.
unfoldable pub pick : ℕ × ℕ → Connection → Option (Option Channel) × Connection
pick (i, cursor') rc = (get_elem? rc.channels i, record rc { cursor = cursor' })

unfoldable pub channel : Connection → Option (Option Channel) × Connection
unfolding pick next_index
channel rc =
    if rc.channel_count == 0 then (none, rc) else pick (next_index rc.channel_count rc.cursor) rc

-- `exclusive`: `none` is the panic on a nil connection, `some none` the error.
unfoldable pub exclusive : Option Handle → Amqp → Option (Option Channel) × Amqp
exclusive none w = (none, w)
exclusive (some conn) w = let (ch, w') = new_channel conn w in (some ch, w')

-- The loop of `Close` over the channels: it stops at the first error.
unfoldable pub next_closed :
    (Amqp → Option String × List (Option Channel) × Amqp)
    → List (Option Channel)
    → Option String × Channel × Amqp
    → Option String × List (Option Channel) × Amqp
next_closed rest chs (some err, c, w) = (some "failed to close channel", some c ∷ chs, w)
next_closed rest chs (none, c, w) = let (err, chs', w') = rest w in (err, some c ∷ chs', w')

unfoldable pub close_channels :
    List (Option Channel) → Amqp → Option String × List (Option Channel) × Amqp
unfolding next_closed Channel.close
close_channels [] w = (none, [], w)
close_channels (none ∷ chs) w = let (err, chs', w') = close_channels chs w in (err, none ∷ chs', w')
close_channels (some c ∷ chs) w = next_closed (close_channels chs) chs (Channel.close c w)

unfoldable pub closed_inner : Bool × Amqp → Connection → Option String × Connection × Amqp
closed_inner (false, w) rc =
    (some "failed to close connection", record rc { inner = shut_all rc.inner }, w)
closed_inner (true, w) rc = (none, record rc { inner = none }, w)

unfoldable pub close_conn : Option Handle → Connection → Amqp → Option String × Connection × Amqp
unfolding closed_inner
close_conn none rc w = (none, rc, w)
close_conn (some h) rc w = closed_inner (close_handle h w) rc

unfoldable pub after_channels :
    Connection → Option String × List (Option Channel) × Amqp → Option String × Connection × Amqp
unfolding close_conn
after_channels rc (some err, chs, w) = (some err, record rc { channels = chs }, w)
after_channels rc (none, chs, w) = close_conn rc.inner (record rc { channels = chs }) w

-- `Close`.
unfoldable pub close : Connection → Amqp → Option String × Connection × Amqp
unfolding after_channels close_channels
close rc w = after_channels rc (close_channels rc.channels w)

abbrev pub reconnect_backoff_base : ℕ
reconnect_backoff_base = 100_000_000

-- One round of `closeListener` behind `<-rc.closing`, from a backoff in nanoseconds: how long it
-- sleeps, where it does, with the backoff and the connection afterwards. A `time.Duration` is a 64-bit
-- pattern.
unfoldable pub after_setup :
    ℕ → Option String × Connection × Amqp → Option ℕ × ℕ × Connection × Amqp
after_setup backoff (some err, rc, w) = (some backoff, backoff * 2 % 2 ^ 64, rc, w)
after_setup backoff (none, rc, w) = (none, reconnect_backoff_base, rc, w)

unfoldable pub listen_round : ℕ → Connection → Amqp → Option ℕ × ℕ × Connection × Amqp
unfolding after_setup setup
listen_round backoff rc w = after_setup backoff (setup rc w)
