-- ===== src/Queue/Channel.antt =====
-- common/queue/channel.go: a channel that can be set up again. `none` is a nil error, an error is the
-- message that it was wrapped with. The lock and the goroutine `closeListener`, which nothing starts,
-- are not modelled.
use dice_server.Prelude.{String, Bool, true, false, Option, none, some}
use dice_server.Queue.Amqp.{Handle, Amqp, open_channel, close_handle, shut_all, is_open, close_open}

pub record Channel : Type 0 where
  pub inner : Option Handle

-- Behind the closing of the previous channel.
unfoldable pub open_inner : Option Handle × Amqp → Channel → Option String × Channel × Amqp
open_inner (none, w) c = (some "failed to create channel", c, w)
open_inner (some h, w) c = (none, record c { inner = some h }, w)

unfoldable pub reopen : Handle → Bool × Amqp → Channel → Option String × Channel × Amqp
unfolding open_inner
reopen conn (false, w) c =
    (some "failed to close previous channel", record c { inner = shut_all c.inner }, w)
reopen conn (true, w) c = open_inner (open_channel conn w) (record c { inner = shut_all c.inner })

unfoldable pub setup : Handle → Channel → Amqp → Option String × Channel × Amqp
unfolding reopen
setup conn c w = reopen conn (close_open c.inner w) c

-- `newChannel`: the channel, where `setup` succeeds.
unfoldable pub made : Option String × Channel × Amqp → Option Channel × Amqp
made (none, c, w) = (some c, w)
made (some err, c, w) = (none, w)

unfoldable pub new_channel : Handle → Amqp → Option Channel × Amqp
unfolding made setup
new_channel conn w = made (setup conn (record { inner = none }) w)

unfoldable pub is_ready : Channel → Bool
is_ready c = is_open c.inner

unfoldable pub closed_channel : Bool × Amqp → Channel → Option String × Channel × Amqp
closed_channel (false, w) c =
    (some "failed to close channel", record c { inner = shut_all c.inner }, w)
closed_channel (true, w) c = (none, record c { inner = none }, w)

unfoldable pub close_some : Option Handle → Channel → Amqp → Option String × Channel × Amqp
unfolding closed_channel
close_some none c w = (none, c, w)
close_some (some h) c w = closed_channel (close_handle h w) c

-- `Close`.
unfoldable pub close : Channel → Amqp → Option String × Channel × Amqp
unfolding close_some
close c w = close_some c.inner c w
