-- ===== src/Queue/Examples.antt =====
-- Runs of the queue (common/queue), and the theorems at concrete inputs.
use dice_server.Prelude.{
  ℕ, suc, ◌+◌, ◌-◌, ◌<◌, ◌^◌, ◌≡◌, refl, true, false, some, List, [], ◌∷◌, ltb, ◌==◌, ◌||◌, ◌&&◌,
  ◌%◌, arith,
}
use Prim.Native.String.{◌∷◌ as ◌∷ˢ◌}
use text.Mathlib.TextLemmas.{nil≢cons, tail-eq_of_cons-eq}
use dice_server.Prelude.{String, zero, sym, ap}
use dice_server.Queue.Declaration.Apart.{accepts, queue_name-injective}
use dice_server.Queue.Amqp.{Handle, dialed, opened, closed, Amqp}
use dice_server.Queue.Channel
use dice_server.Queue.Channel.{Channel}
use dice_server.Queue.Connection.{
  Connection, reconnect_backoff_base, new_connection, channel, listen_round,
}
use dice_server.Queue.Connection.Life.{
  lost, noticed, taken, Life, happen_all, start, happen_all-backoff,
}
use dice_server.Queue.Pool
use dice_server.Queue.Pool.Life
use dice_server.Queue.Pool.Served.{channel-happen_all}
use dice_server.Queue.Pool.{Pool, Readiness, new_pool, connection}
use dice_server.Queue.Pool.Robin.{IsFound, connection-IsFound}
use dice_server.Queue.Pool.Leaks.{LeavesNone, new_pool-LeavesNone}
use dice_server.Queue.Publisher
use dice_server.Queue.Publisher.{RawMessage, takes, new_publisher, run, Publisher}
use dice_server.Queue.Publisher.Once.{IsOnce, run-new_publisher-IsOnce}
use dice_server.Queue.Consumer
use dice_server.Queue.Consumer.{Consumer, new_consumer}
use dice_server.Queue.Consumer.Order.{IsOrderly, run-new_consumer-IsOrderly}

-- The broker answers the first calls, and then no more.
abbrev broker : ℕ → Amqp
broker calls = record { answers = λ i. ltb i calls; next_id = 0; log = [] }

abbrev handle : ℕ → Handle
handle id = record { id = id; is_closed = false }

-- A connection of two channels.
abbrev two_channels : Connection
two_channels = record {
  channel_count = 2;
  inner = some (handle 0);
  channels =
      some (record { inner = some (handle 1) }) ∷ some (record { inner = some (handle 2) }) ∷ [];
  cursor = 0;
}

abbrev after_three : Amqp
after_three = record {
  answers = λ i. ltb (suc (suc (suc i))) 3;
  next_id = 3;
  log = dialed 0 ∷ opened 0 1 ∷ opened 0 2 ∷ [];
}

two_made : new_connection 2 (broker 3) ≡ (some two_channels, after_three)
unfolding new_connection Channel.new_channel
two_made = refl

-- The connection is lost, cannot be dialed twice, and a channel is taken all the same.
abbrev outage : Life
outage = happen_all (lost ∷ noticed ∷ taken ∷ noticed ∷ []) (start two_channels after_three)

two_failures : outage.streak ≡ 2
unfolding listen_round channel
two_failures = refl

happen_all-backoff_example :
    (outage.backoff ≡ reconnect_backoff_base + outage.slept) × (outage.backoff < 2 ^ 63)
happen_all-backoff_example =
    happen_all-backoff 2 (broker 3) after_three two_channels (lost ∷ noticed ∷ taken ∷ noticed ∷ [])
      two_made (omega (arith, two_failures))

-- The first of three connections is up at every other look, the second always, and the cursor is about
-- to wrap around.
abbrev flapping : Readiness
flapping look i = i == 1 || (i == 0 && look % 2 == 0)

-- Another search moves the cursor before the first two looks.
abbrev crowd : ℕ → ℕ
crowd look = 2 - look

connection-IsFound_example : IsFound 3 flapping 0 7 (connection 7 3 flapping crowd 0 4_294_967_294)
connection-IsFound_example =
    connection-IsFound 2 3 1 4_294_967_294 flapping crowd (omega arith) (omega arith) (omega arith)
      (λ look. refl) (λ look h. omega arith)

-- The second connection gets one channel of two.
new_pool-LeavesNone_example : LeavesNone (new_pool 3 2 (broker 5))
new_pool-LeavesNone_example = new_pool-LeavesNone 3 2 (broker 5) refl

its_log :
    (new_pool 3 2 (broker 5)).1.log
    ≡ dialed 0 ∷ opened 0 1 ∷ opened 0 2 ∷ dialed 3 ∷ opened 3 4 ∷ closed 3 ∷ closed 0 ∷ []
unfolding new_pool new_connection Channel.new_channel
its_log = refl

-- Two connections of a channel each. The first one is lost and cannot be made again.
abbrev pair : Pool
pair = record {
  conns =
      record {
        channel_count = 1;
        inner = some (handle 0);
        channels = some (record { inner = some (handle 1) }) ∷ [];
        cursor = 0;
      }
      ∷ record {
        channel_count = 1;
        inner = some (handle 2);
        channels = some (record { inner = some (handle 3) }) ∷ [];
        cursor = 0;
      }
      ∷ [];
  cursor = 0;
}

abbrev pair_log : Amqp
pair_log = record {
  answers = λ i. ltb (suc (suc (suc (suc i)))) 4;
  next_id = 4;
  log = dialed 0 ∷ opened 0 1 ∷ dialed 2 ∷ opened 2 3 ∷ [];
}

pair_made : new_pool 2 1 (broker 4) ≡ (some pair, pair_log)
unfolding new_pool new_connection Channel.new_channel
pair_made = refl

abbrev hardship : List Pool.Life.Event
hardship =
    Pool.Life.lost 0 ∷ Pool.Life.noticed 0 ∷ Pool.Life.taken 1 ∷ Pool.Life.looked 4_294_967_295 ∷ []

abbrev second_is_up : Readiness
second_is_up look i = i == 1

channel-happen_all_example :
    (c : Channel) × (after : Pool) × (Pool.channel 5 second_is_up crowd
        (Pool.Life.happen_all hardship (pair, pair_log)).0
      ≡ some (some (some c), after))
channel-happen_all_example =
    channel-happen_all 2 2 1 1 (broker 4) pair_log pair hardship second_is_up crowd pair_made
      (omega arith) (omega arith) (omega arith) (λ look. refl) (λ look h. omega arith)

abbrev hello : RawMessage
hello = record { body = "hello"; content_type = "application/json" }

abbrev bye : RawMessage
bye = record { body = "bye"; content_type = "application/json" }

-- The first message is lost, the second is published.
abbrev two_messages : Publisher
two_messages =
    run
      (Publisher.answered true
        ∷ takes hello
        ∷ Publisher.answered false
        ∷ Publisher.answered true
        ∷ takes bye
        ∷ Publisher.answered true
        ∷ [])
      new_publisher

one_lost : two_messages.attempts ≡ (hello, false) ∷ (bye, true) ∷ []
unfolding run new_publisher
one_lost = refl

run-new_publisher-IsOnce_example : IsOnce two_messages
run-new_publisher-IsOnce_example = run-new_publisher-IsOnce (
    Publisher.answered true
    ∷ takes hello
    ∷ Publisher.answered false
    ∷ Publisher.answered true
    ∷ takes bye
    ∷ Publisher.answered true
    ∷ [])

-- Closed with a delivery at hand: it is handed on before the consumer ends.
abbrev deliveries : List (Consumer.Event ℕ)
deliveries =
    Consumer.answered true
    ∷ Consumer.answered true
    ∷ Consumer.arrives 1
    ∷ Consumer.forwarded_on
    ∷ Consumer.arrives 2
    ∷ Consumer.closes
    ∷ Consumer.sees_closed
    ∷ Consumer.forwarded_on
    ∷ Consumer.sees_closed
    ∷ []

two_forwarded : (Consumer.run deliveries (new_consumer false)).forwarded ≡ 1 ∷ 2 ∷ []
unfolding Consumer.run new_consumer
two_forwarded = refl

run-new_consumer-IsOrderly_example : IsOrderly (Consumer.run deliveries (new_consumer false))
run-new_consumer-IsOrderly_example = run-new_consumer-IsOrderly false deliveries

-- A text for an id, as many marks as the id says.
abbrev marks : ℕ → String
marks zero = ""
marks (suc n) = "x" ∷ˢ marks n

marks-injective : (g h : ℕ) → marks g ≡ marks h → g ≡ h
marks-injective zero zero e = refl
marks-injective zero (suc h) e = absurd (nil≢cons e)
marks-injective (suc g) zero e = absurd (nil≢cons (sym e))
marks-injective (suc g) (suc h) e = ap suc (marks-injective g h (tail-eq_of_cons-eq e))

queue_name-injective_example : accepts 3 ≡ accepts 3
queue_name-injective_example =
    queue_name-injective marks marks-injective (accepts 3) (accepts 3) refl
