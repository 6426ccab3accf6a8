-- ===== src/Queue/Pool.antt =====
-- common/queue/pool.go: the connections to the broker, taken in turn.
pub mod Robin
pub mod Log
pub mod Dials
pub mod Leaks
pub mod Closing
pub mod Life
pub mod Served
use dice_server.Prelude.{
  ℕ, zero, suc, ◌+◌, ◌%◌, String, Bool, true, false, Option, none, some, List, [], ◌∷◌, ◌++◌, ◌==◌,
  if◌then◌else◌, length, get_elem?, set,
}
use dice_server.Queue.Amqp.{Handle, Amqp, close_handle}
use dice_server.Queue.Channel.{Channel}
use dice_server.Queue.Connection
use dice_server.Queue.Connection.{Connection, new_connection, next_index, is_ready}

pub record Pool : Type 0 where
  pub conns : List Connection
  pub cursor : ℕ

-- `_ = pool.conns[j].inner.Close()`. A connection that `newConnection` made is not nil.
unfoldable pub close_inner : Option Handle → Amqp → Amqp
close_inner none w = w
close_inner (some h) w = (close_handle h w).1

unfoldable pub close_inners : List Connection → Amqp → Amqp
unfolding close_inner
close_inners [] w = w
close_inners (rc ∷ rcs) w = close_inners rcs (close_inner rc.inner w)

unfoldable pub keep_new :
    (List Connection → Amqp → Option (List Connection) × Amqp)
    → List Connection
    → Option Connection × Amqp
    → Option (List Connection) × Amqp
unfolding close_inners
keep_new rest made (none, w) = (none, close_inners made w)
keep_new rest made (some rc, w) = rest (made ++ rc ∷ []) w

-- The loop of `NewPool` over so many connections, behind those that are made; `none` is its error.
unfoldable pub new_conns : ℕ → ℕ → List Connection → Amqp → Option (List Connection) × Amqp
unfolding keep_new
new_conns zero channels made w = (some made, w)
new_conns (suc n) channels made w = keep_new (new_conns n channels) made (new_connection channels w)

unfoldable pub pooled : Option (List Connection) × Amqp → Option Pool × Amqp
pooled (none, w) = (none, w)
pooled (some conns, w) = (some (record { conns = conns; cursor = 0 }), w)

unfoldable pub new_pool : ℕ → ℕ → Amqp → Option Pool × Amqp
unfolding pooled new_conns
new_pool connections channels w = pooled (new_conns connections channels [] w)

-- `conns[i].isReady()` for each connection, at each look: a connection can close or come back between
-- two looks.
abbrev pub Readiness : Type 0
Readiness = ℕ → ℕ → Bool

pub data Search : Type 0 where
  found : ℕ → ℕ → Search
  searching : ℕ → Search
  zero_division : Search

-- The loop of `connection` over at most so many looks: the index and the cursor afterwards. The cursor
-- is atomic and shared by all callers: `others` says how often others have moved it just before each
-- look of this search.
unfoldable pub connection : ℕ → ℕ → Readiness → (ℕ → ℕ) → ℕ → ℕ → Search
unfolding next_index
connection zero count ready others look cursor = searching cursor
connection (suc fuel) count ready others look cursor =
    let (i, cursor') = next_index count (cursor + others look) in
    let rest = connection fuel count ready others (look + 1) cursor' in
    if count == 0 then zero_division else if ready look i then found i cursor' else rest

-- The loop of `Close`: it stops at the first error.
unfoldable pub close_next :
    (Amqp → Option String × List Connection × Amqp)
    → List Connection
    → Option String × Connection × Amqp
    → Option String × List Connection × Amqp
close_next rest rcs (some err, rc, w) = (some "failed to close connection", rc ∷ rcs, w)
close_next rest rcs (none, rc, w) = let (err, rcs', w') = rest w in (err, rc ∷ rcs', w')

unfoldable pub close_conns : List Connection → Amqp → Option String × List Connection × Amqp
unfolding close_next
close_conns [] w = (none, [], w)
close_conns (rc ∷ rcs) w = close_next (close_conns rcs) rcs (Connection.close rc w)

unfoldable pub closed_conns :
    Pool → Option String × List Connection × Amqp → Option String × Pool × Amqp
closed_conns pool (err, conns, w) = (err, record pool { conns = conns }, w)

-- `Close`.
unfoldable pub close : Pool → Amqp → Option String × Pool × Amqp
unfolding closed_conns close_conns
close pool w = closed_conns pool (close_conns pool.conns w)

-- The connection at an index with its `channel`, which moves that connection's cursor.
unfoldable pub channel_at : ℕ → Option Connection → Pool → Option (Option Channel) × Pool
unfolding Connection.channel
channel_at i none pool = (none, pool)
channel_at i (some rc) pool =
    let (ch, rc') = Connection.channel rc in (ch, record pool { conns = set pool.conns i rc' })

unfoldable pub channel_of : Search → Pool → Option (Option (Option Channel) × Pool)
unfolding channel_at
channel_of (found i cursor') pool =
    some (channel_at i (get_elem? pool.conns i) (record pool { cursor = cursor' }))
channel_of (searching cursor') pool = none
channel_of zero_division pool = some (none, pool)

-- `channel`, within so many looks: `none` while it still looks; a panic and a nil channel are as in
-- `Connection.channel`.
unfoldable pub channel : ℕ → Readiness → (ℕ → ℕ) → Pool → Option (Option (Option Channel) × Pool)
unfolding channel_of connection
channel fuel ready others pool =
    channel_of (connection fuel (length pool.conns) ready others 0 pool.cursor) pool

unfoldable pub exclusive_at : Option Connection → Amqp → Option (Option Channel) × Amqp
unfolding Connection.exclusive
exclusive_at none w = (none, w)
exclusive_at (some rc) w = Connection.exclusive rc.inner w

unfoldable pub exclusive_of : Search → Pool → Amqp → Option (Option (Option Channel) × Pool × Amqp)
unfolding exclusive_at
exclusive_of (found i cursor') pool w =
    let (ch, w') = exclusive_at (get_elem? pool.conns i) w in
    some (ch, record pool { cursor = cursor' }, w')
exclusive_of (searching cursor') pool w = none
exclusive_of zero_division pool w = some (none, pool, w)

-- `exclusive`, in the same way.
unfoldable pub exclusive :
    ℕ → Readiness → (ℕ → ℕ) → Pool → Amqp → Option (Option (Option Channel) × Pool × Amqp)
unfolding exclusive_of connection
exclusive fuel ready others pool w =
    exclusive_of (connection fuel (length pool.conns) ready others 0 pool.cursor) pool w
