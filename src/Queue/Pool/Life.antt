-- ===== src/Queue/Pool/Life.antt =====
-- A pool over its life: its connections are lost and set up again, its users look for connections and
-- take channels (common/queue/pool.go).
use dice_server.Prelude.{
  ℕ, ◌%◌, ◌<◌, ◌≡◌, refl, ◌∙◌, Option, none, some, List, [], ◌∷◌, length, get_elem?, set,
  length-set, All, All-get_elem?, All-set, arith,
}
use native.Mathlib.Nat.{mod-lt}
use dice_server.Queue.Amqp.{Amqp, shut_all}
use dice_server.Queue.Connection
use dice_server.Queue.Connection.{Connection, new_connection, u32_mod, setup}
use dice_server.Queue.Connection.Ready.{setup-IsSetUp, IsWhole, setup-IsWhole}
use dice_server.Queue.Connection.Life.{channel-IsWhole}
use dice_server.Queue.Pool.{Pool, channel_at}

-- A connection closes; its listener sets it up again; a user takes a channel of it; a user has looked
-- for a connection, which has left the cursor at some number of 32 bits.
pub data Event : Type 0 where
  lost noticed taken looked : ℕ → Event

abbrev lose : ℕ → Option Connection → Pool → Pool
lose i none pool = pool
lose i (some rc) pool = record pool {
  conns = set pool.conns i (record rc { inner = shut_all rc.inner });
}

abbrev renew : ℕ → Option Connection → Pool × Amqp → Pool × Amqp
renew i none queue = queue
renew i (some rc) (pool, w) =
    let (err, rc', w') = setup rc w in (record pool { conns = set pool.conns i rc' }, w')

abbrev pub happen : Event → Pool × Amqp → Pool × Amqp
happen (lost i) (pool, w) = (lose i (get_elem? pool.conns i) pool, w)
happen (noticed i) (pool, w) = renew i (get_elem? pool.conns i) (pool, w)
happen (taken i) (pool, w) = ((channel_at i (get_elem? pool.conns i) pool).1, w)
happen (looked cursor) (pool, w) = (record pool { cursor = cursor % u32_mod }, w)

abbrev pub happen_all : List Event → Pool × Amqp → Pool × Amqp
happen_all [] queue = queue
happen_all (e ∷ es) queue = happen_all es (happen e queue)

-- A connection with all its n channels.
pub record IsGood (n : ℕ) (rc : Connection) : Type 0 where
  pub asked : rc.channel_count ≡ n
  pub whole : IsWhole rc

pub record IsHealthy (count n : ℕ) (pool : Pool) : Type 0 where
  pub size : length pool.conns ≡ count
  pub good : All (IsGood n) pool.conns
  pub inside : pool.cursor < u32_mod

kept :
    (count n i : ℕ) (rc : Connection) (pool : Pool)
    → IsHealthy count n pool
    → IsGood n rc
    → IsHealthy count n (record pool { conns = set pool.conns i rc })
kept count n i rc pool h g = record {
  size = length-set pool.conns i rc ∙ h.size;
  good = All-set (IsGood n) pool.conns i rc h.good g;
  inside = h.inside;
}

module _ (count n : ℕ) where
  lose-IsHealthy :
      (i : ℕ) (o : Option Connection) (pool : Pool)
      → get_elem? pool.conns i ≡ o
      → IsHealthy count n pool
      → IsHealthy count n (lose i o pool)
  lose-IsHealthy i none pool e h = h
  lose-IsHealthy i (some rc) pool e h =
      let g = All-get_elem? (IsGood n) pool.conns i rc h.good e in
      kept count n i (record rc { inner = shut_all rc.inner }) pool h
        (record {
          asked = g.asked;
          whole = record { count = g.whole.count; filled = g.whole.filled };
        })

  renew-IsHealthy :
      (i : ℕ) (o : Option Connection) (pool : Pool) (w : Amqp)
      → get_elem? pool.conns i ≡ o
      → IsHealthy count n pool
      → IsHealthy count n (renew i o (pool, w)).0
  renew-IsHealthy i none pool w e h = h
  renew-IsHealthy i (some rc) pool w e h =
      let g = All-get_elem? (IsGood n) pool.conns i rc h.good e in
      kept count n i (setup rc w).1 pool h (record {
        asked = (setup-IsSetUp rc w).same_count ∙ g.asked;
        whole = setup-IsWhole rc w g.whole;
      })

  channel_at-IsHealthy :
      (i : ℕ) (o : Option Connection) (pool : Pool)
      → get_elem? pool.conns i ≡ o
      → IsHealthy count n pool
      → IsHealthy count n (channel_at i o pool).1
  unfolding channel_at
  channel_at-IsHealthy i none pool e h = h
  channel_at-IsHealthy i (some rc) pool e h =
      let g = All-get_elem? (IsGood n) pool.conns i rc h.good e in
      let (whole, same) = channel-IsWhole rc g.whole in
      kept count n i (Connection.channel rc).1 pool h
        (record { asked = same ∙ g.asked; whole = whole })

  pub happen_all-IsHealthy :
      (es : List Event) (pool : Pool) (w : Amqp)
      → IsHealthy count n pool
      → IsHealthy count n (happen_all es (pool, w)).0
  happen_all-IsHealthy [] pool w h = h
  happen_all-IsHealthy (lost i ∷ es) pool w h =
      happen_all-IsHealthy es _ w (lose-IsHealthy i (get_elem? pool.conns i) pool refl h)
  happen_all-IsHealthy (noticed i ∷ es) pool w h =
      happen_all-IsHealthy es _ _ (renew-IsHealthy i (get_elem? pool.conns i) pool w refl h)
  happen_all-IsHealthy (taken i ∷ es) pool w h =
      happen_all-IsHealthy es _ w (channel_at-IsHealthy i (get_elem? pool.conns i) pool refl h)
  happen_all-IsHealthy (looked cursor ∷ es) pool w h =
      happen_all-IsHealthy es _ w
        (record { size = h.size; good = h.good; inside = mod-lt cursor (omega arith) })
