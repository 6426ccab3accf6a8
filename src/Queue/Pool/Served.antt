-- ===== src/Queue/Pool/Served.antt =====
-- Whatever a pool has gone through, it serves channels (common/queue/pool.go).
use mathlib.Core.Path.{subst}
use dice_server.Prelude.{
  ℕ, zero, suc, ◌+◌, ◌-◌, ◌*◌, ◌≤◌, ◌<◌, ◌≡◌, refl, sym, ap, ◌∙◌, true, Option, none, some, List,
  [], ◌∷◌, ◌++◌, length, get_elem?, set, length-append, All, All-get_elem?, All-append, arith,
}
use dice_server.Queue.Amqp.{Amqp}
use dice_server.Queue.Channel.{Channel}
use dice_server.Queue.Connection
use dice_server.Queue.Connection.{Connection, new_connection, u32_mod, setup}
use dice_server.Queue.Connection.Ready.{new_connection-IsNew}
use dice_server.Queue.Connection.Life.{channel-some}
use dice_server.Queue.Pool
use dice_server.Queue.Pool.{
  Pool, Readiness, Search, found, searching, zero_division, keep_new, new_conns, pooled, new_pool,
  channel_at, channel_of, connection,
}
use dice_server.Queue.Pool.Robin.{IsFound, connection-IsFound}
use dice_server.Queue.Pool.Life.{Event, happen_all, IsGood, IsHealthy, happen_all-IsHealthy}

-- What the loop of `NewPool` makes.
abbrev MakesGood : ℕ → ℕ → (List Connection → Amqp → Option (List Connection) × Amqp) → Type 0
MakesGood n k rest =
    (made : List Connection) (w w' : Amqp) (conns : List Connection)
    → All (IsGood n) made
    → rest made w ≡ (some conns, w')
    → All (IsGood n) conns × (length conns ≡ length made + k)

keep_new-IsGood :
    (n k : ℕ) (rest : List Connection → Amqp → Option (List Connection) × Amqp)
    (made conns : List Connection) (w w' : Amqp) (r : Option Connection × Amqp)
    → MakesGood n k rest
    → new_connection n w ≡ r
    → All (IsGood n) made
    → keep_new rest made r ≡ (some conns, w')
    → All (IsGood n) conns × (length conns ≡ length made + suc k)
unfolding keep_new
keep_new-IsGood n k rest made conns w w' (none, w1) makes e good kept_new = absurd (ground arith)
keep_new-IsGood n k rest made conns w w' (some rc, w1) makes e good kept_new =
    let h = new_connection-IsNew n w w1 rc e in
    let (all, size) =
      makes (made ++ rc ∷ []) w1 w' conns
        (All-append (IsGood n) made rc good (record { asked = h.asked; whole = h.whole }))
        kept_new in
    (all, omega (arith, size, length-append made (rc ∷ [])))

new_conns-IsGood : (n k : ℕ) → MakesGood n k (new_conns k n)
unfolding new_conns
new_conns-IsGood n zero made w w' conns good e =
    let same : made ≡ conns = ground arith in
    (subst (All (IsGood n)) same good, omega (arith, ap length same))
new_conns-IsGood n (suc k) made w w' conns good e =
    keep_new-IsGood n k (new_conns k n) made conns w w' (new_connection n w) (new_conns-IsGood n k)
      refl good e

pooled-IsHealthy :
    (count n : ℕ) (pool : Pool) (w : Amqp) (r : Option (List Connection) × Amqp)
    → ((conns : List Connection) (w' : Amqp)
        → r ≡ (some conns, w')
        → All (IsGood n) conns × (length conns ≡ count))
    → pooled r ≡ (some pool, w)
    → IsHealthy count n pool
unfolding pooled
pooled-IsHealthy count n pool w (none, w') good e = absurd (ground arith)
pooled-IsHealthy count n pool w (some conns, w') good e =
    let (all, size) = good conns w' refl in
    let fresh : Pool = record { conns = conns; cursor = 0 } in
    let same : fresh ≡ pool = ground arith in
    subst (IsHealthy count n) same (record { size = size; good = all; inside = omega arith })

new_pool-IsHealthy :
    (count n : ℕ) (w w' : Amqp) (pool : Pool)
    → new_pool count n w ≡ (some pool, w')
    → IsHealthy count n pool
unfolding new_pool
new_pool-IsHealthy count n w w' pool e =
    pooled-IsHealthy count n pool w' (new_conns count n [] w)
      (λ conns w1 made.
        let (all, size) = new_conns-IsGood n count [] w w1 conns tt made in
        (all, omega (arith, size)))
      e

elem_in {ℓ} :
    {A : Type ℓ} (xs : List A) (i : ℕ) → i < length xs → (x : A) × (get_elem? xs i ≡ some x)
elem_in [] i h = absurd (omega arith)
elem_in (x ∷ xs) zero h = (x, refl)
elem_in (x ∷ xs) (suc i) h = elem_in xs i (omega arith)

channel_of-served :
    (count n end : ℕ) (ready : Readiness) (pool : Pool) (s : Search)
    → 0 < n
    → IsHealthy count n pool
    → IsFound count ready 0 end s
    → (c : Channel) × (after : Pool) × (channel_of s pool ≡ some (some (some c), after))
unfolding channel_of channel_at
channel_of-served count n end ready pool (found i cursor) many h (small, _, _) =
    let (rc, there) = elem_in pool.conns i (omega (arith, h.size)) in
    let g = All-get_elem? (IsGood n) pool.conns i rc h.good there in
    let (c, e) = channel-some rc g.whole (omega (arith, g.asked)) in
    let after = record pool {
      cursor = cursor;
      conns = set pool.conns i (Connection.channel rc).1;
    } in
    (
      c,
      after,
      ap (λ o. some (channel_at i o (record pool { cursor = cursor }))) there
          ∙ ap (λ ch. some (ch, after)) e,
    )
channel_of-served count n end ready pool (searching cursor) many h f = absurd f
channel_of-served count n end ready pool zero_division many h f = absurd f

-- A pool that `NewPool` has made, with at least one channel for each connection, serves whatever it
-- goes through, connections lost and set up again with or without success, channels taken and the
-- cursor at any number: if one connection is ready from now on, `channel` ends and gives a channel, never
-- nil, and never panics. Others may move the pool's cursor before some of its first looks: then it ends
-- within twice as many looks behind these as there are connections.
pub channel-happen_all :
    (busy count n j : ℕ) (w w' : Amqp) (pool : Pool) (es : List Event) (ready : Readiness)
    (others : ℕ → ℕ)
    → new_pool count n w ≡ (some pool, w')
    → 0 < n
    → count < u32_mod
    → j < count
    → ((look : ℕ) → ready look j ≡ true)
    → ((look : ℕ) → busy ≤ look → others look ≡ 0)
    → (c : Channel) × (after : Pool) × (Pool.channel
          (busy + (2 * count - 1))
          ready
          others
          (happen_all es (pool, w')).0
        ≡ some (some (some c), after))
unfolding Pool.channel
channel-happen_all busy count n j w w' pool es ready others made many fits small up calm =
    let pool' = (happen_all es (pool, w')).0 in
    let h = happen_all-IsHealthy count n es pool w' (new_pool-IsHealthy count n w w' pool made) in
    channel_of-served count n (busy + (2 * count - 1)) ready pool'
      (connection (busy + (2 * count - 1)) (length pool'.conns) ready others 0 pool'.cursor) many h
      (subst
        (λ k.
          IsFound count ready 0 (busy + (2 * count - 1))
            (connection (busy + (2 * count - 1)) k ready others 0 pool'.cursor))
        (sym h.size)
        (connection-IsFound busy count j pool'.cursor ready others small fits h.inside up calm))
