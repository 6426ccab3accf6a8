-- ===== src/Queue/Pool/Leaks.antt =====
-- `NewPool` leaves no connection behind (common/queue/pool.go and connection.go).
use dice_server.Prelude.{
  ℕ, zero, suc, ◌≡◌, ◌⊎◌, inl, inr, refl, sym, ap, ◌∙◌, true, ◌||◌, Option, none, some, List, [],
  ◌∷◌, ◌++◌, arith,
}
use dice_server.Queue.Amqp.{Handle, Call, closed, Amqp}
use dice_server.Queue.Connection.{Connection, made, new_connection}
use dice_server.Queue.Pool.{Pool, close_inner, close_inners, keep_new, new_conns, pooled, new_pool}
use dice_server.Queue.Pool.Log.{any-append, dials, was_dialed, was_closed, was_closed-append}
use dice_server.Queue.Pool.Dials.{owns, has_id, IsDealt, new_connection-IsDealt}

-- Each connection that was dialed is closed or one of these.
abbrev pub IsAccounted : List Connection → List Call → Type 0
IsAccounted conns log =
    (i : ℕ) → was_dialed i log ≡ true → (was_closed i log ≡ true) ⊎ (owns i conns ≡ true)

close_inner-closed :
    (inner : Option Handle) (w : Amqp) (i : ℕ)
    → (was_dialed i (close_inner inner w).log ≡ was_dialed i w.log)
      × (was_closed i (close_inner inner w).log ≡ was_closed i w.log || has_id i inner)
unfolding close_inner
close_inner-closed none w i = (refl, ground arith)
close_inner-closed (some h) w i = (
  ground (arith, any-append (dials i) w.log (closed h.id ∷ [])),
  ground (arith, was_closed-append w.log (closed h.id) i),
)

close_inners-closed :
    (conns : List Connection) (w : Amqp) (i : ℕ)
    → (was_dialed i (close_inners conns w).log ≡ was_dialed i w.log)
      × (was_closed i (close_inners conns w).log ≡ was_closed i w.log || owns i conns)
unfolding close_inners
close_inners-closed [] w i = (refl, ground arith)
close_inners-closed (rc ∷ rcs) w i =
    let (dialed_one, closed_one) = close_inner-closed rc.inner w i in
    let (dialed_rest, closed_rest) = close_inners-closed rcs (close_inner rc.inner w) i in
    (dialed_rest ∙ dialed_one, ground arith)

abbrev IsPooled : Option (List Connection) × Amqp → Type 0
IsPooled (none, w) = IsAccounted [] w.log
IsPooled (some conns, w) = IsAccounted conns w.log

owns-append :
    (i : ℕ) (conns : List Connection) (rc : Connection)
    → owns i (conns ++ rc ∷ []) ≡ owns i conns || has_id i rc.inner
owns-append i [] rc = ground arith
owns-append i (c ∷ cs) rc = ground (arith, owns-append i cs rc)

keep_new-IsPooled :
    (rest : List Connection → Amqp → Option (List Connection) × Amqp) (made : List Connection)
    (log : List Call) (r : Option Connection × Amqp)
    → IsAccounted made log
    → IsDealt log r
    → ((conns : List Connection) (w : Amqp) → IsAccounted conns w.log → IsPooled (rest conns w))
    → IsPooled (keep_new rest made r)
unfolding keep_new
keep_new-IsPooled rest made log (none, w) a d next = λ i h.
    let (same_dialed, now_closed) = close_inners-closed made w i in
    inl (elim (d.failed i refl (sym same_dialed ∙ h)) [
      | inl old ↦ elim (a i old) [
        | inl gone ↦ ground (arith, d.keeps i gone)
        | inr owned ↦ ground arith
      ]
      | inr gone ↦ ground arith
    ])
keep_new-IsPooled rest made log (some rc, w) a d next = next (made ++ rc ∷ []) w (λ i h.
    elim (d.held i rc refl h) [
      | inl old ↦ elim (a i old) [
        | inl gone ↦ inl (d.keeps i gone)
        | inr owned ↦ inr (ground (arith, owns-append i made rc))
      ]
      | inr here ↦ inr (ground (arith, owns-append i made rc))
    ])

new_conns-IsPooled :
    (n channels : ℕ) (made : List Connection) (w : Amqp)
    → IsAccounted made w.log
    → IsPooled (new_conns n channels made w)
unfolding new_conns
new_conns-IsPooled zero channels made w a = a
new_conns-IsPooled (suc n) channels made w a =
    keep_new-IsPooled (new_conns n channels) made w.log (new_connection channels w) a
      (new_connection-IsDealt channels w) (λ conns w'. new_conns-IsPooled n channels conns w')

-- What `NewPool` has dialed: all closed where it fails, and where it does not, closed or in the pool.
abbrev pub LeavesNone : Option Pool × Amqp → Type 0
LeavesNone (none, w) = IsAccounted [] w.log
LeavesNone (some pool, w) = IsAccounted pool.conns w.log

pooled-LeavesNone : (r : Option (List Connection) × Amqp) → IsPooled r → LeavesNone (pooled r)
unfolding pooled
pooled-LeavesNone (none, w) h = h
pooled-LeavesNone (some conns, w) h = h

-- Whatever calls to the broker succeed, `NewPool` leaves no connection behind: where it fails, each
-- connection that was dialed has been closed, also the one whose channels could not be made; where it
-- succeeds, each one is closed or held by a connection of the pool.
pub new_pool-LeavesNone :
    (connections channels : ℕ) (w : Amqp)
    → w.log ≡ []
    → LeavesNone (new_pool connections channels w)
unfolding new_pool
new_pool-LeavesNone connections channels w e =
    pooled-LeavesNone (new_conns connections channels [] w) (
      new_conns-IsPooled connections channels [] w
        (λ i h. absurd (ground (arith, ap (was_dialed i) e))))
