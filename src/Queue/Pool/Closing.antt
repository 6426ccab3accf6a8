-- ===== src/Queue/Pool/Closing.antt =====
-- `Close` of a pool closes its connections (common/queue/pool.go and connection.go).
use mathlib.Core.Path.{subst}
use dice_server.Prelude.{
  ℕ, ◌≡◌, inl, inr, Bool-cases, refl, sym, String, Bool, true, false, Option, none, some, List, [],
  ◌∷◌, ◌++◌, arith,
}
use dice_server.Queue.Amqp.{Handle, Call, closed, Amqp, close_handle}
use dice_server.Queue.Channel
use dice_server.Queue.Channel.{Channel}
use dice_server.Queue.Connection
use dice_server.Queue.Connection.{
  Connection, closed_inner, next_closed, close_channels, close_conn, after_channels,
}
use dice_server.Queue.Pool
use dice_server.Queue.Pool.{Pool, close_next, close_conns, closed_conns}
use dice_server.Queue.Pool.Log.{
  was_closed, Extends, nothing, Extends-refl, Extends-trans, append-Extends, was_closed-append,
}
use dice_server.Queue.Pool.Dials.{owns, has_id}

close_handle-Extends : (h : Handle) (w : Amqp) → Extends nothing w.log (close_handle h w).1.log
close_handle-Extends h w = append-Extends nothing w.log (closed h.id) (λ i e. absurd cc)

log-closed_channel : (c : Channel) (r : Bool × Amqp) → (Channel.closed_channel r c).2.log ≡ r.1.log
unfolding Channel.closed_channel
log-closed_channel c (false, w) = refl
log-closed_channel c (true, w) = refl

close_some-Extends :
    (inner : Option Handle) (c : Channel) (w : Amqp)
    → Extends nothing w.log (Channel.close_some inner c w).2.log
unfolding Channel.close_some
close_some-Extends none c w = Extends-refl nothing w.log
close_some-Extends (some h) c w =
    subst (Extends nothing w.log) (sym (log-closed_channel c (close_handle h w)))
      (close_handle-Extends h w)

next_closed-Extends :
    (rest : Amqp → Option String × List (Option Channel) × Amqp) (chs : List (Option Channel))
    (w : Amqp) (r : Option String × Channel × Amqp)
    → Extends nothing w.log r.2.log
    → ((w' : Amqp) → Extends nothing w'.log (rest w').2.log)
    → Extends nothing w.log (next_closed rest chs r).2.log
unfolding next_closed
next_closed-Extends rest chs w (some err, c, w') grows more = grows
next_closed-Extends rest chs w (none, c, w') grows more =
    Extends-trans nothing w.log w'.log (rest w').2.log grows (more w')

close_channels-Extends :
    (chs : List (Option Channel)) (w : Amqp) → Extends nothing w.log (close_channels chs w).2.log
unfolding close_channels Channel.close
close_channels-Extends [] w = Extends-refl nothing w.log
close_channels-Extends (none ∷ chs) w = close_channels-Extends chs w
close_channels-Extends (some c ∷ chs) w =
    next_closed-Extends (close_channels chs) chs w (Channel.close c w)
      (close_some-Extends c.inner c w) (close_channels-Extends chs)

-- What closing leaves: what was closed stays so, and without an error the connections are closed.
pub record IsShut (holds : ℕ → Bool) (before : List Call) (err : Option String) (after : List Call)
    : Type 0 where
  pub grows : Extends nothing before after
  pub shuts : err ≡ none → (i : ℕ) → holds i ≡ true → was_closed i after ≡ true

closed_inner-IsShut :
    (h : Handle) (rc : Connection) (log : List Call) (r : Bool × Amqp)
    → r.1.log ≡ log ++ closed h.id ∷ []
    → IsShut (λ i. has_id i (some h)) log (closed_inner r rc).0 (closed_inner r rc).2.log
unfolding closed_inner
closed_inner-IsShut h rc log (false, w) e = record {
  grows =
      subst (Extends nothing log) (sym e)
        (append-Extends nothing log (closed h.id) (λ i bad. absurd cc));
  shuts = λ bad. absurd cc;
}
closed_inner-IsShut h rc log (true, w) e = record {
  grows =
      subst (Extends nothing log) (sym e)
        (append-Extends nothing log (closed h.id) (λ i bad. absurd cc));
  shuts = λ ok i here.
      subst (λ l. was_closed i l ≡ true) (sym e)
        (ground (arith, was_closed-append log (closed h.id) i));
}

close_conn-IsShut :
    (inner : Option Handle) (rc : Connection) (w : Amqp)
    → IsShut (λ i. has_id i inner) w.log (close_conn inner rc w).0 (close_conn inner rc w).2.log
unfolding close_conn
close_conn-IsShut none rc w = record {
  grows = Extends-refl nothing w.log;
  shuts = λ ok i here. absurd cc;
}
close_conn-IsShut (some h) rc w = closed_inner-IsShut h rc w.log (close_handle h w) refl

after_channels-IsShut :
    (rc : Connection) (log : List Call) (r : Option String × List (Option Channel) × Amqp)
    → Extends nothing log r.2.log
    → IsShut (λ i. has_id i rc.inner) log (after_channels rc r).0 (after_channels rc r).2.log
unfolding after_channels
after_channels-IsShut rc log (some err, chs, w) grows = record {
  grows = grows;
  shuts = λ bad. absurd cc;
}
after_channels-IsShut rc log (none, chs, w) grows =
    let rc' = record rc { channels = chs } in
    let s = close_conn-IsShut rc.inner rc' w in
    record {
      grows = Extends-trans nothing log w.log (close_conn rc.inner rc' w).2.log grows s.grows;
      shuts = s.shuts;
    }

close-IsShut :
    (rc : Connection) (w : Amqp)
    → IsShut (λ i. has_id i rc.inner) w.log (Connection.close rc w).0 (Connection.close rc w).2.log
unfolding Connection.close
close-IsShut rc w =
    after_channels-IsShut rc w.log (close_channels rc.channels w)
      (close_channels-Extends rc.channels w)

close_next-IsShut :
    (rest : Amqp → Option String × List Connection × Amqp) (rc : Connection) (rcs : List Connection)
    (log : List Call) (r : Option String × Connection × Amqp)
    → IsShut (λ i. has_id i rc.inner) log r.0 r.2.log
    → ((w : Amqp) → IsShut (λ i. owns i rcs) w.log (rest w).0 (rest w).2.log)
    → IsShut (λ i. owns i (rc ∷ rcs)) log (close_next rest rcs r).0 (close_next rest rcs r).2.log
unfolding close_next
close_next-IsShut rest rc rcs log (some err, rc', w) s more = record {
  grows = s.grows;
  shuts = λ bad. absurd cc;
}
close_next-IsShut rest rc rcs log (none, rc', w) s more =
    let m = more w in
    record {
      grows = Extends-trans nothing log w.log (rest w).2.log s.grows m.grows;
      shuts = λ ok i here. elim (Bool-cases (has_id i rc.inner)) [
        | inl own ↦ m.grows.keeps i (s.shuts refl i own)
        | inr other ↦ m.shuts ok i (ground arith)
      ];
    }

close_conns-IsShut :
    (conns : List Connection) (w : Amqp)
    → IsShut (λ i. owns i conns) w.log (close_conns conns w).0 (close_conns conns w).2.log
unfolding close_conns
close_conns-IsShut [] w = record {
  grows = Extends-refl nothing w.log;
  shuts = λ ok i here. absurd cc;
}
close_conns-IsShut (rc ∷ rcs) w =
    close_next-IsShut (close_conns rcs) rc rcs w.log (Connection.close rc w) (close-IsShut rc w)
      (close_conns-IsShut rcs)

closed_conns-IsShut :
    (pool : Pool) (log : List Call) (holds : ℕ → Bool) (r : Option String × List Connection × Amqp)
    → IsShut holds log r.0 r.2.log
    → IsShut holds log (closed_conns pool r).0 (closed_conns pool r).2.log
unfolding closed_conns
closed_conns-IsShut pool log holds (err, conns, w) s = s

-- Closing a pool without an error closes each connection that it holds, and opens none.
pub close_pool-IsShut :
    (pool : Pool) (w : Amqp)
    → IsShut (λ i. owns i pool.conns) w.log (Pool.close pool w).0 (Pool.close pool w).2.log
unfolding Pool.close
close_pool-IsShut pool w =
    closed_conns-IsShut pool w.log (λ i. owns i pool.conns) (close_conns pool.conns w)
      (close_conns-IsShut pool.conns w)
