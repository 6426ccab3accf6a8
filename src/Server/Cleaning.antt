-- ===== src/Server/Cleaning.antt =====
-- What the servers leave behind (game/farkle/main.go and game-master/main.go).
use dice_server.Prelude.{
  ◌≡◌, ◌≢◌, refl, ap, sym, ◌∙◌, ◌∷◌, String, Option, none, some, List, [], arith,
}
use dice_server.Connect.{Uuid}
use dice_server.Auth.Signing.{Jwt}
use dice_server.Client.Manager.{WebSocketManager, new_web_socket_manager, close_game, close_manager}
use dice_server.Client.Manager.Closing.{close_manager-close_game}
use mathlib.Core.Path.{subst}
use dice_server.Queue.Amqp.{Amqp}
use dice_server.Queue.Pool.{Pool, new_pool}
use dice_server.Queue.Pool.Log.{was_dialed}
use dice_server.Queue.Pool.Dials.{owns}
use dice_server.Queue.Pool.Leaks.{IsAccounted, LeavesNone, new_pool-LeavesNone}
use dice_server.Queue.Pool.Closing.{IsShut, close_pool-IsShut}
use dice_server.Server.Config.{
  Viper, ServerConfig, MasterConfig, Loading, failed, loaded, load_server_config,
  load_master_config,
}
use dice_server.Server.{Event, Reason, Serving, serving, leaving, tested, waiting, ended, crashed}
use dice_server.Server.Ending.{Verdict, IsServing, serve-IsServing}
use dice_server.Server.Startup.{
  Usage, Exit, panicked, exited, runs, aborted, MasterExit, not_started, not_running, Closed,
  close_pool, close_late, after_closing_manager, after_serving, with_pool, with_config, run_server,
  serve_master, start_master, run_master,
}

-- Closing the pool as it was found.
abbrev IsCleanedUp : Pool × Amqp → Closed → Type 0
IsCleanedUp (pool, w) (err, pool', w') = IsShut (λ i. owns i pool.conns) w.log err w'.log

close_pool-IsCleanedUp : (queue : Pool × Amqp) → IsCleanedUp queue (close_pool queue)
unfolding close_pool
close_pool-IsCleanedUp (pool, w) = close_pool-IsShut pool w

nothing_dialed : (w : Amqp) → w.log ≡ [] → IsAccounted [] w.log
nothing_dialed w fresh = λ i dialed. absurd (ground (arith, ap (was_dialed i) fresh))

close_late-none : {A B : Type 0} (games : List Uuid) → close_late {A = A} {B = B} games none ≡ none
unfolding close_late
close_late-none [] = refl
close_late-none (game ∷ games) = refl

module _ {A B : Type 0} (late : List Uuid) (wrap : String → String → String) where
  abbrev pub IsClean : Exit A B → Type 0
  IsClean (panicked text w) = IsAccounted [] w.log
  IsClean (exited reason m m' queue closing) =
      (late ≡ []) × Verdict wrap reason m × IsCleanedUp queue closing
  IsClean (runs s) = IsServing wrap s
  IsClean aborted = late ≢ []

  after_closing_manager-IsClean :
      (usage : Usage) (queue : Pool × Amqp) (reason : Reason) (m m' : WebSocketManager A B)
      (games : List Uuid)
      → late ≡ games
      → Verdict wrap reason m
      → IsClean
          (after_closing_manager usage queue reason m (close_late games (some (close_manager m'))))
  unfolding after_closing_manager close_late
  after_closing_manager-IsClean usage queue reason m m' [] none_late verdict =
      (none_late, verdict, close_pool-IsCleanedUp (usage queue))
  after_closing_manager-IsClean usage queue reason m m' (game ∷ games) some_late verdict =
      let panics : close_late games (close_game game (close_manager m')) ≡ none =
        ap (close_late games) (close_manager-close_game game m') ∙ close_late-none games in
      subst (λ o. IsClean (after_closing_manager usage queue reason m o)) (sym panics)
        (λ none_late. absurd (let e : game ∷ games ≡ [] = sym some_late ∙ none_late in cc))

  after_serving-IsClean :
      (usage : Usage) (queue : Pool × Amqp) (s : Serving A B)
      → IsServing wrap s
      → IsClean (after_serving usage late queue s)
  unfolding after_serving
  after_serving-IsClean usage queue (serving log m) h = h
  after_serving-IsClean usage queue (leaving err m) h = h
  after_serving-IsClean usage queue (tested err m m') h = h
  after_serving-IsClean usage queue (waiting err m m') h = h
  after_serving-IsClean usage queue (ended reason m m') (up, verdict) =
      after_closing_manager-IsClean usage queue reason m m' late refl verdict
  after_serving-IsClean usage queue crashed h = absurd h

module _ (A B : Type 0) (wrap : String → String → String) (jwt : Jwt) (usage : Usage)
    (late : List Uuid) where
  with_pool-IsClean :
      (config : ServerConfig) (es : List Event) (r : Option Pool × Amqp)
      → LeavesNone r
      → IsClean {A = A} {B = B} late wrap (with_pool wrap jwt usage config es late r)
  unfolding with_pool new_web_socket_manager
  with_pool-IsClean config es (none, w) none_left = none_left
  with_pool-IsClean config es (some pool, w) none_left =
      after_serving-IsClean late wrap usage (pool, w) _
        (serve-IsServing wrap jwt config.tokens es
          (serving (record { settled = []; started = [] }) new_web_socket_manager) refl)

  with_config-IsClean :
      (es : List Event) (w : Amqp) (l : Loading ServerConfig)
      → w.log ≡ []
      → IsClean {A = A} {B = B} late wrap (with_config wrap jwt usage es late w l)
  unfolding with_config
  with_config-IsClean es w (failed err) fresh = nothing_dialed w fresh
  with_config-IsClean es w (loaded config) fresh =
      with_pool-IsClean config es (new_pool config.rabbit.connections config.rabbit.channels w)
        (new_pool-LeavesNone config.rabbit.connections config.rabbit.channels w fresh)

  -- A game server, whatever is configured and whatever happens while it serves. If it panics at its
  -- start, every connection to the broker that it has dialed is closed. If it exits, no lobby has closed
  -- its game behind the deferred `Close` of the manager; the connections that the pool then holds are
  -- closed, unless closing reported an error; and if it was the worker that ended, then the manager had
  -- no game at that moment, or the worker reports that the games did not end in time. Closing a game
  -- makes it panic only if a lobby does so behind that `Close`, not before it, whether the server serves,
  -- waits or has its result.
  pub run_server-IsClean :
      {D F : Type 0} (viper : Viper D F ServerConfig) (generated : Uuid) (disk : D)
      (es : List Event) (w : Amqp)
      → w.log ≡ []
      → IsClean {A = A} {B = B} late wrap (run_server wrap jwt usage viper generated disk es late w)
  unfolding run_server
  run_server-IsClean viper generated disk es w fresh =
      with_config-IsClean es w (load_server_config viper generated disk).0 fresh

abbrev IsMasterClean : MasterExit → Type 0
IsMasterClean (not_started text w) = IsAccounted [] w.log
IsMasterClean (not_running text queue closing) = IsCleanedUp queue closing

serve_master-IsMasterClean :
    (usage : Usage) (r : Option Pool × Amqp) → LeavesNone r → IsMasterClean (serve_master usage r)
unfolding serve_master
serve_master-IsMasterClean usage (none, w) none_left = none_left
serve_master-IsMasterClean usage (some pool, w) none_left = close_pool-IsCleanedUp (usage (pool, w))

start_master-IsMasterClean :
    (usage : Usage) (w : Amqp) (l : Loading MasterConfig)
    → w.log ≡ []
    → IsMasterClean (start_master usage w l)
unfolding start_master
start_master-IsMasterClean usage w (failed err) fresh = nothing_dialed w fresh
start_master-IsMasterClean usage w (loaded config) fresh =
    serve_master-IsMasterClean usage (new_pool config.rabbit.connections config.rabbit.channels w)
      (new_pool-LeavesNone config.rabbit.connections config.rabbit.channels w fresh)

-- The game master, in the same way: it never exits but by a panic, and what it has dialed is closed,
-- unless closing reported an error.
pub run_master-IsMasterClean :
    {D F : Type 0} (usage : Usage) (viper : Viper D F MasterConfig) (disk : D) (w : Amqp)
    → w.log ≡ []
    → IsMasterClean (run_master usage viper disk w)
unfolding run_master
run_master-IsMasterClean usage viper disk w fresh =
    start_master-IsMasterClean usage w (load_master_config viper disk).0 fresh
