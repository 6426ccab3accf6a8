-- ===== src/Server/Startup.antt =====
-- game/farkle/main.go and game-master/main.go: `main`. Setting up the signal handler and the HTTP
-- server, and starting the goroutines, are outside. The deferred calls run on a panic as well.
use dice_server.Prelude.{String, Option, none, some, List, [], ◌∷◌}
use dice_server.Connect.{Uuid}
use dice_server.Auth.Signing.{Jwt}
use dice_server.Client.Manager.{WebSocketManager, new_web_socket_manager, close_game, close_manager}
use dice_server.Queue.Amqp.{Amqp}
use dice_server.Queue.Pool
use dice_server.Queue.Pool.{Pool, new_pool}
use dice_server.Server.Config.{
  Viper, ServerConfig, MasterConfig, Loading, failed, loaded, load_server_config,
  load_master_config,
}
use dice_server.Server.{
  Event, Reason, Serving, serving, leaving, tested, waiting, ended, crashed, serve,
}

-- What a server has of the queue while it runs, and what becomes of it: its users move cursors and
-- open channels, and connections are lost and made again.
abbrev pub Usage : Type 0
Usage = Pool × Amqp → Pool × Amqp

-- Closing the pool: its error, which is only logged, the pool and the broker.
abbrev pub Closed : Type 0
Closed = Option String × Pool × Amqp

-- `panicked` is a `log.Panicln`, before there is a pool; `exited` has the manager when
-- the result came, the manager behind the deferred `Close`, the pool as the deferred call found it, and
-- the closing of it; `aborted` is the panic of `CloseGame`, which ends the process at once.
module _ (A B : Type 0) where
  pub data Exit : Type 0 where
    panicked : String → Amqp → Exit
    exited : Reason → WebSocketManager A B → WebSocketManager A B → Pool × Amqp → Closed → Exit
    runs : Serving A B → Exit
    aborted : Exit

unfoldable pub close_pool : Pool × Amqp → Closed
unfolding Pool.close
close_pool (pool, w) = Pool.close pool w

module _ {A B : Type 0} where
  -- The games that lobbies close between the deferred `Close` of the manager and the end of the process;
  -- `none` is a panic.
  unfoldable pub close_late :
      List Uuid → Option (WebSocketManager A B) → Option (WebSocketManager A B)
  unfolding close_game
  close_late games none = none
  close_late [] (some m) = some m
  close_late (game ∷ games) (some m) = close_late games (close_game game m)

  unfoldable pub after_closing_manager :
      Usage → Pool × Amqp → Reason → WebSocketManager A B → Option (WebSocketManager A B) → Exit A B
  unfolding close_pool
  after_closing_manager usage queue reason m none = aborted
  after_closing_manager usage queue reason m (some m') =
      exited reason m m' (usage queue) (close_pool (usage queue))

  -- The deferred calls, the last one first, while the lobbies still run.
  unfoldable pub after_serving : Usage → List Uuid → Pool × Amqp → Serving A B → Exit A B
  unfolding close_manager close_late after_closing_manager
  after_serving usage late queue (ended reason m m') =
      after_closing_manager usage queue reason m (close_late late (some (close_manager m')))
  after_serving usage late queue (serving log m) = runs (serving log m)
  after_serving usage late queue (leaving err m) = runs (leaving err m)
  after_serving usage late queue (tested err m m') = runs (tested err m m')
  after_serving usage late queue (waiting err m m') = runs (waiting err m m')
  after_serving usage late queue crashed = aborted

module _ {A B : Type 0} (wrap : String → String → String) (jwt : Jwt) (usage : Usage) where
  unfoldable pub with_pool : ServerConfig → List Event → List Uuid → Option Pool × Amqp → Exit A B
  unfolding after_serving serve new_web_socket_manager
  with_pool config es late (none, w) = panicked "Queue pool creation failed:" w
  with_pool config es late (some pool, w) =
      after_serving usage late (pool, w)
        (serve wrap jwt config.tokens es
          (serving (record { settled = []; started = [] }) new_web_socket_manager))

  unfoldable pub with_config : List Event → List Uuid → Amqp → Loading ServerConfig → Exit A B
  unfolding with_pool new_pool
  with_config es late w (failed err) = panicked "Failed to load configuration:" w
  with_config es late w (loaded config) =
      with_pool config es late (new_pool config.rabbit.connections config.rabbit.channels w)

  -- `main` of a game server.
  unfoldable pub run_server :
      {D F : Type 0} → Viper D F ServerConfig → Uuid → D → List Event → List Uuid → Amqp → Exit A B
  unfolding with_config load_server_config
  run_server viper generated disk es late w =
      with_config es late w (load_server_config viper generated disk).0

-- The game master serves until `ListenAndServe` returns, which is always an error: `main` panics then,
-- and its deferred call closes the pool.
pub data MasterExit : Type 0 where
  not_started : String → Amqp → MasterExit
  not_running : String → Pool × Amqp → Closed → MasterExit

unfoldable pub serve_master : Usage → Option Pool × Amqp → MasterExit
unfolding close_pool
serve_master usage (none, w) = not_started "Queue pool creation failed:" w
serve_master usage (some pool, w) =
    not_running "Failed to run server:" (usage (pool, w)) (close_pool (usage (pool, w)))

unfoldable pub start_master : Usage → Amqp → Loading MasterConfig → MasterExit
unfolding serve_master new_pool
start_master usage w (failed err) = not_started "Failed to load configuration:" w
start_master usage w (loaded config) =
    serve_master usage (new_pool config.rabbit.connections config.rabbit.channels w)

-- `main` of the game master.
unfoldable pub run_master : {D F : Type 0} → Usage → Viper D F MasterConfig → D → Amqp → MasterExit
unfolding start_master load_master_config
run_master usage viper disk w = start_master usage w (load_master_config viper disk).0
