-- ===== src/Server.antt =====
-- game/farkle/main.go and game-master/main.go: the servers from their start to their end.
--
-- A game server serves by events, one at a time: what wakes the worker, a player who comes in by web
-- socket, what the lobbies do with the manager (`createPlayer` and `CloseGame`), and what ends it. They
-- go on when the worker has given its result, until the deferred calls of `main`. The signal handler
-- cancels the worker's context, which is its event `shutting_down`.
pub mod Config
pub mod Startup
pub mod Ending
pub mod Cleaning
pub mod Presence
pub mod Draining
mod Examples
use dice_server.Prelude.{
  ℕ, String, Bool, true, false, Option, none, some, List, [], ◌∷◌, if◌then◌else◌,
}
use dice_server.Connect.{Uuid}
use dice_server.Auth.Signing.{Jwt}
use dice_server.Client.Manager.{
  WebSocketManager, is_empty, get_client, close_game, try_wait_for_all_closed,
}
use dice_server.Farkle.Entry
use dice_server.Farkle.Entry.{Entry, refused, entered, entry_handler}
use dice_server.Farkle.Lobby.Worker.{
  WorkerLog, WorkerEvent, Worker, working, stopped, worker_loop, run_worker,
}

-- `moves_on` is the worker's next step inside `TryWaitForAllClosed`, `shutdown_timeout` its timer.
pub data Event : Type 0 where
  works : WorkerEvent → Event
  moves_on : Event
  enters : ℕ → String → Option ℕ → Event
  joins : Uuid → Uuid → Event
  game_ends : Uuid → Event
  shutdown_timeout : Event
  web_fails : String → Event

-- What ends the `select` of `main`.
pub data Reason : Type 0 where
  worker_result web_result : String → Reason

-- Behind the worker's loop (`leaving`), the games are looked at under the lock (`tested`, with the
-- manager as it was then), and then `allClosed` is read and waited for (`waiting`): a game can end before
-- each of the two. `ended` has the manager when the result came, and as the lobbies and the web entry
-- go on with it. `crashed` is the panic of `CloseGame`.
module _ (A B : Type 0) where
  pub data Serving : Type 0 where
    serving : WorkerLog → WebSocketManager A B → Serving
    leaving : String → WebSocketManager A B → Serving
    tested : String → WebSocketManager A B → WebSocketManager A B → Serving
    waiting : String → WebSocketManager A B → WebSocketManager A B → Serving
    ended : Reason → WebSocketManager A B → WebSocketManager A B → Serving
    crashed : Serving

module _ {A B : Type 0} where
  unfoldable pub after_entry : WebSocketManager A B → Entry A B → WebSocketManager A B
  after_entry m (refused status err) = m
  after_entry m (entered client m') = m'

  unfoldable pub after_work : Worker → WebSocketManager A B → Serving A B
  after_work (working log) m = serving log m
  after_work (stopped err log) m = leaving err m

  unfoldable pub work : WorkerEvent → Serving A B → Serving A B
  unfolding after_work worker_loop
  work e (serving log m) = after_work (worker_loop (e ∷ []) log) m
  work e (leaving err m) = leaving err m
  work e (tested err m m') = tested err m m'
  work e (waiting err m m') = waiting err m m'
  work e (ended reason m m') = ended reason m m'
  work e crashed = crashed

  -- What a lobby or the web entry does to the manager, whatever the worker does meanwhile.
  unfoldable pub on_manager :
      (WebSocketManager A B → WebSocketManager A B) → Serving A B → Serving A B
  on_manager f (serving log m) = serving log (f m)
  on_manager f (leaving err m) = leaving err (f m)
  on_manager f (tested err m m') = tested err m (f m')
  on_manager f (waiting err m m') = waiting err m (f m')
  on_manager f (ended reason m m') = ended reason m (f m')
  on_manager f crashed = crashed

  unfoldable pub fail_web : String → Serving A B → Serving A B
  fail_web err (serving log m) = ended (web_result err) m m
  fail_web err (leaving err' m) = ended (web_result err) m m
  fail_web err (tested err' m m') = ended (web_result err) m' m'
  fail_web err (waiting err' m m') = ended (web_result err) m' m'
  fail_web err (ended reason m m') = ended reason m m'
  fail_web err crashed = crashed

  unfoldable pub after_closing_one :
      (WebSocketManager A B → Serving A B) → Option (WebSocketManager A B) → Serving A B
  after_closing_one go_on none = crashed
  after_closing_one go_on (some m') = go_on m'

module _ {A B : Type 0} (wrap : String → String → String) where
  -- `TryWaitForAllClosed` returns at once where there is no game.
  unfoldable pub await_games : String → WebSocketManager A B → Serving A B
  unfolding run_worker try_wait_for_all_closed
  await_games err m =
      if is_empty m.games
      then ended (worker_result (run_worker wrap err (try_wait_for_all_closed m none))) m m
      else tested err m m

  unfoldable pub move_on : Serving A B → Serving A B
  unfolding await_games
  move_on (serving log m) = serving log m
  move_on (leaving err m) = await_games err m
  move_on (tested err m m') = waiting err m m'
  move_on (waiting err m m') = waiting err m m'
  move_on (ended reason m m') = ended reason m m'
  move_on crashed = crashed

  unfoldable pub run_out : Serving A B → Serving A B
  unfolding run_worker try_wait_for_all_closed
  run_out (serving log m) = serving log m
  run_out (leaving err m) = leaving err m
  run_out (tested err m m') = tested err m m'
  run_out (waiting err m m') =
      ended (worker_result (run_worker wrap err (try_wait_for_all_closed m (some m')))) m' m'
  run_out (ended reason m m') = ended reason m m'
  run_out crashed = crashed

  -- `allClosed` is closed when the last game is.
  unfoldable pub after_closing :
      String → WebSocketManager A B → Option (WebSocketManager A B) → Serving A B
  unfolding run_worker try_wait_for_all_closed
  after_closing err m none = crashed
  after_closing err m (some m') =
      if is_empty m'.games
      then ended (worker_result (run_worker wrap err (try_wait_for_all_closed m none))) m' m'
      else waiting err m m'

  unfoldable pub end_game : Uuid → Serving A B → Serving A B
  unfolding after_closing after_closing_one close_game
  end_game game (serving log m) = after_closing_one (serving log) (close_game game m)
  end_game game (leaving err m) = after_closing_one (leaving err) (close_game game m)
  end_game game (tested err m m') = after_closing_one (tested err m) (close_game game m')
  end_game game (waiting err m m') = after_closing err m (close_game game m')
  end_game game (ended reason m m') = after_closing_one (ended reason m) (close_game game m')
  end_game game crashed = crashed

module _ {A B : Type 0} (wrap : String → String → String) (jwt : Jwt) (config : Entry.Config) where
  unfoldable pub handle : Event → Serving A B → Serving A B
  unfolding work move_on on_manager after_entry entry_handler get_client end_game run_out fail_web
  handle (works e) s = work e s
  handle moves_on s = move_on wrap s
  handle (enters now auth upgraded) s =
      on_manager (λ m. after_entry m (entry_handler jwt config now auth upgraded m)) s
  handle (joins game user) s = on_manager (λ m. (get_client game user m).1) s
  handle (game_ends game) s = end_game wrap game s
  handle shutdown_timeout s = run_out wrap s
  handle (web_fails err) s = fail_web err s

  unfoldable pub serve : List Event → Serving A B → Serving A B
  unfolding handle
  serve [] s = s
  serve (e ∷ es) s = serve es (handle e s)
