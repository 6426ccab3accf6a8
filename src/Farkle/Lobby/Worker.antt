-- ===== src/Farkle/Lobby/Worker.antt =====
-- game/farkle/internal/lobby/worker.go: the worker that takes lobbies to create from the queue. A
-- delivery is what its body unmarshals to. A lobby runs in a goroutine of its own, so `started` only
-- lists them.
pub mod Settled
use dice_server.Prelude.{ℕ, String, Bool, true, false, Option, none, some, List, [], ◌∷◌, ◌++◌}
use dice_server.Connect.{Uuid, CreateFarkleRequest, LobbyResponse}
use dice_server.Auth.Signing.{Jwt}
use dice_server.Farkle.Entry.{Config}
use dice_server.Farkle.Lobby.Joining.{token_for, response_with}

-- `settled` are the deliveries with whether they were acknowledged, and not refused.
pub record WorkerLog : Type 0 where
  pub settled : List (Option CreateFarkleRequest × Bool)
  pub started : List CreateFarkleRequest

-- A delivery comes with whether settling it succeeds.
pub data WorkerEvent : Type 0 where
  delivery : Option CreateFarkleRequest → Bool → WorkerEvent
  queue_closed shutting_down : WorkerEvent

pub data Worker : Type 0 where
  working : WorkerLog → Worker
  stopped : String → WorkerLog → Worker

-- `attemptLobby`: true where it returns no error.
unfoldable pub attempt_lobby : Option CreateFarkleRequest → WorkerLog → Bool × WorkerLog
attempt_lobby none log = (false, log)
attempt_lobby (some request) log = (true, record log { started = log.started ++ request ∷ [] })

-- `Ack` or `Nack`, and whether the loop goes on.
unfoldable pub settle :
    (WorkerLog → Worker) → Option CreateFarkleRequest → Bool → Bool × WorkerLog → Worker
settle rest body true (ok, log) = rest (record log { settled = log.settled ++ (body, ok) ∷ [] })
settle rest body false (true, log) =
    stopped "failed to ack message" (record log { settled = log.settled ++ (body, true) ∷ [] })
settle rest body false (false, log) =
    stopped "failed to nack message" (record log { settled = log.settled ++ (body, false) ∷ [] })

unfoldable pub worker_loop : List WorkerEvent → WorkerLog → Worker
unfolding settle attempt_lobby
worker_loop [] log = working log
worker_loop (delivery body settles ∷ es) log =
    settle (worker_loop es) body settles (attempt_lobby body log)
worker_loop (queue_closed ∷ es) log = stopped "worker consumer channel closed" log
worker_loop (shutting_down ∷ es) log = stopped "worker consumer shutting down" log

-- `RunWorker`: what it sends to `fail`, from the error of the loop and `TryWaitForAllClosed`. `wrap` is
-- `errors.Wrap` on an error.
unfoldable pub run_worker : (String → String → String) → String → Bool → String
run_worker wrap err true = err
run_worker wrap err false = wrap err "game shutdown timeout"

-- `startLobby`: the answer that it publishes, behind which the lobby runs; `none` where signing or
-- publishing fails.
unfoldable pub after_signing :
    Jwt → Config → Bool → CreateFarkleRequest → Option String → Option LobbyResponse
after_signing jwt config published request none = none
after_signing jwt config true request (some auth) =
    some (response_with jwt config request.game_id auth)
after_signing jwt config false request (some auth) = none

unfoldable pub start_lobby : Jwt → Config → ℕ → Bool → CreateFarkleRequest → Option LobbyResponse
unfolding after_signing
start_lobby jwt config now published request =
    after_signing jwt config published request
      (token_for jwt config request.player.user_id request.game_id now)
