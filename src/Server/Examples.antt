-- ===== src/Server/Examples.antt =====
-- Runs of the servers (game/farkle/main.go and game-master/main.go), and the theorem at one of them.
use dice_server.Prelude.{◌≡◌, refl, String, true, none, some, List, [], ◌∷◌, arith}
use Prim.Native.String.{◌++◌}
use dice_server.Connect.{CreateFarkleRequest}
use dice_server.Auth.Signing.{Jwt}
use dice_server.Prelude.Assoc.{lookup, insert, delete}
use dice_server.Queue.Connection.{new_connection}
use dice_server.Queue.Channel.{new_channel}
use dice_server.Client.Manager.{WebSocketManager, new_web_socket_manager, get_client}
use dice_server.Farkle.Lobby.Worker.{delivery, shutting_down}
use dice_server.Queue.Amqp.{Amqp}
use dice_server.Server.Config.{Viper, not_found, ServerConfig}
use dice_server.Server.{
  Event, works, moves_on, enters, joins, game_ends, web_fails, shutdown_timeout, worker_result,
  web_result, serving, serve,
}
use dice_server.Server.Startup.{Usage, Exit, panicked, exited, runs, aborted, run_server}
use dice_server.Server.Draining.{IsCovered, HasEnded, serve-shutting_down}
use dice_server.Server.Cleaning.{IsClean, run_server-IsClean}

abbrev no_tokens : Jwt
no_tokens = record {
  numeric_date = λ t. t;
  parse_with_claims = λ key now text. none;
  signed_string = λ secret token. none;
}

abbrev config : ServerConfig
config = record {
  port = 8080;
  rabbit = record { url = "amqp://localhost:5672"; connections = 1; channels = 1 };
  tokens = record {
    secret = "secret";
    issuer = "issuer";
    server_id = 5;
    server_host = "localhost:8080";
  };
}

-- A disk without a file that cannot be written.
abbrev read_only : Viper Unit Unit ServerConfig
read_only = record {
  safe_write_config = λ settings disk. (some "read-only", disk);
  read_in_config = λ settings disk. not_found "no file";
  unmarshal = λ settings content. some config;
}

abbrev join_texts : String → String → String
join_texts err text = text ++ ": " ++ err

abbrev unused : Usage
unused queue = queue

abbrev willing : Amqp
willing = record { answers = λ i. true; next_id = 0; log = [] }

-- A player joins a game, the server is told to end, and the game ends.
abbrev evening : List Event
evening = joins 7 11 ∷ works shutting_down ∷ moves_on ∷ moves_on ∷ game_ends 7 ∷ []

run_server-IsClean_example :
    IsClean {A = Unit} {B = Unit} [] join_texts
      (run_server join_texts no_tokens unused read_only 5 tt evening [] willing)
run_server-IsClean_example =
    run_server-IsClean Unit Unit join_texts no_tokens unused [] read_only 5 tt evening willing refl

abbrev reason_of : Exit Unit Unit → String
reason_of (panicked text w) = text
reason_of (exited (worker_result text) m m' queue closing) = text
reason_of (exited (web_result text) m m' queue closing) = text
reason_of (runs s) = "runs"
reason_of aborted = "aborted"

after_evening :
    reason_of (run_server join_texts no_tokens unused read_only 5 tt evening [] willing)
    ≡ "worker consumer shutting down"
unfolding run_server new_connection new_channel lookup insert delete
after_evening = refl

abbrev request : CreateFarkleRequest
request = record {
  game_id = 7;
  target = 1000;
  player = record { user_id = 11; username = "alice"; dice_set = [] };
}

-- The games do not end in time.
late_evening :
    reason_of (
      run_server join_texts no_tokens unused read_only 5 tt
        (joins 7 11 ∷ works shutting_down ∷ moves_on ∷ moves_on ∷ shutdown_timeout ∷ [])
        []
        willing)
    ≡ "game shutdown timeout: worker consumer shutting down"
unfolding run_server new_connection new_channel lookup insert delete
late_evening = refl

-- A lobby that was just started, and whose game is not there yet, is not waited for.
early_evening :
    reason_of (
      run_server join_texts no_tokens unused read_only 5 tt
        (works (delivery (some request) true) ∷ works shutting_down ∷ moves_on ∷ joins 7 11 ∷ [])
        []
        willing)
    ≡ "worker consumer shutting down"
unfolding run_server new_connection new_channel
early_evening = refl

-- Its lobby ends the game behind the deferred `Close`, before the process has ended.
too_late :
    reason_of (
      run_server join_texts no_tokens unused read_only 5 tt
        (joins 7 11 ∷ web_fails "port in use" ∷ [])
        (7 ∷ [])
        willing)
    ≡ "aborted"
unfolding run_server new_connection new_channel lookup insert delete
too_late = refl

-- The only game ends between the worker's look and its waiting: the worker waits until its time is over.
missed :
    reason_of (
      run_server join_texts no_tokens unused read_only 5 tt
        (joins 7 11 ∷ works shutting_down ∷ moves_on ∷ game_ends 7 ∷ moves_on ∷ [])
        []
        willing)
    ≡ "runs"
unfolding run_server new_connection new_channel lookup insert delete
missed = refl

abbrev two_games : WebSocketManager Unit Unit
two_games = (get_client 8 12 (get_client 7 11 new_web_socket_manager).1).1

-- While the games end, a second player joins one, and one tries to come in with a bad token.
abbrev last_games : List Event
last_games = game_ends 8 ∷ joins 7 13 ∷ enters 0 "token" (some 1) ∷ game_ends 7 ∷ []

two_games-IsCovered : IsCovered Unit Unit join_texts no_tokens config.tokens last_games two_games
unfolding get_client new_web_socket_manager lookup insert
two_games-IsCovered = λ g there. ground arith

serve-shutting_down_example :
    HasEnded Unit Unit join_texts no_tokens config.tokens
      (worker_result "worker consumer shutting down")
      (serve join_texts no_tokens config.tokens
        (works shutting_down ∷ moves_on ∷ moves_on ∷ last_games)
        (serving (record { settled = []; started = [] }) two_games))
unfolding get_client new_web_socket_manager lookup insert
serve-shutting_down_example =
    serve-shutting_down Unit Unit join_texts no_tokens config.tokens last_games
      (record { settled = []; started = [] }) two_games (refl, tt) refl two_games-IsCovered
