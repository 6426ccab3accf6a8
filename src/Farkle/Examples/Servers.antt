-- ===== src/Farkle/Examples/Servers.antt =====
-- Entering, joining and the worker at concrete inputs (game/farkle/internal/web and lobby).
use dice_server.Prelude.{ℕ, ◌≡◌, refl, true, none, some, List, [], ◌∷◌}
use dice_server.Connect.{LobbyPlayer, LobbyResponse, CreateFarkleRequest}
use dice_server.Prelude.Assoc.{lookup, insert, delete}
use dice_server.Auth.{validate, new_game_token}
use dice_server.Auth.Signing.{sign, validate_game_token}
use dice_server.Auth.Sample.{sample_jwt, sample_jwt-IsDocumented}
use dice_server.Client.Manager.{
  WebSocketManager, new_web_socket_manager, get_client, upgrade_client,
}
use dice_server.Prelude.{String, Option, ◌∙◌, Bool, false, arith}
use dice_server.Connect.{Uuid}
use dice_server.Client.Manager.Open.{all_closed-get_client}
use dice_server.Farkle.Lobby.Meeting.{deadline}
use dice_server.Farkle.Lobby.Life.{
  Script, End, returned, close_panicked, still_runs, panicked, live,
}
use dice_server.Farkle.Lobby.Life.Over.{IsOver, live-IsOver}
use dice_server.Client.Socket.{new_web_socket_client, send}
use dice_server.Client.Manager.{GameClients}
use dice_server.Client.Manager.Lookups.{IsSound, lookup-nil}
use dice_server.Farkle.Message.{Message}
use dice_server.Farkle.Lobby.Opening.{Opening, opened, turned_away, still_waits, open_lobby}
use dice_server.Farkle.Lobby.Opening.Seats.{IsOpening, open_lobby-IsOpening}
use dice_server.Farkle.Entry.{Config, Entry, entered, entry_handler}
use dice_server.Farkle.Entry.Admission.{IsAdmitted, entry_handler-IsAdmitted}
use dice_server.Farkle.Lobby.Joining.{JoinEvent, attempt, joined, wait_for_other_player}
use dice_server.Farkle.Lobby.Worker.{WorkerLog, WorkerEvent, delivery, shutting_down, worker_loop}
use dice_server.Farkle.Lobby.Worker.Settled.{IsSettled, log_of, worker_loop-IsSettled}

abbrev pub server : Config
server = record { secret = "secret"; issuer = "issuer"; server_id = 3; server_host = "localhost" }

abbrev pub nobody : WebSocketManager ℕ ℕ
nobody = new_web_socket_manager

abbrev pub with_player : WebSocketManager ℕ ℕ
with_player = (get_client 100 101 nobody).1

abbrev player_enters : Entry ℕ ℕ
player_enters = entry_handler sample_jwt server 7_000_000_000 "signed" (some 9) with_player

abbrev entered_manager : Entry ℕ ℕ → WebSocketManager ℕ ℕ
entered_manager (Entry.entered client m) = m
entered_manager (Entry.refused status err) = with_player

is_entered : player_enters ≡ entered 0 (entered_manager player_enters)
unfolding entry_handler sample_jwt upgrade_client get_client new_web_socket_manager
    validate_game_token validate new_game_token lookup insert
is_entered = refl

entry_handler-IsAdmitted_example :
    IsAdmitted sample_jwt server 7_000_000_000 "signed"
      (some 9)
      with_player
      0
      (entered_manager player_enters)
entry_handler-IsAdmitted_example =
    entry_handler-IsAdmitted sample_jwt server 7_000_000_000 "signed" (some 9) with_player 0
      (entered_manager player_enters) sample_jwt-IsDocumented is_entered

abbrev carl : LobbyPlayer
carl = record { user_id = 101; username = "carl"; dice_set = [] }

-- The first attempt cannot be read.
abbrev attempts : List JoinEvent
attempts =
    attempt none 5_000_000_000 true
    ∷ attempt (some (record { player = carl })) 5_500_000_000 true
    ∷ []

abbrev welcome : LobbyResponse
welcome = record { game_id = 100; server_id = 3; server_host = "localhost"; auth = "signed" }

carl_joins :
    wait_for_other_player sample_jwt server 100 attempts nobody ≡ joined 0 carl welcome with_player
unfolding wait_for_other_player get_client sample_jwt sign new_game_token new_web_socket_manager
    lookup insert
carl_joins = refl

abbrev ann : LobbyPlayer
ann = record { user_id = 10; username = "ann"; dice_set = [] }

abbrev asked : CreateFarkleRequest
asked = record { game_id = 100; target = 4000; player = ann }

abbrev empty : WebSocketManager ℕ Message
empty = new_web_socket_manager

empty-IsSound : IsSound empty
unfolding new_web_socket_manager
empty-IsSound = record {
  below = λ g u c e. absurd (ground (arith, lookup-nil {V = GameClients} g));
  apart = λ g u g' u' c e f. absurd (ground (arith, lookup-nil {V = GameClients} g));
}

abbrev is_open : Opening ℕ → Bool
is_open (opened first second player response m) = true
is_open (turned_away err m) = false
is_open (still_waits m) = false

opens : is_open (open_lobby sample_jwt server asked attempts empty) ≡ true
unfolding open_lobby wait_for_other_player get_client sample_jwt sign new_game_token
    new_web_socket_manager new_web_socket_client send lookup insert
opens = refl

open_lobby-IsOpening_example : IsOpening asked (open_lobby sample_jwt server asked attempts empty)
unfolding new_web_socket_manager
open_lobby-IsOpening_example =
    open_lobby-IsOpening sample_jwt server asked attempts empty empty-IsSound refl

abbrev wish : CreateFarkleRequest
wish = record { game_id = 100; target = 4000; player = carl }

abbrev idle : WorkerLog
idle = record { settled = []; started = [] }

abbrev deliveries : List WorkerEvent
deliveries = delivery none true ∷ delivery (some wish) true ∷ shutting_down ∷ []

worker_loop-IsSettled_example : IsSettled deliveries idle (log_of (worker_loop deliveries idle))
worker_loop-IsSettled_example = worker_loop-IsSettled deliveries idle

-- Carl joins Ann, and both do not get ready in time, while a player joins another game.
abbrev slow : Script ℕ
slow = record {
  joins = attempts;
  ids = λ i. i;
  ids' = λ i. i;
  moves = deadline ∷ [];
  others = λ m. (get_client 200 201 m).1;
  wakes = [];
  wakes' = [];
  roller = λ i. 0;
  clock = λ i. 0;
  start = 0;
  turns = 3;
}

abbrev keep_error : Option String → String → Option String
keep_error none context = none
keep_error (some err) context = some context

live-IsOver_example : IsOver 100 (live keep_error sample_jwt server slow asked empty)
unfolding new_web_socket_manager
live-IsOver_example =
    live-IsOver keep_error sample_jwt server slow asked empty empty-IsSound refl
      (λ m up. all_closed-get_client 200 201 m ∙ up)

-- The player that is still there is the one of the other game.
abbrev games_of : End ℕ → List (Uuid × GameClients)
games_of (returned err m) = m.games
games_of (close_panicked err) = []
games_of (still_runs m) = m.games
games_of panicked = []

slow_games :
    games_of (live keep_error sample_jwt server slow asked empty) ≡ (200, (201, 2) ∷ []) ∷ []
unfolding live open_lobby wait_for_other_player get_client sample_jwt sign new_game_token
    new_web_socket_manager new_web_socket_client send lookup insert delete
slow_games = refl
