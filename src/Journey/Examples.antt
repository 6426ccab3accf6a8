-- ===== src/Journey/Examples.antt =====
-- Games that are created, joined, entered and played, at concrete requests (game-master/main.go and
-- game/farkle).
use dice_server.Prelude.{
  suc, ℕ, ◌+◌, ◌≡◌, refl, false, arith, Option, none, some, List, [], ◌∷◌, ◌++◌, true,
}
use dice_server.Connect.{Uuid, CreateFarkleRequest, JoinFarkleRequest, LobbyResponse}
use dice_server.Auth.{new_game_token}
use dice_server.Auth.Sample.{sample_jwt, sample_jwt-IsDocumented}
use dice_server.Auth.Signing.{sign}
use dice_server.Master.{CreateRequestBody, pos, success, make_request, create_farkle_handler}
use dice_server.Farkle.Entry.{entered, entry_handler}
use dice_server.Farkle.Examples.Servers.{server, nobody, with_player}
use dice_server.Farkle.Lobby.Worker.{start_lobby}
use dice_server.Journey.{IsServer, created_game_is_entered}
use dice_server.Master.{JoinRequestBody, join_farkle_handler, default_dice}
use dice_server.Client.Manager.{get_client, new_web_socket_manager, on_client}
use dice_server.Prelude.{String}
use dice_server.Farkle.Player.{closing, delivered, timer}
use dice_server.Farkle.Message.{Incoming, var_player_ready}
use dice_server.Farkle.Lobby.Ready.{Event, arrives}
use dice_server.Farkle.Lobby.Meeting.{
  started, Move, first_event, second_event, hear_first, hear_second, gather, run_lobby,
}
use dice_server.Farkle.Game.Match.{Game, new_farkle_game, play}
use dice_server.Farkle.Game.Winner.{GameOutcome}
use dice_server.Journey.Play.{requested_game_is_fair}
use dice_server.Journey.Life.{is_panic, requested_lobby_is_sturdy}
use dice_server.Client.Manager.Calls.{new_web_socket_manager-IsSound}
use dice_server.Farkle.Lobby.Life.{Script, live}
use dice_server.Journey.Join.{joined_game_is_entered}
use dice_server.Prelude.Assoc.{lookup, insert}
use dice_server.Client.Socket.{reconnect}
use dice_server.Farkle.Lobby.Joining.{JoinEvent, attempt, joined, wait_for_other_player}

abbrev fresh : ℕ → Uuid
fresh i = 100 + i

abbrev body : CreateRequestBody
body = record { username = "alice"; target = pos 4000 }

abbrev request : CreateFarkleRequest
request = make_request 4000 "alice" fresh

abbrev response : LobbyResponse
response = record { game_id = 100; server_id = 3; server_host = "localhost"; auth = "signed" }

abbrev another : LobbyResponse
another = record { game_id = 7; server_id = 3; server_host = "localhost"; auth = "signed" }

abbrev others : List (Option LobbyResponse)
others = some another ∷ none ∷ []

server-IsServer : IsServer server
server-IsServer = record { has_id = ground arith; has_host = refl }

created_game_is_entered_example :
    ((create_farkle_handler true true (others ++ some response ∷ []) fresh body).0
      ≡ success 201 request.player.user_id response ∷ [])
    × (entry_handler sample_jwt server 7_000_000_000 response.auth (some 9) with_player
        ≡ entered 0 (record with_player { store = on_client (reconnect 9) 0 with_player.store }))
unfolding create_farkle_handler get_client new_web_socket_manager lookup insert start_lobby
    sample_jwt sign new_game_token
created_game_is_entered_example =
    created_game_is_entered sample_jwt server 5_500_000_000 7_000_000_000 9 0 fresh body request
      response others [] with_player sample_jwt-IsDocumented server-IsServer (omega arith)
      (omega arith) refl refl (ground arith) (omega arith) refl

abbrev join_body : JoinRequestBody
join_body = record { username = "carl" }

abbrev join_ids : ℕ → Uuid
join_ids i = 101 + i

abbrev join_request : JoinFarkleRequest
join_request = record {
  player = record {
    user_id = join_ids 0;
    username = "carl";
    dice_set = default_dice 6 (λ i. join_ids (suc i));
  };
}

abbrev join_attempts : List JoinEvent
join_attempts =
    attempt none 5_000_000_000 true ∷ attempt (some join_request) 5_500_000_000 true ∷ []

joins :
    wait_for_other_player sample_jwt server 100 join_attempts nobody
    ≡ joined 0 join_request.player response with_player
unfolding wait_for_other_player get_client sample_jwt sign new_game_token new_web_socket_manager
    lookup insert
joins = refl

joined_game_is_entered_example :
    ((join_farkle_handler true true true (none ∷ some response ∷ []) join_ids join_body).0
      ≡ success 200 101 response ∷ [])
    × (entry_handler sample_jwt server 7_000_000_000 "signed" (some 9) with_player
        ≡ entered 0 (record with_player { store = on_client (reconnect 9) 0 with_player.store }))
unfolding join_farkle_handler
joined_game_is_entered_example =
    joined_game_is_entered sample_jwt server 100 5_500_000_000 7_000_000_000 9 0 join_ids join_body
      join_request join_attempts join_request.player response (none ∷ []) [] nobody with_player
      with_player sample_jwt-IsDocumented server-IsServer (omega arith) (omega arith) refl refl
      joins (refl, tt) (omega arith) refl

-- Both are ready at once, and the first player's client closes in the first turn.
abbrev play_ids : ℕ → Uuid
play_ids i = 200 + i

abbrev play_join : JoinFarkleRequest
play_join = record {
  player = record {
    user_id = play_ids 0;
    username = "carl";
    dice_set = default_dice 6 (λ i. play_ids (suc i));
  };
}

abbrev is_ready_as : Uuid → Event
is_ready_as id = arrives (record {
  variant = var_player_ready;
  raw = some (record {
    as_dice_touch = none;
    as_dice_pick = none;
    as_player_ready = some (record { player_id = id });
  });
})

abbrev both_ready : List Move
both_ready =
    first_event (is_ready_as 101) ∷ second_event (is_ready_as 200) ∷ hear_first ∷ hear_second ∷ []

abbrev keep_reason : Option String → String → Option String
keep_reason err context = err

both_start :
    (run_lobby keep_reason 101 200 both_ready
      (gather request.player play_join.player fresh play_ids)).status
    ≡ started request.player play_join.player
unfolding run_lobby gather
both_start = refl

abbrev new_game : Game
new_game =
    new_farkle_game request.player play_join.player request (closing ∷ []) (closing ∷ []) (λ i. i)
      (λ i. i)

requested_game_is_fair_example : GameOutcome new_game (play 5 0 new_game)
unfolding create_farkle_handler join_farkle_handler
requested_game_is_fair_example =
    requested_game_is_fair keep_reason true true true [] [] fresh play_ids fresh play_ids body
      join_body request play_join both_ready request.player play_join.player (closing ∷ [])
      (closing ∷ []) (λ i. i) (λ i. i) 5 0 refl refl both_start

abbrev touch : Incoming
touch = record {
  variant = "farkle-dice-touch";
  raw = some (record {
    as_dice_touch = some (record { dice_id = 1; selected = true });
    as_dice_pick = none;
    as_player_ready = none;
  });
}

-- Carl joins behind an unreadable request, and in the game he touches a die and lets the time pass.
abbrev evening : Script ℕ
evening = record {
  joins = attempt none 5_000_000_000 true ∷ attempt (some play_join) 5_500_000_000 true ∷ [];
  ids = fresh;
  ids' = play_ids;
  moves = both_ready;
  others = λ m. m;
  wakes = closing ∷ [];
  wakes' = delivered touch ∷ timer ∷ [];
  roller = λ i. i;
  clock = λ i. 0;
  start = 0;
  turns = 5;
}

requested_lobby_is_sturdy_example :
    is_panic (live keep_reason sample_jwt server evening request new_web_socket_manager) ≡ false
unfolding create_farkle_handler join_farkle_handler
requested_lobby_is_sturdy_example =
    requested_lobby_is_sturdy keep_reason sample_jwt server true true [] fresh body request evening
      new_web_socket_manager refl (tt, ((true, [], play_ids, join_body, refl), tt))
      (λ (raw, _). cc, (λ (raw, _). cc, (tt, (tt, tt)))) (tt, tt) (λ (_, raw). cc, (tt, tt))
      new_web_socket_manager-IsSound (unfold new_web_socket_manager in refl) (λ m' up. up)
