-- ===== src/Farkle/Lobby/Joining.antt =====
-- game/farkle/internal/lobby/loop.go: `waitForOtherPlayer` with `createPlayer`. A join attempt carries
-- what its body unmarshals to, the time at which it is handled, and whether publishing the answer
-- succeeds. The player's client is its place in the manager.
pub mod First
use dice_server.Prelude.{ℕ, String, Bool, true, false, Option, none, some, List, [], ◌∷◌}
use dice_server.Connect.{Uuid, LobbyPlayer, JoinFarkleRequest, LobbyResponse}
use dice_server.Auth.{new_game_token}
use dice_server.Auth.Signing.{Jwt, sign}
use dice_server.Client.Manager.{WebSocketManager, get_client}
use dice_server.Farkle.Entry.{Config}

pub data JoinEvent : Type 0 where
  attempt : Option JoinFarkleRequest → ℕ → Bool → JoinEvent
  out_of_time out_of_messages : JoinEvent

module _ (A B : Type 0) where
  -- `joined` is the player with the client and the answer that was published; `waits` is that nothing
  -- more has come yet.
  pub data Joining : Type 0 where
    joined : ℕ → LobbyPlayer → LobbyResponse → WebSocketManager A B → Joining
    failed : String → WebSocketManager A B → Joining
    waits : WebSocketManager A B → Joining

module _ (jwt : Jwt) (config : Config) where
  abbrev pub token_for : Uuid → Uuid → ℕ → Option String
  token_for user_id game_id now = sign jwt config.secret (
      new_game_token jwt.numeric_date user_id game_id config.server_id config.server_host
        config.issuer now)

  abbrev pub response_with : Uuid → String → LobbyResponse
  response_with game_id auth = record {
    game_id = game_id;
    server_id = config.server_id;
    server_host = config.server_host;
    auth = auth;
  }

module _ {A B : Type 0} (jwt : Jwt) (config : Config) (game_id : Uuid) where
  -- Behind `Sign`.
  unfoldable pub after_sign :
      LobbyPlayer → Bool → ℕ × WebSocketManager A B → Option String → Joining A B
  after_sign player published (client, manager) none = failed "failed to sign auth token" manager
  after_sign player true (client, manager) (some auth) =
      joined client player (response_with jwt config game_id auth) manager
  after_sign player false (client, manager) (some auth) = failed "failed to marshal json" manager

  unfoldable pub on_join : LobbyPlayer → ℕ → Bool → WebSocketManager A B → Joining A B
  unfolding after_sign
  on_join player now published manager =
      after_sign player published (get_client game_id player.user_id manager)
        (token_for jwt config player.user_id game_id now)

  unfoldable pub wait_for_other_player : List JoinEvent → WebSocketManager A B → Joining A B
  unfolding on_join
  wait_for_other_player [] manager = waits manager
  wait_for_other_player (out_of_time ∷ es) manager = failed "lobby ran out of time" manager
  wait_for_other_player (out_of_messages ∷ es) manager = failed "lobby ran out of messages" manager
  wait_for_other_player (attempt none now published ∷ es) manager = wait_for_other_player es manager
  wait_for_other_player (attempt (some request) now published ∷ es) manager =
      on_join request.player now published manager
