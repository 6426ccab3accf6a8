-- ===== src/Farkle/Entry.antt =====
-- game/farkle/internal/web/entry.go: the handler that lets a player in by a token, and `corsed`. The
-- upgrade to a web socket is the library's: `none` is its error, otherwise there is a new connection.
pub mod Admission
use dice_server.Prelude.{
  ℕ, String, Bool, true, false, not, Option, none, some, ◌==◌, str_eq, if◌then◌else◌,
}
use dice_server.Connect.{Uuid}
use dice_server.Auth.{GameToken}
use dice_server.Auth.Signing.{Jwt, validate_game_token}
use dice_server.Client.Manager.{WebSocketManager, upgrade_client}

-- What `config.Config` holds for a game server.
pub record Config : Type 0 where
  pub secret : String
  pub issuer : String
  pub server_id : Uuid
  pub server_host : String

-- `refused` is a status with its error; `entered` the player's client and the manager.
module _ (A B : Type 0) where
  pub data Entry : Type 0 where
    refused : ℕ → String → Entry
    entered : ℕ → WebSocketManager A B → Entry

module _ {A B : Type 0} where
  unfoldable pub after_client : Option (ℕ × WebSocketManager A B) → Entry A B
  after_client none = refused 404 "Game not found"
  after_client (some (client, manager)) = entered client manager

  unfoldable pub after_upgrade : GameToken → Option ℕ → WebSocketManager A B → Entry A B
  unfolding after_client
  after_upgrade token none manager = refused 401 "Failed to upgrade connection"
  after_upgrade token (some conn) manager =
      after_client (upgrade_client token.game_id token.user_id conn manager)

  unfoldable pub after_token :
      Config → Option ℕ → WebSocketManager A B → Option GameToken → Entry A B
  unfolding after_upgrade
  after_token config upgraded manager none = refused 401 "Invalid token"
  after_token config upgraded manager (some token) =
      if not (token.server_id == config.server_id)
      then refused 401 "Invalid server ID"
      else after_upgrade token upgraded manager

  unfoldable pub entry_handler :
      Jwt → Config → ℕ → String → Option ℕ → WebSocketManager A B → Entry A B
  unfolding after_token
  entry_handler jwt config now auth upgraded manager =
      after_token config upgraded manager (validate_game_token jwt config.secret now auth)

-- `corsed`: `none` is the answer with no content to an OPTIONS request.
unfoldable pub corsed {ℓ} : {R : Type ℓ} → (String → R) → String → Option R
corsed handler method = if str_eq method "OPTIONS" then none else some (handler method)
