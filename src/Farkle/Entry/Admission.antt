-- ===== src/Farkle/Entry/Admission.antt =====
-- Who gets in (game/farkle/internal/web/entry.go).
use dice_server.Prelude.{
  ℕ, ◌+◌, ◌≤◌, ◌≡◌, refl, ap, ◌∙◌, String, Option, none, some, ◌==◌, ==_iff, Bool-cases,
  Option-cases, inl, inr, arith,
}
use dice_server.Connect.{Uuid}
use dice_server.Auth.{GameToken, game_token_lifetime, validate, new_game_token}
use dice_server.Auth.Lifetime.{IsComplete, IsInTime, validate_iff}
use dice_server.Auth.Signing.{
  Jwt, IsDocumented, validate_game_token, sign, validate_game_token-sign,
}
use dice_server.Client.Manager.{WebSocketManager, GameClients, try_get_game, upgrade_client}
use dice_server.Farkle.Entry.{
  Config, entered, after_client, after_upgrade, after_token, entry_handler,
}

module _ {A B : Type 0} where
  -- What has been checked when a player is in.
  pub record IsAdmitted (jwt : Jwt) (config : Config) (now : ℕ) (auth : String)
      (upgraded : Option ℕ) (before : WebSocketManager A B) (client : ℕ)
      (after : WebSocketManager A B) : Type 0 where
    pub token : GameToken
    pub is_read : validate_game_token jwt config.secret now auth ≡ some token
    pub complete : IsComplete token
    pub in_time : IsInTime now token
    pub this_server : token.server_id ≡ config.server_id
    pub conn : ℕ
    pub is_upgraded : upgraded ≡ some conn
    pub known_game : (clients : GameClients) × (try_get_game token.game_id before ≡ some clients)
    pub connected : upgrade_client token.game_id token.user_id conn before ≡ some (client, after)

  upgrade_client-known :
      (game user : Uuid) (conn client : ℕ) (m m' : WebSocketManager A B)
      → upgrade_client game user conn m ≡ some (client, m')
      → (clients : GameClients) × (try_get_game game m ≡ some clients)
  unfolding upgrade_client
  upgrade_client-known game user conn client m m' e = elim (Option-cases (try_get_game game m)) [
    | inl missing ↦ absurd (ground arith)
    | inr found ↦ found
  ]

  after_client-eq-entered :
      (o : Option (ℕ × WebSocketManager A B)) (client : ℕ) (m : WebSocketManager A B)
      → after_client o ≡ entered client m
      → o ≡ some (client, m)
  unfolding after_client
  after_client-eq-entered none client m e = cc
  after_client-eq-entered (some (c, m')) client m e = ground arith

  after_upgrade-IsAdmitted :
      (jwt : Jwt) (config : Config) (now : ℕ) (auth : String) (token : GameToken)
      (upgraded : Option ℕ) (m : WebSocketManager A B) (client : ℕ) (m' : WebSocketManager A B)
      → validate_game_token jwt config.secret now auth ≡ some token
      → validate now token ≡ none
      → token.server_id ≡ config.server_id
      → after_upgrade token upgraded m ≡ entered client m'
      → IsAdmitted jwt config now auth upgraded m client m'
  unfolding after_upgrade
  after_upgrade-IsAdmitted jwt config now auth token none m client m' read valid here e =
      absurd (ground arith)
  after_upgrade-IsAdmitted jwt config now auth token (some conn) m client m' read valid here e =
      let (complete, in_time) = (validate_iff now token).0 valid in
      let connected = after_client-eq-entered _ client m' e in
      record {
        token = token;
        is_read = read;
        complete = complete;
        in_time = in_time;
        this_server = here;
        conn = conn;
        is_upgraded = refl;
        known_game = upgrade_client-known token.game_id token.user_id conn client m m' connected;
        connected = connected;
      }

  after_token-IsAdmitted :
      (jwt : Jwt) (config : Config) (now : ℕ) (auth : String) (o : Option GameToken)
      (upgraded : Option ℕ) (m : WebSocketManager A B) (client : ℕ) (m' : WebSocketManager A B)
      → validate_game_token jwt config.secret now auth ≡ o
      → ((token : GameToken) → o ≡ some token → validate now token ≡ none)
      → after_token config upgraded m o ≡ entered client m'
      → IsAdmitted jwt config now auth upgraded m client m'
  unfolding after_token
  after_token-IsAdmitted jwt config now auth none upgraded m client m' read valid e =
      absurd (ground arith)
  after_token-IsAdmitted jwt config now auth (some token) upgraded m client m' read valid e =
      elim (Bool-cases (token.server_id == config.server_id)) [
        | inl here ↦
            after_upgrade-IsAdmitted jwt config now auth token upgraded m client m' read
              (valid token refl) ((==_iff token.server_id config.server_id).0 here) (ground arith)
        | inr elsewhere ↦ absurd (ground arith)
      ]

  -- A player only gets in if what the player has sent is read, with this server's secret, as a token
  -- that names a user, a game and this server, whose expiry time is not over, and whose game is known;
  -- and the client that is connected is that user's in that game. This rests on the JWT library calling `Validate` when it parses a token.
  pub entry_handler-IsAdmitted :
      (jwt : Jwt) (config : Config) (now : ℕ) (auth : String) (upgraded : Option ℕ)
      (m : WebSocketManager A B) (client : ℕ) (m' : WebSocketManager A B)
      → IsDocumented jwt
      → entry_handler jwt config now auth upgraded m ≡ entered client m'
      → IsAdmitted jwt config now auth upgraded m client m'
  unfolding entry_handler validate_game_token
  entry_handler-IsAdmitted jwt config now auth upgraded m client m' doc e =
      after_token-IsAdmitted jwt config now auth (validate_game_token jwt config.secret now auth)
        upgraded m client m' refl (λ token read. doc.validates _ now auth token read) e

  -- A server lets in the holder of a token that it has issued, with ids that are not nil, until a second
  -- before an hour is over: what it answers to such a token is what `UpgradeClient` does for the user
  -- and the game of the token.
  pub entry_handler-sign :
      (jwt : Jwt) (config : Config) (user_id game_id : Uuid) (issued_at now conn : ℕ)
      (auth : String) (m : WebSocketManager A B)
      → IsDocumented jwt
      → IsComplete (
          new_game_token jwt.numeric_date user_id game_id config.server_id config.server_host
            config.issuer issued_at)
      → now + 1_000_000_000 ≤ issued_at + game_token_lifetime
      → sign jwt config.secret (
          new_game_token jwt.numeric_date user_id game_id config.server_id config.server_host
            config.issuer issued_at)
        ≡ some auth
      → entry_handler jwt config now auth (some conn) m
        ≡ after_client (upgrade_client game_id user_id conn m)
  unfolding entry_handler after_token after_upgrade new_game_token
  entry_handler-sign jwt config user_id game_id issued_at now conn auth m doc complete early
        signed =
      let token =
        new_game_token jwt.numeric_date user_id game_id config.server_id config.server_host
          config.issuer issued_at in
      let read =
        validate_game_token-sign jwt config.secret auth config.server_host config.issuer user_id
          game_id config.server_id issued_at now doc complete early signed in
      ap (after_token config (some conn) m) read ∙ ground arith
