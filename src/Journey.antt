-- ===== src/Journey.antt =====
-- A player's way into a game: game-master/main.go asks the worker of a game server over the queue
-- (game/farkle/internal/lobby), and the player enters with the answer's token
-- (game/farkle/internal/web/entry.go).
pub mod Join
pub mod Play
pub mod Life
mod Examples
use dice_server.Prelude.{
  ℕ, ◌+◌, ◌≤◌, ◌≡◌, ◌≢◌, refl, sym, ap, ◌∙◌, String, Bool, true, false, Option, none, some, List,
  [], ◌∷◌, ◌++◌, All, str_eq, arith,
}
use dice_server.Connect.{Uuid, LobbyPlayer, CreateFarkleRequest, LobbyResponse}
use dice_server.Auth.{game_token_lifetime, nil_uuid, new_game_token}
use dice_server.Auth.Lifetime.{new_game_token-IsComplete}
use dice_server.Auth.Signing.{Jwt, IsDocumented}
use dice_server.Client.Manager.{WebSocketManager, upgrade_client}
use dice_server.Master.{
  CreateRequestBody, Answer, success, answer_of, after_publish, await_accepted,
  create_farkle_handler,
}
use dice_server.Master.Answers.{
  IsOther, await_accepted-append, IsPublished, create_farkle_handler-IsPublished,
}
use dice_server.Farkle.Entry.{Config, Entry, entered, after_client, entry_handler}
use dice_server.Client.Manager.{on_client}
use dice_server.Client.Manager.Lookups.{find_client, upgrade_client-found}
use dice_server.Client.Socket.{reconnect}
use dice_server.Farkle.Entry.Admission.{entry_handler-sign}
use dice_server.Farkle.Lobby.Joining.{token_for, response_with}
use dice_server.Farkle.Lobby.Worker.{after_signing, start_lobby}

-- What `startLobby` publishes.
record IsStarted (jwt : Jwt) (config : Config) (issued_at : ℕ) (request : CreateFarkleRequest)
    (response : LobbyResponse) : Type 0 where
  same_game : response.game_id ≡ request.game_id
  signed :
      token_for jwt config request.player.user_id request.game_id issued_at ≡ some response.auth

after_signing-IsStarted :
    (jwt : Jwt) (config : Config) (issued_at : ℕ) (published : Bool) (request : CreateFarkleRequest)
    (response : LobbyResponse) (signed : Option String)
    → token_for jwt config request.player.user_id request.game_id issued_at ≡ signed
    → after_signing jwt config published request signed ≡ some response
    → IsStarted jwt config issued_at request response
unfolding after_signing
after_signing-IsStarted jwt config issued_at published request response none s e =
    absurd (ground arith)
after_signing-IsStarted jwt config issued_at false request response (some auth) s e =
    absurd (ground arith)
after_signing-IsStarted jwt config issued_at true request response (some auth) s e = record {
  same_game = ground arith;
  signed = s ∙ ground arith;
}

-- A server with an id and a host.
pub record IsServer (config : Config) : Type 0 where
  pub has_id : config.server_id ≢ nil_uuid
  pub has_host : str_eq config.server_host "" ≡ false

module _ {A B : Type 0} where
  -- A game that is created is entered: if the game master has published a request and a server has
  -- answered it, then whatever else comes over the queue before, the player is told of the game with
  -- that server's answer; and with the token of that answer the server connects the player, until a
  -- second before an hour after it was issued, to the player's client in the game, if the lobby has
  -- made that client, which it does only behind its answer. This rests on fresh ids and the server's id not being nil, on the server's host not being empty, and on
  -- the JWT library reading back what it has signed.
  pub created_game_is_entered :
      (jwt : Jwt) (config : Config) (issued_at now conn client : ℕ) (fresh : ℕ → Uuid)
      (body : CreateRequestBody) (request : CreateFarkleRequest) (response : LobbyResponse)
      (others rest : List (Option LobbyResponse)) (m : WebSocketManager A B)
      → IsDocumented jwt
      → IsServer config
      → fresh 0 ≢ nil_uuid
      → fresh 1 ≢ nil_uuid
      → (create_farkle_handler true true (others ++ some response ∷ rest) fresh body).1
        ≡ some request
      → start_lobby jwt config issued_at true request ≡ some response
      → All (IsOther (fresh 0)) others
      → now + 1_000_000_000 ≤ issued_at + game_token_lifetime
      → find_client request.game_id request.player.user_id m ≡ some client
      → ((create_farkle_handler true true (others ++ some response ∷ rest) fresh body).0
          ≡ success 201 request.player.user_id response ∷ [])
        × (entry_handler jwt config now response.auth (some conn) m
            ≡ entered client (record m { store = on_client (reconnect conn) client m.store }))
  unfolding start_lobby after_client
  created_game_is_entered jwt config issued_at now conn client fresh body request response others
        rest m doc server game player published started other early made =
      let p =
        create_farkle_handler-IsPublished true (others ++ some response ∷ rest) fresh body request
          published in
      let s = after_signing-IsStarted jwt config issued_at true request response _ refl started in
      let accepted =
        await_accepted-append (fresh 0) others rest response other (s.same_game ∙ p.new_game) in
      (
        p.answered ∙ ground (arith, accepted, p.new_player),
        entry_handler-sign jwt config request.player.user_id request.game_id issued_at now conn
              response.auth m doc
              (unfold new_game_token in
                (
                  λ e. player (sym p.new_player ∙ e),
                  λ e. game (sym p.new_game ∙ e),
                  server.has_id,
                  server.has_host,
                ))
              early s.signed
            ∙ ap after_client
                (upgrade_client-found request.game_id request.player.user_id conn client m made),
      )
