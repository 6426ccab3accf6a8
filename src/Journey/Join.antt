-- ===== src/Journey/Join.antt =====
-- The second player's way into a game: game-master/main.go asks the lobby of the game over the queue
-- (game/farkle/internal/lobby/loop.go), and the player enters with the answer's token
-- (game/farkle/internal/web/entry.go).
use dice_server.Prelude.{
  ℕ, ◌+◌, ◌≤◌, ◌≡◌, ◌≢◌, sym, ap, ◌∙◌, true, Option, none, some, List, [], ◌∷◌, ◌++◌, All, arith,
}
use dice_server.Connect.{Uuid, LobbyPlayer, LobbyResponse, JoinFarkleRequest}
use dice_server.Auth.{game_token_lifetime, nil_uuid}
use dice_server.Auth.Lifetime.{new_game_token-IsComplete}
use dice_server.Auth.Signing.{Jwt, IsDocumented}
use dice_server.Client.Manager.{WebSocketManager, get_client}
use dice_server.Client.Manager.Lookups.{find_client, find_client-get_client, upgrade_client-found}
use dice_server.Client.Socket.{reconnect}
use dice_server.Client.Manager.{on_client}
use dice_server.Master.{JoinRequestBody, success, join_farkle_handler}
use dice_server.Master.Answers.{await_joined-append, join_farkle_handler-request}
use dice_server.Farkle.Entry.{entered, Config, after_client, entry_handler}
use dice_server.Farkle.Entry.Admission.{entry_handler-sign}
use dice_server.Farkle.Lobby.Joining.{JoinEvent, joined, wait_for_other_player}
use dice_server.Farkle.Lobby.Joining.First.{IsJoin, first_attempt, wait_for_other_player-IsJoin}
use dice_server.Journey.{IsServer}

module _ {A B : Type 0} where
  find_client-joined :
      (game user : Uuid) (client : ℕ) (before after : WebSocketManager A B)
      → get_client game user before ≡ (client, after)
      → find_client game user after ≡ some client
  find_client-joined game user client before after e =
      ap (λ x. find_client game user x.1) (sym e)
      ∙ find_client-get_client game user before
      ∙ ap (λ x. some x.0) e

  -- A player who joins plays: if a lobby takes the request that the game master has published as its
  -- first readable one, and answers it, then whatever cannot be read before, the player is told of that
  -- answer; and with its token the server connects the player, until a second before an hour after it
  -- was issued and as long as the player's client is the one that it was, to the very client that the
  -- lobby plays with. This rests on the ids not being nil, the server's included, on the server's host
  -- not being empty, and on the JWT library reading back what it has signed.
  pub joined_game_is_entered :
      (jwt : Jwt) (config : Config) (game_id : Uuid) (issued_at now conn client : ℕ)
      (fresh : ℕ → Uuid) (body : JoinRequestBody) (request : JoinFarkleRequest)
      (es : List JoinEvent) (player : LobbyPlayer) (response : LobbyResponse)
      (others rest : List (Option LobbyResponse)) (before after m : WebSocketManager A B)
      → IsDocumented jwt
      → IsServer config
      → game_id ≢ nil_uuid
      → fresh 0 ≢ nil_uuid
      → (join_farkle_handler true true true (others ++ some response ∷ rest) fresh body).1
        ≡ some request
      → first_attempt es ≡ some (request.player, issued_at)
      → wait_for_other_player jwt config game_id es before ≡ joined client player response after
      → All (λ a. a ≡ none) others
      → now + 1_000_000_000 ≤ issued_at + game_token_lifetime
      → find_client game_id player.user_id m ≡ find_client game_id player.user_id after
      → ((join_farkle_handler true true true (others ++ some response ∷ rest) fresh body).0
          ≡ success 200 player.user_id response ∷ [])
        × (entry_handler jwt config now response.auth (some conn) m
            ≡ entered client (record m { store = on_client (reconnect conn) client m.store }))
  unfolding after_client
  joined_game_is_entered jwt config game_id issued_at now conn client fresh body request es player
        response others rest before after m doc server game user published first won unread early
        same =
      let (new_player, answered) =
        join_farkle_handler-request true (others ++ some response ∷ rest) fresh body request
          published in
      let j : IsJoin jwt config game_id es before client player response after =
        wait_for_other_player-IsJoin jwt config game_id es before client player response after
          won in
      let is_first : some (request.player, issued_at) ≡ some (player, j.now) =
        sym first ∙ j.first in
      let same_player : request.player ≡ player = ground (arith, is_first) in
      let same_time : issued_at ≡ j.now = ground (arith, is_first) in
      let is_user : player.user_id ≡ fresh 0 = ap (λ p. p.user_id) (sym same_player) ∙ new_player in
      let taken = await_joined-append others rest response unread in
      let found =
        same ∙ find_client-joined game_id player.user_id client before after j.same_client in
      let entry =
        entry_handler-sign jwt config player.user_id game_id j.now now conn response.auth m doc
          (new_game_token-IsComplete jwt.numeric_date player.user_id game_id config.server_id
            config.server_host config.issuer j.now (λ e. user (sym is_user ∙ e)) game server.has_id
            server.has_host)
          (omega (arith, same_time, early)) j.own_token in
      (
        answered ∙ ground (arith, taken, is_user),
        entry ∙ ap after_client (upgrade_client-found game_id player.user_id conn client m found),
      )
