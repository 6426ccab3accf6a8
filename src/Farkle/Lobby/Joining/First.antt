-- ===== src/Farkle/Lobby/Joining/First.antt =====
-- Who joins a lobby (game/farkle/internal/lobby/loop.go).
use dice_server.Prelude.{
  ℕ, ◌≡◌, refl, sym, ap, ◌∙◌, String, Bool, true, false, Option, none, some, List, [], ◌∷◌, arith,
}
use dice_server.Connect.{Uuid, LobbyPlayer, LobbyResponse}
use dice_server.Auth.Signing.{Jwt}
use dice_server.Client.Manager.{WebSocketManager, get_client}
use dice_server.Farkle.Entry.{Config}
use dice_server.Farkle.Lobby.Joining.{
  JoinEvent, attempt, out_of_time, out_of_messages, joined, token_for, response_with, after_sign,
  on_join, wait_for_other_player,
}

-- The first attempt that can be read before the time or the messages end, with its time.
abbrev pub first_attempt : List JoinEvent → Option (LobbyPlayer × ℕ)
first_attempt [] = none
first_attempt (out_of_time ∷ es) = none
first_attempt (out_of_messages ∷ es) = none
first_attempt (attempt none now published ∷ es) = first_attempt es
first_attempt (attempt (some request) now published ∷ es) = some (request.player, now)

module _ {A B : Type 0} (jwt : Jwt) (config : Config) (game_id : Uuid) where
  -- A join that succeeded: whose it was, the client, and what the game master is answered.
  pub record IsJoin (es : List JoinEvent) (before : WebSocketManager A B) (client : ℕ)
      (player : LobbyPlayer) (response : LobbyResponse) (after : WebSocketManager A B)
      : Type 0 where
    pub now : ℕ
    pub first : first_attempt es ≡ some (player, now)
    pub same_client : get_client game_id player.user_id before ≡ (client, after)
    pub own_token : token_for jwt config player.user_id game_id now ≡ some response.auth
    pub this_game : response.game_id ≡ game_id
    pub this_server : response.server_id ≡ config.server_id
    pub this_host : response.server_host ≡ config.server_host

  after_sign-eq-joined :
      (p player : LobbyPlayer) (published : Bool) (got : ℕ × WebSocketManager A B)
      (signed : Option String) (client : ℕ) (response : LobbyResponse)
      (after : WebSocketManager A B)
      → after_sign jwt config game_id p published got signed ≡ joined client player response after
      → (p ≡ player)
        × (got ≡ (client, after))
        × (signed ≡ some response.auth)
        × (response ≡ response_with jwt config game_id response.auth)
  unfolding after_sign
  after_sign-eq-joined p player published (c, m) none client response after e =
      absurd (ground arith)
  after_sign-eq-joined p player false (c, m) (some auth) client response after e =
      absurd (ground arith)
  after_sign-eq-joined p player true (c, m) (some auth) client response after e = ground arith

  on_join-IsJoin :
      (es : List JoinEvent) (p : LobbyPlayer) (now : ℕ) (published : Bool)
      (before : WebSocketManager A B) (client : ℕ) (player : LobbyPlayer) (response : LobbyResponse)
      (after : WebSocketManager A B)
      → first_attempt es ≡ some (p, now)
      → on_join jwt config game_id p now published before ≡ joined client player response after
      → IsJoin es before client player response after
  unfolding on_join
  on_join-IsJoin es p now published before client player response after first e =
      let (same, got, signed, answer) =
        after_sign-eq-joined p player published (get_client game_id p.user_id before)
          (token_for jwt config p.user_id game_id now) client response after e in
      record {
        now = now;
        first = first ∙ ap (λ x. some (x, now)) same;
        same_client = ap (λ x. get_client game_id x.user_id before) (sym same) ∙ got;
        own_token = ap (λ x. token_for jwt config x.user_id game_id now) (sym same) ∙ signed;
        this_game = ap (λ r. r.game_id) answer;
        this_server = ap (λ r. r.server_id) answer;
        this_host = ap (λ r. r.server_host) answer;
      }

  -- If a lobby gets its second player, that is the one of the first join attempt that could be read; the
  -- player has the client that `GetClient` yields, and the answer that goes out names this game and
  -- this server and carries a token signed for this player, issued then.
  pub wait_for_other_player-IsJoin :
      (es : List JoinEvent) (before : WebSocketManager A B) (client : ℕ) (player : LobbyPlayer)
      (response : LobbyResponse) (after : WebSocketManager A B)
      → wait_for_other_player jwt config game_id es before ≡ joined client player response after
      → IsJoin es before client player response after
  unfolding wait_for_other_player
  wait_for_other_player-IsJoin [] before client player response after e = absurd (ground arith)
  wait_for_other_player-IsJoin (out_of_time ∷ es) before client player response after e =
      absurd (ground arith)
  wait_for_other_player-IsJoin (out_of_messages ∷ es) before client player response after e =
      absurd (ground arith)
  wait_for_other_player-IsJoin (attempt none now published ∷ es) before client player response after
        e =
      let j = wait_for_other_player-IsJoin es before client player response after e in
      record {
        now = j.now;
        first = j.first;
        same_client = j.same_client;
        own_token = j.own_token;
        this_game = j.this_game;
        this_server = j.this_server;
        this_host = j.this_host;
      }
  wait_for_other_player-IsJoin (attempt (some request) now published ∷ es) before client player
        response after e =
      on_join-IsJoin (attempt (some request) now published ∷ es) request.player now published before
        client player response after refl e
