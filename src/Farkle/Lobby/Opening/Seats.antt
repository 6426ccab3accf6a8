-- ===== src/Farkle/Lobby/Opening/Seats.antt =====
-- Who sits in a lobby that has opened, and what is left of one that has not
-- (game/farkle/internal/lobby/loop.go).
use mathlib.Core.Path.{subst}
use dice_server.Prelude.{
  ℕ, ◌≡◌, ◌≢◌, refl, sym, ap, ◌∙◌, String, Bool, true, false, Option, none, some, List, [], ◌∷◌,
  get_elem?, Option-cases, inl, inr, arith,
}
use dice_server.Prelude.Assoc.{lookup}
use dice_server.Connect.{Uuid, LobbyPlayer, CreateFarkleRequest, LobbyResponse}
use dice_server.Auth.Signing.{Jwt}
use dice_server.Client.Manager.{WebSocketManager, try_get_game, get_client, close_game}
use dice_server.Client.Manager.Lookups.{
  client_in, find_client, IsSound, GetsClient, get_client-GetsClient,
}
use dice_server.Client.Manager.Open.{close_game-none, all_closed-get_client}
use dice_server.Client.Manager.Closing.{close_game-try_get_game}
use dice_server.Farkle.Message.{Message, player_joining, terminate}
use dice_server.Farkle.Entry.{Config}
use dice_server.Farkle.Lobby.Joining.{
  JoinEvent, attempt, out_of_time, out_of_messages, Joining, joined, failed, waits, after_sign,
  on_join, wait_for_other_player,
}
use dice_server.Farkle.Lobby.Joining.First.{wait_for_other_player-IsJoin}
use dice_server.Farkle.Lobby.Opening.{
  Opening, opened, turned_away, still_waits, send_to, after_announcing, after_waiting, open_lobby,
  say_goodbye, abandon_connecting,
}

module _ {A : Type 0} where
  -- Who sits in the lobby, or that its game is gone.
  abbrev pub IsOpening : CreateFarkleRequest → Opening A → Type 0
  IsOpening request (opened first second player response m) =
      (find_client request.game_id request.player.user_id m ≡ some first)
      × (find_client request.game_id player.user_id m ≡ some second)
      × (request.player.user_id ≢ player.user_id → first ≢ second)
      × (m.all_closed ≡ false)
  IsOpening request (turned_away err none) = ⊥
  IsOpening request (turned_away err (some m)) = try_get_game request.game_id m ≡ none
  IsOpening request (still_waits m) = Unit

  send_to-games :
      (client : ℕ) (msg : Message) (m : WebSocketManager A Message)
      → ((send_to client msg m).1.games ≡ m.games)
        × ((send_to client msg m).1.all_closed ≡ m.all_closed)
  unfolding send_to
  send_to-games client msg m = elim (Option-cases (get_elem? m.store client)) [
    | inl missing ↦ (ground arith, ground arith)
    | inr (c, there) ↦ (ground arith, ground arith)
  ]

  turned_away-IsOpening :
      (request : CreateFarkleRequest) (err : String) (m : WebSocketManager A Message)
      (o : Option (WebSocketManager A Message))
      → m.all_closed ≡ false
      → close_game request.game_id m ≡ o
      → IsOpening request (turned_away err o)
  turned_away-IsOpening request err m none up e = close_game-none request.game_id m up e
  turned_away-IsOpening request err m (some m') up e =
      close_game-try_get_game request.game_id request.game_id m m' e ∙ ground arith

  pub all_closed-say_goodbye :
      (client : Option ℕ) (msg : Message) (m : WebSocketManager A Message)
      → (say_goodbye client msg m).all_closed ≡ m.all_closed
  unfolding say_goodbye
  all_closed-say_goodbye none msg m = refl
  all_closed-say_goodbye (some client) msg m = (send_to-games client msg m).1

  abandon_connecting-IsOpening :
      (request : CreateFarkleRequest) (err reason : String) (first : ℕ) (second : Option ℕ)
      (m : WebSocketManager A Message)
      → m.all_closed ≡ false
      → IsOpening request
          (turned_away err (abandon_connecting request.game_id first second reason m))
  unfolding abandon_connecting
  abandon_connecting-IsOpening request err reason first second m up =
      turned_away-IsOpening request err _ _
        (all_closed-say_goodbye second (terminate reason) _
          ∙ all_closed-say_goodbye (some first) (terminate reason) m
          ∙ up)
        refl

  abbrev manager_of : Joining A Message → WebSocketManager A Message
  manager_of (joined client player response m) = m
  manager_of (failed err m) = m
  manager_of (waits m) = m

module _ {A : Type 0} (jwt : Jwt) (config : Config) (game_id : Uuid) where
  all_closed-after_sign :
      (player : LobbyPlayer) (published : Bool) (client : ℕ) (m : WebSocketManager A Message)
      (signed : Option String)
      → (manager_of (after_sign jwt config game_id player published (client, m) signed)).all_closed
        ≡ m.all_closed
  unfolding after_sign
  all_closed-after_sign player published client m none = refl
  all_closed-after_sign player true client m (some auth) = refl
  all_closed-after_sign player false client m (some auth) = refl

  all_closed-wait_for_other_player :
      (es : List JoinEvent) (m : WebSocketManager A Message)
      → (manager_of (wait_for_other_player jwt config game_id es m)).all_closed ≡ m.all_closed
  unfolding wait_for_other_player on_join
  all_closed-wait_for_other_player [] m = refl
  all_closed-wait_for_other_player (out_of_time ∷ es) m = refl
  all_closed-wait_for_other_player (out_of_messages ∷ es) m = refl
  all_closed-wait_for_other_player (attempt none now published ∷ es) m =
      all_closed-wait_for_other_player es m
  all_closed-wait_for_other_player (attempt (some request) now published ∷ es) m =
      all_closed-after_sign request.player published _ _ _
      ∙ all_closed-get_client game_id request.player.user_id m

module _ {A : Type 0} where
  after_announcing-IsOpening :
      (request : CreateFarkleRequest) (first second : ℕ) (player : LobbyPlayer)
      (response : LobbyResponse) (m : WebSocketManager A Message)
      (p : Bool × WebSocketManager A Message)
      → p.1.games ≡ m.games
      → p.1.all_closed ≡ false
      → find_client request.game_id request.player.user_id m ≡ some first
      → find_client request.game_id player.user_id m ≡ some second
      → (request.player.user_id ≢ player.user_id → first ≢ second)
      → IsOpening request (after_announcing request.game_id first second player response p)
  unfolding after_announcing
  after_announcing-IsOpening request first second player response m (true, m') same up f f' apart =
      (
        ap (λ gs. client_in request.player.user_id (lookup request.game_id gs)) same ∙ f,
        ap (λ gs. client_in player.user_id (lookup request.game_id gs)) same ∙ f',
        apart,
        up,
      )
  after_announcing-IsOpening request first second player response m (false, m') same up f f' apart =
      abandon_connecting-IsOpening request "failed to send player joining"
        "failed to send player joining" first (some second) m' up

  after_waiting-IsOpening :
      (request : CreateFarkleRequest) (first : ℕ) (m : WebSocketManager A Message)
      (j : Joining A Message)
      → IsSound m
      → find_client request.game_id request.player.user_id m ≡ some first
      → (manager_of j).all_closed ≡ false
      → ((client : ℕ) (player : LobbyPlayer) (response : LobbyResponse)
            (after : WebSocketManager A Message)
          → j ≡ joined client player response after
          → get_client request.game_id player.user_id m ≡ (client, after))
      → IsOpening request (after_waiting request.game_id first j)
  unfolding after_waiting
  after_waiting-IsOpening request first m (joined second player response m') sound f up got =
      let (sound', f', keeps) =
        subst (GetsClient request.game_id player.user_id m) (got second player response m' refl)
          (get_client-GetsClient request.game_id player.user_id m sound) in
      let (same, same_up) = send_to-games first (player_joining player) m' in
      let kept = keeps request.game_id request.player.user_id first f in
      after_announcing-IsOpening request first second player response m'
        (send_to first (player_joining player) m') same (same_up ∙ up) kept f'
        (λ differ e.
          differ
            (sound'.apart request.game_id request.player.user_id request.game_id player.user_id
              first kept (f' ∙ ap some (sym e))).1)
  after_waiting-IsOpening request first m (failed err m') sound f up got =
      abandon_connecting-IsOpening request "failed to wait for other player"
        "failed to wait for other player" first none m' up
  after_waiting-IsOpening request first m (waits m') sound f up got = tt

  -- A lobby that opens has both players at the server: the clients that it plays with are those that the
  -- manager has for them in this game, two players never share one, and the manager is still not
  -- closed. A lobby that turns its player
  -- away, because no one joins or the announcement cannot be sent, has closed the game without a panic,
  -- and the game is not there any more. This needs a manager that is not closed and in which no two
  -- players share a client, as after any calls of its methods from its beginning.
  pub open_lobby-IsOpening :
      (jwt : Jwt) (config : Config) (request : CreateFarkleRequest) (es : List JoinEvent)
      (m : WebSocketManager A Message)
      → IsSound m
      → m.all_closed ≡ false
      → IsOpening request (open_lobby jwt config request es m)
  unfolding open_lobby
  open_lobby-IsOpening jwt config request es m sound up =
      let g = request.game_id in
      let u = request.player.user_id in
      let m' = (get_client g u m).1 in
      let (sound', f, _) = get_client-GetsClient g u m sound in
      after_waiting-IsOpening request (get_client g u m).0 m'
        (wait_for_other_player jwt config g es m') sound' f
        (all_closed-wait_for_other_player jwt config g es m' ∙ all_closed-get_client g u m ∙ up)
        (λ client player response after e.
          (wait_for_other_player-IsJoin jwt config g es m' client player response after
            e).same_client)
