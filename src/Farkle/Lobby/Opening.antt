-- ===== src/Farkle/Lobby/Opening.antt =====
-- game/farkle/internal/lobby/loop.go: `runLobby` up to the start of the two waiting goroutines. What
-- goes out over a web socket is a `Message`. `SetTurn(true)` of `createPlayer` is in Meeting.
pub mod Seats
use dice_server.Prelude.{ℕ, String, Bool, true, false, Option, none, some, List, [], ◌∷◌, get_elem?}
use dice_server.Connect.{Uuid, LobbyPlayer, CreateFarkleRequest, LobbyResponse}
use dice_server.Auth.Signing.{Jwt}
use dice_server.Client.Socket.{WebSocketClient, send}
use dice_server.Client.Manager.{WebSocketManager, get_client, on_client, close_game}
use dice_server.Farkle.Message.{Message, player_joining, terminate}
use dice_server.Farkle.Entry.{Config}
use dice_server.Farkle.Lobby.Joining.{
  JoinEvent, Joining, joined, failed, waits, wait_for_other_player,
}

-- `opened` has the clients of the two players; `turned_away` the error and the manager behind
-- `CloseGame`, or `none` for its panic.
module _ (A : Type 0) where
  pub data Opening : Type 0 where
    opened : ℕ → ℕ → LobbyPlayer → LobbyResponse → WebSocketManager A Message → Opening
    turned_away : String → Option (WebSocketManager A Message) → Opening
    still_waits : WebSocketManager A Message → Opening

module _ {A : Type 0} where
  unfoldable pub sent_by :
      ℕ
      → WebSocketManager A Message
      → Bool × WebSocketClient A Message
      → Bool × WebSocketManager A Message
  unfolding on_client
  sent_by client manager (ok, c) =
      (ok, record manager { store = on_client (λ _. c) client manager.store })

  unfoldable pub send_through :
      ℕ
      → Message
      → Option (WebSocketClient A Message)
      → WebSocketManager A Message
      → Bool × WebSocketManager A Message
  unfolding sent_by
  send_through client msg none manager = (false, manager)
  send_through client msg (some c) manager = sent_by client manager (send msg c)

  -- `Send` on the client at a place in the store, which is there for every client of the manager.
  unfoldable pub send_to :
      ℕ → Message → WebSocketManager A Message → Bool × WebSocketManager A Message
  unfolding send_through
  send_to client msg manager = send_through client msg (get_elem? manager.store client) manager

  unfoldable pub say_goodbye :
      Option ℕ → Message → WebSocketManager A Message → WebSocketManager A Message
  unfolding send_to
  say_goodbye none msg manager = manager
  say_goodbye (some client) msg manager = (send_to client msg manager).1

  -- `abandonConnecting`; `none` is the panic of `CloseGame`.
  unfoldable pub abandon_connecting :
      Uuid
      → ℕ
      → Option ℕ
      → String
      → WebSocketManager A Message
      → Option (WebSocketManager A Message)
  unfolding say_goodbye
  abandon_connecting game_id first second reason manager =
      close_game game_id (
        say_goodbye second (terminate reason) (say_goodbye (some first) (terminate reason) manager))

  unfoldable pub after_announcing :
      Uuid → ℕ → ℕ → LobbyPlayer → LobbyResponse → Bool × WebSocketManager A Message → Opening A
  unfolding abandon_connecting
  after_announcing game_id first second player response (true, manager) =
      opened first second player response manager
  after_announcing game_id first second player response (false, manager) =
      turned_away "failed to send player joining"
        (abandon_connecting game_id first (some second) "failed to send player joining" manager)

  unfoldable pub after_waiting : Uuid → ℕ → Joining A Message → Opening A
  unfolding after_announcing send_to abandon_connecting
  after_waiting game_id first (joined second player response manager) =
      after_announcing game_id first second player response
        (send_to first (player_joining player) manager)
  after_waiting game_id first (failed err manager) =
      turned_away "failed to wait for other player"
        (abandon_connecting game_id first none "failed to wait for other player" manager)
  after_waiting game_id first (waits manager) = still_waits manager

  unfoldable pub open_lobby :
      Jwt → Config → CreateFarkleRequest → List JoinEvent → WebSocketManager A Message → Opening A
  unfolding after_waiting
  open_lobby jwt config request es manager =
      let (first, manager') = get_client request.game_id request.player.user_id manager in
      after_waiting request.game_id first
        (wait_for_other_player jwt config request.game_id es manager')
