-- ===== src/Farkle/Lobby/Life.antt =====
-- game/farkle/internal/lobby/loop.go: the whole of `runLobby`, with the game that it plays.
--
-- A `Script` is what comes from outside in each part. `others` is what the rest of the server does to
-- the manager while the lobby goes on behind its opening, the sending of the game's own messages
-- included.
pub mod Over
pub mod Sturdy
use dice_server.Prelude.{ℕ, String, Option, none, some, List, [], ◌∷◌}
use dice_server.Connect.{Uuid, LobbyPlayer, CreateFarkleRequest, LobbyResponse}
use dice_server.Auth.Signing.{Jwt}
use dice_server.Client.Manager.{WebSocketManager, close_game}
use dice_server.Farkle.Dice.{Roller}
use dice_server.Farkle.Message.{Message}
use dice_server.Farkle.Player.{Wake}
use dice_server.Farkle.Entry.{Config}
use dice_server.Farkle.Game.Match.{
  Outcome, finished, aborted, pending, crashed, unfinished, new_farkle_game, play,
}
use dice_server.Farkle.Lobby.Joining.{JoinEvent}
use dice_server.Farkle.Lobby.Opening.{
  Opening, opened, turned_away, still_waits, say_goodbye, open_lobby,
}
use dice_server.Farkle.Lobby.Meeting
use dice_server.Farkle.Lobby.Meeting.{Lobby, Status, meeting, started, Move, gather, run_lobby}

module _ (A : Type 0) where
  pub record Script : Type 0 where
    pub joins : List JoinEvent
    pub ids : ℕ → Uuid
    pub ids' : ℕ → Uuid
    pub moves : List Move
    pub others : WebSocketManager A Message → WebSocketManager A Message
    pub wakes : List Wake
    pub wakes' : List Wake
    pub roller : Roller
    pub clock : ℕ → ℕ
    pub start : ℕ
    pub turns : ℕ

  -- `returned` has the error and the manager behind `CloseGame`; `close_panicked` is the panic of
  -- `CloseGame`, `panicked` any other panic of a goroutine of the lobby.
  pub data End : Type 0 where
    returned : Option String → WebSocketManager A Message → End
    close_panicked : Option String → End
    still_runs : WebSocketManager A Message → End
    panicked : End

module _ {A : Type 0} where
  unfoldable pub closed : Option String → Option (WebSocketManager A Message) → End A
  closed err none = close_panicked err
  closed err (some manager) = returned err manager

  -- `Play` with its deferred `CloseGame`.
  unfoldable pub after_play : Uuid → Outcome → WebSocketManager A Message → End A
  unfolding close_game closed
  after_play game_id (finished winner g) manager = closed none (close_game game_id manager)
  after_play game_id (aborted err g) manager = closed none (close_game game_id manager)
  after_play game_id (pending g) manager = still_runs manager
  after_play game_id (unfinished i g) manager = still_runs manager
  after_play game_id crashed manager = panicked

  -- What `abandonConnecting` sends to both players.
  unfoldable pub say_all :
      ℕ → ℕ → List Message → WebSocketManager A Message → WebSocketManager A Message
  unfolding say_goodbye
  say_all first second [] manager = manager
  say_all first second (msg ∷ msgs) manager =
      say_all first second msgs
        (say_goodbye (some second) msg (say_goodbye (some first) msg manager))

  unfoldable pub after_meeting :
      Script A
      → CreateFarkleRequest
      → ℕ
      → ℕ
      → List Message
      → Status
      → WebSocketManager A Message
      → End A
  unfolding after_play say_all play new_farkle_game closed
  after_meeting script request first second goodbye meeting manager = still_runs manager
  after_meeting script request first second goodbye Meeting.crashed manager = panicked
  after_meeting script request first second goodbye (Meeting.returned err) manager =
      closed err (close_game request.game_id (say_all first second goodbye manager))
  after_meeting script request first second goodbye (started p q) manager =
      after_play request.game_id
        (play script.turns script.start
          (new_farkle_game p q request script.wakes script.wakes' script.roller script.clock))
        manager

  unfoldable pub after_opening :
      (Option String → String → Option String) → Script A → CreateFarkleRequest → Opening A → End A
  unfolding after_meeting run_lobby gather closed
  after_opening wrap script request (turned_away err manager) = closed (some err) manager
  after_opening wrap script request (still_waits manager) = still_runs manager
  after_opening wrap script request (opened first second player response manager) =
      let l =
        run_lobby wrap request.player.user_id player.user_id script.moves
          (gather request.player player script.ids script.ids') in
      after_meeting script request first second l.goodbye l.status (script.others manager)

  unfoldable pub live :
      (Option String → String → Option String)
      → Jwt
      → Config
      → Script A
      → CreateFarkleRequest
      → WebSocketManager A Message
      → End A
  unfolding after_opening open_lobby
  live wrap jwt config script request manager =
      after_opening wrap script request (open_lobby jwt config request script.joins manager)
