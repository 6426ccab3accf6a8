-- ===== src/Farkle/Lobby/Life/Over.antt =====
-- How the life of a lobby ends (game/farkle/internal/lobby/loop.go).
use dice_server.Prelude.{ℕ, ◌≡◌, refl, ◌∙◌, String, false, Option, none, some, List, [], ◌∷◌, arith}
use dice_server.Connect.{Uuid, CreateFarkleRequest}
use dice_server.Auth.Signing.{Jwt}
use dice_server.Client.Manager.{WebSocketManager, try_get_game, close_game}
use dice_server.Client.Manager.Lookups.{IsSound}
use dice_server.Client.Manager.Closing.{close_game-try_get_game}
use dice_server.Client.Manager.Open.{close_game-none}
use dice_server.Farkle.Message.{Message}
use dice_server.Farkle.Entry.{Config}
use dice_server.Farkle.Game.Match.{
  Outcome, finished, aborted, pending, crashed, unfinished, new_farkle_game, play,
}
use dice_server.Farkle.Lobby.Opening.{Opening, opened, turned_away, still_waits, open_lobby}
use dice_server.Farkle.Lobby.Opening.Seats.{IsOpening, open_lobby-IsOpening, all_closed-say_goodbye}
use dice_server.Farkle.Lobby.Meeting
use dice_server.Farkle.Lobby.Meeting.{Status, meeting, started, gather, run_lobby}
use dice_server.Farkle.Lobby.Life.{
  Script, End, returned, close_panicked, still_runs, panicked, closed, after_play, say_all,
  after_meeting, after_opening, live,
}

module _ {A : Type 0} where
  -- A lobby that has returned has left no game.
  abbrev pub IsOver : Uuid → End A → Type 0
  IsOver game_id (returned err m) = try_get_game game_id m ≡ none
  IsOver game_id (close_panicked err) = ⊥
  IsOver game_id (still_runs m) = Unit
  IsOver game_id panicked = Unit

  closed-IsOver :
      (game_id : Uuid) (err : Option String) (m : WebSocketManager A Message)
      (o : Option (WebSocketManager A Message))
      → close_game game_id m ≡ o
      → m.all_closed ≡ false
      → IsOver game_id (closed err o)
  unfolding closed
  closed-IsOver game_id err m none e up = close_game-none game_id m up e
  closed-IsOver game_id err m (some m') e up =
      close_game-try_get_game game_id game_id m m' e ∙ ground arith

  after_play-IsOver :
      (game_id : Uuid) (o : Outcome) (m : WebSocketManager A Message)
      → m.all_closed ≡ false
      → IsOver game_id (after_play game_id o m)
  unfolding after_play
  after_play-IsOver game_id (finished winner g) m up = closed-IsOver game_id none m _ refl up
  after_play-IsOver game_id (aborted err g) m up = closed-IsOver game_id none m _ refl up
  after_play-IsOver game_id (pending g) m up = tt
  after_play-IsOver game_id (unfinished i g) m up = tt
  after_play-IsOver game_id crashed m up = tt

  all_closed-say_all :
      (first second : ℕ) (msgs : List Message) (m : WebSocketManager A Message)
      → (say_all first second msgs m).all_closed ≡ m.all_closed
  unfolding say_all
  all_closed-say_all first second [] m = refl
  all_closed-say_all first second (msg ∷ msgs) m =
      all_closed-say_all first second msgs _
      ∙ all_closed-say_goodbye (some second) msg _
      ∙ all_closed-say_goodbye (some first) msg m

  after_meeting-IsOver :
      (script : Script A) (request : CreateFarkleRequest) (first second : ℕ)
      (goodbye : List Message) (status : Status) (m : WebSocketManager A Message)
      → m.all_closed ≡ false
      → IsOver request.game_id (after_meeting script request first second goodbye status m)
  unfolding after_meeting
  after_meeting-IsOver script request first second goodbye meeting m up = tt
  after_meeting-IsOver script request first second goodbye Meeting.crashed m up = tt
  after_meeting-IsOver script request first second goodbye (Meeting.returned err) m up =
      closed-IsOver request.game_id err (say_all first second goodbye m) _ refl
        (all_closed-say_all first second goodbye m ∙ up)
  after_meeting-IsOver script request first second goodbye (started p q) m up =
      after_play-IsOver request.game_id
        (play script.turns script.start
          (new_farkle_game p q request script.wakes script.wakes' script.roller script.clock))
        m up

  after_opening-IsOver :
      (wrap : Option String → String → Option String) (script : Script A)
      (request : CreateFarkleRequest) (o : Opening A)
      → ((m : WebSocketManager A Message)
          → m.all_closed ≡ false
          → (script.others m).all_closed ≡ false)
      → IsOpening request o
      → IsOver request.game_id (after_opening wrap script request o)
  unfolding after_opening closed
  after_opening-IsOver wrap script request (turned_away err none) keeps h = h
  after_opening-IsOver wrap script request (turned_away err (some m)) keeps h = h
  after_opening-IsOver wrap script request (still_waits m) keeps h = tt
  after_opening-IsOver wrap script request (opened first second player response m) keeps
        (_, _, _, up) =
      let l =
        run_lobby wrap request.player.user_id player.user_id script.moves
          (gather request.player player script.ids script.ids') in
      after_meeting-IsOver script request first second l.goodbye l.status (script.others m)
        (keeps m up)

  -- The whole life of a lobby: however it ends, because no one joins or can be told, because a player
  -- leaves or does not get ready, or behind a game that was won or broken off, its game is closed without
  -- a panic and the manager has it no more. This needs a sound manager that is not closed, before the
  -- lobby and by what the rest of the server does meanwhile, and nothing is said of a lobby in which a
  -- goroutine panics.
  pub live-IsOver :
      (wrap : Option String → String → Option String) (jwt : Jwt) (config : Config)
      (script : Script A) (request : CreateFarkleRequest) (m : WebSocketManager A Message)
      → IsSound m
      → m.all_closed ≡ false
      → ((m' : WebSocketManager A Message)
          → m'.all_closed ≡ false
          → (script.others m').all_closed ≡ false)
      → IsOver request.game_id (live wrap jwt config script request m)
  unfolding live
  live-IsOver wrap jwt config script request m sound up keeps =
      after_opening-IsOver wrap script request (open_lobby jwt config request script.joins m) keeps
        (open_lobby-IsOpening jwt config request script.joins m sound up)
