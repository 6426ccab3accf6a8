-- ===== src/Farkle/Lobby/Life/Sturdy.antt =====
-- What can make a lobby panic (game/farkle/internal/lobby/loop.go and internal/logic/game.go).
use mathlib.Core.Path.{subst}
use dice_server.Prelude.{
  ℕ, ◌<◌, ◌≡◌, ◌≢◌, refl, String, Bool, true, false, Option, none, some, List, [], ◌∷◌, length, All,
}
use dice_server.Connect.{Uuid, LobbyPlayer, LobbyResponse, CreateFarkleRequest}
use dice_server.Auth.Signing.{Jwt}
use dice_server.Client.Manager.{WebSocketManager, get_client}
use dice_server.Farkle.Message.{Message, player_joining}
use dice_server.Farkle.Entry.{Config}
use dice_server.Farkle.Dice.{Roller}
use dice_server.Farkle.Player.{Wake}
use dice_server.Farkle.Game.Selection.{HasNoNil}
use dice_server.Farkle.Game.Match.{
  Game, Outcome, finished, aborted, pending, crashed, unfinished, new_farkle_game, play,
}
use dice_server.Farkle.Game.Winner.{IsClean, GameOutcome}
use dice_server.Farkle.Game.Played.{new_farkle_game-IsLive, play-outcome}
use dice_server.Farkle.Lobby.Joining.{
  JoinEvent, attempt, out_of_time, out_of_messages, Joining, joined, failed, waits, token_for,
  after_sign, on_join, wait_for_other_player,
}
use dice_server.Farkle.Lobby.Opening.{
  Opening, opened, turned_away, still_waits, send_to, after_announcing, after_waiting, open_lobby,
}
use dice_server.Farkle.Lobby.Ready.Dice.{IsKnown}
use dice_server.Farkle.Lobby.Meeting
use dice_server.Farkle.Lobby.Meeting.{Status, meeting, started, gather, run_lobby}
use dice_server.Farkle.Lobby.Meeting.Fair.{run_lobby-IsSeated}
use dice_server.Farkle.Lobby.Meeting.Calm.{MoveHasData, IsCalm, run_lobby-IsCalm}
use dice_server.Farkle.Lobby.Life.{
  Script, End, returned, close_panicked, still_runs, panicked, closed, after_play, after_meeting,
  after_opening, live,
}

-- Six dice of known variants, as the game master gives them.
abbrev pub HasDice : LobbyPlayer → Type 0
HasDice p = (length p.dice_set ≡ 6) × All IsKnown p.dice_set

abbrev pub BringsDice : JoinEvent → Type 0
BringsDice (attempt none now published) = Unit
BringsDice (attempt (some request) now published) = HasDice request.player
BringsDice out_of_time = Unit
BringsDice out_of_messages = Unit

module _ {A : Type 0} where
  abbrev JoinedHasDice : Joining A Message → Type 0
  JoinedHasDice (joined client player response m) = HasDice player
  JoinedHasDice (failed err m) = Unit
  JoinedHasDice (waits m) = Unit

  abbrev OpenedHasDice : Opening A → Type 0
  OpenedHasDice (opened first second player response m) = HasDice player
  OpenedHasDice (turned_away err m) = Unit
  OpenedHasDice (still_waits m) = Unit

  after_announcing-OpenedHasDice :
      (g : Uuid) (first second : ℕ) (player : LobbyPlayer) (response : LobbyResponse)
      (r : Bool × WebSocketManager A Message)
      → HasDice player
      → OpenedHasDice (after_announcing g first second player response r)
  unfolding after_announcing
  after_announcing-OpenedHasDice g first second player response (true, m) dice = dice
  after_announcing-OpenedHasDice g first second player response (false, m) dice = tt

  after_waiting-OpenedHasDice :
      (g : Uuid) (first : ℕ) (j : Joining A Message)
      → JoinedHasDice j
      → OpenedHasDice (after_waiting g first j)
  unfolding after_waiting
  after_waiting-OpenedHasDice g first (joined second player response m) dice =
      after_announcing-OpenedHasDice g first second player response
        (send_to first (player_joining player) m) dice
  after_waiting-OpenedHasDice g first (failed err m) dice = tt
  after_waiting-OpenedHasDice g first (waits m) dice = tt

module _ {A : Type 0} (jwt : Jwt) (config : Config) (g : Uuid) where
  after_sign-JoinedHasDice :
      (player : LobbyPlayer) (published : Bool) (got : ℕ × WebSocketManager A Message)
      (signed : Option String)
      → HasDice player
      → JoinedHasDice (after_sign jwt config g player published got signed)
  unfolding after_sign
  after_sign-JoinedHasDice player published (client, m) none dice = tt
  after_sign-JoinedHasDice player true (client, m) (some auth) dice = dice
  after_sign-JoinedHasDice player false (client, m) (some auth) dice = tt

  wait_for_other_player-JoinedHasDice :
      (es : List JoinEvent) (m : WebSocketManager A Message)
      → All BringsDice es
      → JoinedHasDice (wait_for_other_player jwt config g es m)
  unfolding wait_for_other_player on_join
  wait_for_other_player-JoinedHasDice [] m dice = tt
  wait_for_other_player-JoinedHasDice (out_of_time ∷ es) m dice = tt
  wait_for_other_player-JoinedHasDice (out_of_messages ∷ es) m dice = tt
  wait_for_other_player-JoinedHasDice (attempt none now published ∷ es) m dice =
      wait_for_other_player-JoinedHasDice es m dice.1
  wait_for_other_player-JoinedHasDice (attempt (some request) now published ∷ es) m dice =
      after_sign-JoinedHasDice request.player published (get_client g request.player.user_id m)
        (token_for jwt config request.player.user_id g now) dice.0

new_farkle_game-IsClean :
    (a b : LobbyPlayer) (request : CreateFarkleRequest) (wakes wakes' : List Wake) (roller : Roller)
    (clock : ℕ → ℕ)
    → All HasNoNil wakes
    → All HasNoNil wakes'
    → IsClean (new_farkle_game a b request wakes wakes' roller clock)
unfolding new_farkle_game
new_farkle_game-IsClean a b request wakes wakes' roller clock h h' = (h, (h', tt))

module _ {A : Type 0} where
  -- What a lobby is asked for and given: playable requests, and no message without the data it needs.
  pub record IsWellFed (request : CreateFarkleRequest) (script : Script A) : Type 0 where
    pub some_target : 0 < request.target
    pub dice : HasDice request.player
    pub joins_dice : All BringsDice script.joins
    pub moves_data : All MoveHasData script.moves
    pub wakes_data : All HasNoNil script.wakes
    pub wakes'_data : All HasNoNil script.wakes'

  abbrev IsSturdy : End A → Type 0
  IsSturdy (returned err m) = Unit
  IsSturdy (close_panicked err) = Unit
  IsSturdy (still_runs m) = Unit
  IsSturdy panicked = ⊥

  closed-IsSturdy :
      (err : Option String) (o : Option (WebSocketManager A Message)) → IsSturdy (closed err o)
  unfolding closed
  closed-IsSturdy err none = tt
  closed-IsSturdy err (some m) = tt

  after_play-IsSturdy :
      (g : Uuid) (game : Game) (o : Outcome) (m : WebSocketManager A Message)
      → IsClean game
      → GameOutcome game o
      → IsSturdy (after_play g o m)
  unfolding after_play
  after_play-IsSturdy g game (finished winner g') m clean h = closed-IsSturdy none _
  after_play-IsSturdy g game (aborted err g') m clean h = closed-IsSturdy none _
  after_play-IsSturdy g game (pending g') m clean h = tt
  after_play-IsSturdy g game (unfinished i g') m clean h = tt
  after_play-IsSturdy g game crashed m clean h = h clean

  after_meeting-IsSturdy :
      (script : Script A) (request : CreateFarkleRequest) (first second : ℕ)
      (goodbye : List Message) (status : Status) (m : WebSocketManager A Message)
      → IsWellFed request script
      → IsCalm status
      → ((a b : LobbyPlayer)
          → status ≡ started a b
          → (length a.dice_set ≡ 6) × (length b.dice_set ≡ 6))
      → IsSturdy (after_meeting script request first second goodbye status m)
  unfolding after_meeting
  after_meeting-IsSturdy script request first second goodbye meeting m fed calm seated = tt
  after_meeting-IsSturdy script request first second goodbye Meeting.crashed m fed calm seated =
      calm
  after_meeting-IsSturdy script request first second goodbye (Meeting.returned err) m fed calm
        seated =
      closed-IsSturdy err _
  after_meeting-IsSturdy script request first second goodbye (started a b) m fed calm seated =
      let (six, six') = seated a b refl in
      let game =
        new_farkle_game a b request script.wakes script.wakes' script.roller script.clock in
      after_play-IsSturdy request.game_id game (play script.turns script.start game) m
        (new_farkle_game-IsClean a b request script.wakes script.wakes' script.roller script.clock
          fed.wakes_data fed.wakes'_data)
        (play-outcome script.turns script.start game (
          new_farkle_game-IsLive a b request script.wakes script.wakes' script.roller script.clock
            fed.some_target six six'))

  after_opening-IsSturdy :
      (wrap : Option String → String → Option String) (script : Script A)
      (request : CreateFarkleRequest) (o : Opening A)
      → IsWellFed request script
      → OpenedHasDice o
      → IsSturdy (after_opening wrap script request o)
  unfolding after_opening
  after_opening-IsSturdy wrap script request (turned_away err m) fed dice =
      closed-IsSturdy (some err) m
  after_opening-IsSturdy wrap script request (still_waits m) fed dice = tt
  after_opening-IsSturdy wrap script request (opened first second player response m) fed dice =
      let l0 = gather request.player player script.ids script.ids' in
      let l = run_lobby wrap request.player.user_id player.user_id script.moves l0 in
      after_meeting-IsSturdy script request first second l.goodbye l.status (script.others m) fed
        (run_lobby-IsCalm wrap request.player.user_id player.user_id script.moves l0 fed.moves_data
          (unfold gather in tt))
        (λ a b e.
          let (_, _, seated, seated') =
            run_lobby-IsSeated wrap request.player player a b script.ids script.ids' script.moves
              fed.dice dice e in
          (seated.six, seated'.six))

  -- A lobby does not panic but by `CloseGame`: with players who have six dice of known variants, a target above
  -- 0, and no dice pick, ready message or dice touch that comes without data, neither the waiting for
  -- the players nor the game panics, whatever else the players send and do, whatever is rolled, and in
  -- whatever order the goroutines move.
  pub live-ne-panicked :
      (wrap : Option String → String → Option String) (jwt : Jwt) (config : Config)
      (script : Script A) (request : CreateFarkleRequest) (m : WebSocketManager A Message)
      → IsWellFed request script
      → live wrap jwt config script request m ≢ panicked
  unfolding live open_lobby
  live-ne-panicked wrap jwt config script request m fed e =
      let g = request.game_id in
      let (first, m') = get_client g request.player.user_id m in
      let sturdy =
        after_opening-IsSturdy wrap script request (open_lobby jwt config request script.joins m)
          fed
          (after_waiting-OpenedHasDice g first (wait_for_other_player jwt config g script.joins m')
            (wait_for_other_player-JoinedHasDice jwt config g script.joins m' fed.joins_dice)) in
      subst IsSturdy e sturdy
