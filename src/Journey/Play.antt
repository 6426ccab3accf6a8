-- ===== src/Journey/Play.antt =====
-- From the requests to the game: what game-master/main.go lets through, the lobby
-- (game/farkle/internal/lobby/loop.go) gets ready, and the game is played
-- (game/farkle/internal/logic/game.go).
use dice_server.Prelude.{ℕ, ◌≡◌, String, Bool, true, Option, some, List, arith}
use dice_server.Connect.{Uuid, LobbyPlayer, LobbyResponse, CreateFarkleRequest, JoinFarkleRequest}
use dice_server.Master.{
  CreateRequestBody, JoinRequestBody, create_farkle_handler, join_farkle_handler,
}
use dice_server.Master.Guards.{create_farkle_handler-IsPlayable, join_farkle_handler-dice}
use dice_server.Farkle.Dice.{Roller}
use dice_server.Farkle.Player.{Wake}
use dice_server.Farkle.Lobby.Meeting.{started, Move, gather, run_lobby}
use dice_server.Farkle.Lobby.Meeting.Fair.{run_lobby-IsSeated}
use dice_server.Farkle.Game.Match.{new_farkle_game, play}
use dice_server.Farkle.Game.Winner.{GameOutcome}
use dice_server.Farkle.Game.Played.{new_farkle_game-IsLive, play-outcome}

-- From requests to a fair end: a game between two players whose requests the game master has published,
-- and whom a lobby has brought together in whatever order its goroutines moved, comes out as a game
-- should, over any number of turns, whoever begins and whatever is rolled, sent and timed. A winner has
-- reached the target that was asked for while the other has not, or has seen the other time out twice;
-- a game that is broken off or goes on has no player at the target; and it crashes only if some dice
-- touch has no data.
pub requested_game_is_fair :
    (wrap : Option String → String → Option String) (decodes published published' : Bool)
    (answers answers' : List (Option LobbyResponse)) (fresh fresh' ids ids' : ℕ → Uuid)
    (body : CreateRequestBody) (body' : JoinRequestBody) (request : CreateFarkleRequest)
    (join : JoinFarkleRequest) (ms : List Move) (a b : LobbyPlayer) (wakes wakes' : List Wake)
    (roller : Roller) (clock : ℕ → ℕ) (turns start : ℕ)
    → (create_farkle_handler decodes published answers fresh body).1 ≡ some request
    → (join_farkle_handler true true published' answers' fresh' body').1 ≡ some join
    → (run_lobby wrap request.player.user_id join.player.user_id ms
        (gather request.player join.player ids ids')).status
      ≡ started a b
    → GameOutcome
        (new_farkle_game a b request wakes wakes' roller clock)
        (play turns start (new_farkle_game a b request wakes wakes' roller clock))
requested_game_is_fair wrap decodes published published' answers answers' fresh fresh' ids ids' body
      body' request join ms a b wakes wakes' roller clock turns start created joined met =
    let playable =
      create_farkle_handler-IsPlayable decodes published answers fresh body request created in
    let dice = join_farkle_handler-dice published' answers' fresh' body' join joined in
    let (_, _, seated, seated') =
      run_lobby-IsSeated wrap request.player join.player a b ids ids' ms
        (playable.six, playable.known) dice met in
    play-outcome turns start (new_farkle_game a b request wakes wakes' roller clock) (
      new_farkle_game-IsLive a b request wakes wakes' roller clock (omega (arith, playable.low))
        seated.six seated'.six)
