-- ===== src/Farkle/Game/Played.antt =====
-- How a new game comes out (game/farkle/internal/logic/game.go, `NewFarkleGame` and `Play`).
use dice_server.Prelude.{ℕ, suc, ◌<◌, ◌≡◌, refl, false, List, [], ◌∷◌, length, ap, arith}
use dice_server.Connect.{LobbyDice, LobbyPlayer, CreateFarkleRequest}
use dice_server.Farkle.Dice.{Roller, new_dice}
use dice_server.Farkle.Player.{Wake}
use dice_server.Farkle.Message.{game_begin}
use dice_server.Farkle.Scoring.Counting.{HasFaces}
use dice_server.Farkle.Game.Match.{
  Game, Outcome, finished, aborted, pending, crashed, unfinished, make_dice, make_player,
  new_farkle_game, broadcast_game, state_of, close_play, play,
}
use dice_server.Farkle.Game.Winner.{
  IsPlaying, IsLive, GameOutcome, outcome_weaken, game_loop-outcome,
}

length-make_dice : (ds : List LobbyDice) → length (make_dice ds) ≡ length ds
unfolding make_dice
length-make_dice [] = refl
length-make_dice (d ∷ ds) = ap suc (length-make_dice ds)

make_dice-HasFaces : (ds : List LobbyDice) → HasFaces (make_dice ds)
unfolding make_dice new_dice
make_dice-HasFaces [] = tt
make_dice-HasFaces (d ∷ ds) = ((omega arith, omega arith), make_dice-HasFaces ds)

new_seat-IsPlaying :
    (target client : ℕ) (p : LobbyPlayer) (inbox : List Wake)
    → 0 < target
    → length p.dice_set ≡ 6
    → IsPlaying target (record {
      player = make_player p;
      client = client;
      timeouts = 0;
      has_turn = false;
      inbox = inbox;
    })
unfolding make_player
new_seat-IsPlaying target client p inbox some_target six = record {
  faces = make_dice-HasFaces p.dice_set;
  six = omega (arith, length-make_dice p.dice_set, six);
  short = some_target;
  in_time = omega arith;
}

pub new_farkle_game-IsLive :
    (a b : LobbyPlayer) (create : CreateFarkleRequest) (wakes wakes' : List Wake) (roller : Roller)
    (clock : ℕ → ℕ)
    → 0 < create.target
    → length a.dice_set ≡ 6
    → length b.dice_set ≡ 6
    → IsLive (new_farkle_game a b create wakes wakes' roller clock)
unfolding new_farkle_game
new_farkle_game-IsLive a b create wakes wakes' roller clock some_target six six' = record {
  two = refl;
  playing = (
    new_seat-IsPlaying create.target 0 a wakes some_target six,
    (new_seat-IsPlaying create.target 1 b wakes' some_target six', tt),
  );
}

close_play-outcome : (g : Game) (o : Outcome) → GameOutcome g o → GameOutcome g (close_play o)
unfolding close_play broadcast_game
close_play-outcome g (finished w g') h = h
close_play-outcome g (aborted e g') h = h
close_play-outcome g (pending g') h = h
close_play-outcome g crashed h = h
close_play-outcome g (unfinished i g') h = record { two = h.two; playing = h.playing }

pub play-outcome : (turns start : ℕ) (g : Game) → IsLive g → GameOutcome g (play turns start g)
unfolding play broadcast_game
play-outcome turns start g live =
    let g1 = broadcast_game (game_begin (state_of g)) g in
    close_play-outcome g _ (
      outcome_weaken g g1 _ refl (λ c. c)
        (game_loop-outcome turns _ g1 (record { two = live.two; playing = live.playing })))
