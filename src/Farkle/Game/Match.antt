-- ===== src/Farkle/Game/Match.antt =====
-- game/farkle/internal/logic/game.go: `NewFarkleGame`, `gameLoop` and `Play`.
--
-- `game.state.Players[i]`, `game.clients[i]` and `game.timeouts[i]` are together the seat i, with the
-- flag and the wakes of the player's client; `start` is what `rand.Intn` yields.
use dice_server.Prelude.{
  ℕ, zero, suc, ◌+◌, ◌/◌, ◌%◌, Bool, false, Option, none, some, List, [], ◌∷◌, ◌++◌, map, leb,
  if◌then◌else◌, length, get_elem?, set,
}
use dice_server.Connect.{Uuid, LobbyDice, LobbyPlayer, CreateFarkleRequest}
use dice_server.Farkle.Dice.{Dice, Roller, new_dice}
use dice_server.Farkle.State.{PlayerState, GameState}
use dice_server.Farkle.Message.{Message, game_begin, update_score, game_end, error, terminate}
use dice_server.Farkle.Player.{Error, Wake}
use dice_server.Farkle.Game.Table.{Table, nanoseconds}
use dice_server.Farkle.Game.Turn.{Turn, ended, broken, idle, fault, out_of_fuel, turn_loop}

pub record Seat : Type 0 where
  pub player : PlayerState
  pub client : ℕ
  pub timeouts : ℕ
  pub has_turn : Bool
  pub inbox : List Wake

pub record Game : Type 0 where
  pub id : Uuid
  pub target : ℕ
  pub pick_seconds : ℕ
  pub pick_deadline : ℕ
  pub current_player : Uuid
  pub seats : List Seat
  pub roller : Roller
  pub clock : ℕ → ℕ
  pub sent : List (ℕ × Message)

-- `game.state`.
unfoldable pub state_of : Game → GameState
state_of g = record {
  id = g.id;
  target = g.target;
  pick_seconds = g.pick_seconds;
  pick_deadline = g.pick_deadline;
  current_player = g.current_player;
  players = map (λ s. s.player) g.seats;
}

unfoldable pub make_dice : List LobbyDice → List Dice
unfolding new_dice
make_dice [] = []
make_dice (d ∷ ds) = new_dice d.id d.variant ∷ make_dice ds

unfoldable pub make_player : LobbyPlayer → PlayerState
unfolding make_dice
make_player p = record {
  info = p;
  scores = record { total = 0; turn = 0; selected = 0 };
  dice = make_dice p.dice_set;
}

-- The two clients are numbered 0 and 1; their wakes, the random generator and the clock come from
-- outside.
unfoldable pub new_farkle_game :
    LobbyPlayer
    → LobbyPlayer
    → CreateFarkleRequest
    → List Wake
    → List Wake
    → Roller
    → (ℕ → ℕ)
    → Game
unfolding make_player
new_farkle_game first second create wakes wakes' roller clock = record {
  id = create.game_id;
  target = create.target;
  pick_seconds = 60;
  pick_deadline = clock 0 / nanoseconds;
  current_player = first.user_id;
  seats =
      record {
        player = make_player first;
        client = 0;
        timeouts = 0;
        has_turn = false;
        inbox = wakes;
      }
      ∷ record {
        player = make_player second;
        client = 1;
        timeouts = 0;
        has_turn = false;
        inbox = wakes';
      }
      ∷ [];
  roller = roller;
  clock = λ i. clock (suc i);
  sent = [];
}

unfoldable pub broadcast_game : Message → Game → Game
broadcast_game msg g = record g {
  sent = g.sent ++ map (λ c. (c, msg)) (map (λ s. s.client) g.seats);
}

-- What `turnLoop` is given: pointers into the game.
unfoldable pub table_of : Game → Seat → Table
table_of g s = record {
  player = s.player;
  timeouts = s.timeouts;
  has_turn = s.has_turn;
  client = s.client;
  clients = map (λ s'. s'.client) g.seats;
  pick_seconds = g.pick_seconds;
  pick_deadline = g.pick_deadline;
  roller = g.roller;
  clock = g.clock;
  inbox = s.inbox;
  sent = g.sent;
}

-- What the turn wrote through them.
abbrev pub seat_of : Table → Seat
seat_of t = record {
  player = t.player;
  client = t.client;
  timeouts = t.timeouts;
  has_turn = t.has_turn;
  inbox = t.inbox;
}

unfoldable pub put_back : ℕ → Table → Game → Game
put_back i t g = record g {
  pick_deadline = t.pick_deadline;
  seats = set g.seats i (seat_of t);
  roller = t.roller;
  clock = t.clock;
  sent = t.sent;
}

pub data Outcome : Type 0 where
  finished : Uuid → Game → Outcome
  aborted : Error → Game → Outcome
  pending : Game → Outcome
  crashed : Outcome
  unfinished : ℕ → Game → Outcome

unfoldable pub end_with : Option Seat → Game → Outcome
unfolding broadcast_game
end_with none g = crashed
end_with (some s) g =
    finished s.player.info.user_id (broadcast_game (game_end s.player.info.user_id) g)

-- The rest of the body of `gameLoop` behind a turn without an error; `loop` is the next round.
unfoldable pub judge_turn : (ℕ → Game → Outcome) → ℕ → Table → Game → Outcome
unfolding end_with broadcast_game
judge_turn loop i t g =
    if leb 2 t.timeouts
    then end_with (get_elem? g.seats ((i + 1) % length g.seats)) g
    else let g1 = broadcast_game (update_score t.player.info.user_id t.player.scores) g in
      let rest = loop i g1 in
      if leb g.target t.player.scores.total
      then finished t.player.info.user_id (broadcast_game (game_end t.player.info.user_id) g1)
      else rest

unfoldable pub after_turn : (ℕ → Game → Outcome) → ℕ → Game → Turn → Outcome
unfolding judge_turn put_back
after_turn loop i g (ended t) = judge_turn loop i t (put_back i t g)
after_turn loop i g (broken e t) = aborted e (put_back i t g)
after_turn loop i g (idle t) = pending (put_back i t g)
after_turn loop i g fault = crashed
after_turn loop i g (out_of_fuel t) = crashed

unfoldable pub take_turn : (ℕ → Game → Outcome) → ℕ → Game → Option Seat → Outcome
unfolding after_turn table_of
take_turn loop i g none = crashed
take_turn loop i g (some s) =
    let g1 = record g { current_player = s.player.info.user_id } in
    after_turn loop i g1 (turn_loop (table_of g1 s))

-- The loop of `gameLoop` over at most so many turns, from the index of the player before.
unfoldable pub game_loop : ℕ → ℕ → Game → Outcome
unfolding take_turn
game_loop zero i g = unfinished i g
game_loop (suc n) i g =
    let i' = (i + 1) % length g.seats in take_turn (game_loop n) i' g (get_elem? g.seats i')

unfoldable pub close_play : Outcome → Outcome
unfolding broadcast_game
close_play (finished winner g) = finished winner (broadcast_game (terminate "game closed") g)
close_play (aborted e g) = aborted e (
    broadcast_game (terminate "game closed")
      (broadcast_game (error "farkle-server" "server error") g))
close_play (pending g) = pending g
close_play crashed = crashed
close_play (unfinished i g) = unfinished i g

-- `Play`, without the pause and the `CloseGame` at its end, and without setting the handlers that
-- answer a request for the state: what they answer is `state_of`, and to whom is in Farkle.Player.
unfoldable pub play : ℕ → ℕ → Game → Outcome
unfolding close_play broadcast_game state_of
play turns start g =
    close_play
      (game_loop turns (start % length g.seats) (broadcast_game (game_begin (state_of g)) g))
