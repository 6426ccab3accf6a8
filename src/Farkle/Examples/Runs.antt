-- ===== src/Farkle/Examples/Runs.antt =====
-- Turns and games: logic/game.go at concrete inputs.
use dice_server.Prelude.{
  ℕ, ◌≡◌, refl, true, false, Option, none, some, List, [], ◌∷◌, String, arith,
}
use dice_server.Connect.{LobbyDice, LobbyPlayer, CreateFarkleRequest}
use dice_server.Farkle.Dice.{Roller, roll, new_dice, roll_weighted_dice}
use dice_server.Farkle.Scoring.{
  count_values, score_counts, has_busted, count_from, count_die, increment, score_entries,
  score_entry, dice_count_multiplier, has_full_straight, has_upper_straight, has_lower_straight,
  has_single, has_three_of_kind,
}
use dice_server.Farkle.Message.{Incoming}
use dice_server.Farkle.Player.{Wake, delivered, closing, timer, receive}
use dice_server.Farkle.Game.{
  has_playable, roll_dice, roll_each, touch_dice, move_selected_to_unplayable, reset_dice,
}
use dice_server.Farkle.Game.Table.{
  Table, selection_step, on_dice_touch, on_score_roll, on_end_turn, dice_selection,
}
use dice_server.Farkle.Game.Turn.{turn_loop, roll_phase, announce_score, keep_selected, bank}
use dice_server.Farkle.Game.Selection.{IsConsistent, IsGoodSelection, dice_selection-good}
use dice_server.Farkle.Game.Hazards.{LateEnd, overdue_never_times_out}
use dice_server.Farkle.Game.Match.{Game, Outcome, finished, game_loop, new_farkle_game, play}
use dice_server.Farkle.Game.Heard.{FollowsProtocol}
use dice_server.Farkle.Game.Conversed.{id_of, play-FollowsProtocol}
use dice_server.Farkle.Protocol.{Phase, before, closed, hear}
use dice_server.Farkle.Game.Winner.{IsLive, GameOutcome, game_loop-outcome}

abbrev lobby_dice : ℕ → LobbyDice
lobby_dice i = record { id = i; variant = "regular" }

abbrev alice : LobbyPlayer
alice = record {
  user_id = 11;
  username = "alice";
  dice_set = lobby_dice 1 ∷ lobby_dice 2 ∷ lobby_dice 3 ∷ [];
}

abbrev bob : LobbyPlayer
bob = record {
  user_id = 22;
  username = "bob";
  dice_set = lobby_dice 4 ∷ lobby_dice 5 ∷ lobby_dice 6 ∷ [];
}

abbrev create : CreateFarkleRequest
create = record { game_id = 7; target = 150; player = alice }

abbrev touch : ℕ → Incoming
touch i = record {
  variant = "farkle-dice-touch";
  raw = some (record {
    as_dice_touch = some (record { dice_id = i; selected = true });
    as_dice_pick = none;
    as_player_ready = none;
  });
}

abbrev bare : String → Incoming
bare v = record { variant = v; raw = none }

-- Bob, who begins, scores a 1, rolls the other two dice, scores another and ends his turn.
abbrev wakes_of_bob : List Wake
wakes_of_bob =
    delivered (touch 4)
    ∷ delivered (bare "farkle-score-roll")
    ∷ delivered (touch 5)
    ∷ delivered (bare "farkle-end-turn")
    ∷ []

-- Every dice shows a 1, and the clock stands still.
abbrev all_ones : Roller
all_ones i = 0

abbrev still : ℕ → ℕ
still i = 0

abbrev demo : Game
demo = new_farkle_game alice bob create [] wakes_of_bob all_ones still

demo-IsLive : IsLive demo
unfolding new_farkle_game
demo-IsLive = omega arith

game_loop-outcome_example : GameOutcome demo (game_loop 2 0 demo)
game_loop-outcome_example = game_loop-outcome 2 0 demo demo-IsLive

abbrev winner_of : Outcome → ℕ
winner_of (finished w g) = w
winner_of r = 0

demo_winner : winner_of (game_loop 2 0 demo) ≡ 22
unfolding new_farkle_game game_loop turn_loop roll_dice roll_each roll roll_weighted_dice
    dice_selection reset_dice touch_dice move_selected_to_unplayable receive selection_step
    has_playable has_busted has_single has_three_of_kind count_values count_from count_die increment
    score_counts score_entries score_entry dice_count_multiplier has_full_straight
    has_upper_straight has_lower_straight roll_phase on_dice_touch on_score_roll announce_score
    keep_selected on_end_turn bank
demo_winner = refl

play-FollowsProtocol_example : FollowsProtocol (id_of alice bob) 2 0 1 (play 2 0 demo)
play-FollowsProtocol_example =
    play-FollowsProtocol alice bob create [] wakes_of_bob all_ones still 2 0 1 (omega arith)

-- Of the messages of that game each stands where the protocol wants it, for both clients.
abbrev heard_of : ℕ → Outcome → Option Phase
heard_of client (finished w g) = hear (id_of alice bob) 2 client g.sent (some (before 0))
heard_of client o = none

demo_heard : heard_of 0 (play 2 0 demo) ≡ some (closed (some 22))
unfolding new_farkle_game game_loop turn_loop roll_dice roll_each roll roll_weighted_dice
    dice_selection reset_dice touch_dice move_selected_to_unplayable receive selection_step
    has_playable has_busted has_single has_three_of_kind count_values count_from count_die increment
    score_counts score_entries score_entry dice_count_multiplier has_full_straight
    has_upper_straight has_lower_straight roll_phase on_dice_touch on_score_roll announce_score
    keep_selected on_end_turn bank play
demo_heard = refl

abbrev demo_table : Table
demo_table = record {
  player = record {
    info = bob;
    scores = record { total = 0; turn = 0; selected = 0 };
    dice = new_dice 4 "regular" ∷ new_dice 5 "regular" ∷ [];
  };
  timeouts = 0;
  has_turn = false;
  client = 1;
  clients = 0 ∷ 1 ∷ [];
  pick_seconds = 60;
  pick_deadline = 60;
  roller = all_ones;
  clock = still;
  inbox = wakes_of_bob;
  sent = [];
}

demo_table-IsConsistent : IsConsistent false demo_table
unfolding new_dice count_values count_from count_die score_counts score_entries has_full_straight
    has_upper_straight has_lower_straight
demo_table-IsConsistent = record {
  faces = omega arith;
  six = omega arith;
  stray = refl;
  score = refl;
}

dice_selection-good_example :
    IsGoodSelection demo_table wakes_of_bob (dice_selection wakes_of_bob false demo_table)
dice_selection-good_example =
    dice_selection-good wakes_of_bob false demo_table demo_table-IsConsistent

abbrev late_table : Table
late_table = record demo_table { clock = λ i. 61_000_000_000 }

overdue_never_times_out_example :
    LateEnd (timer ∷ closing ∷ []) (dice_selection (timer ∷ closing ∷ []) false late_table)
    × (dice_selection (timer ∷ timer ∷ closing ∷ []) false late_table
        ≡ dice_selection (timer ∷ closing ∷ []) false late_table)
overdue_never_times_out_example =
    overdue_never_times_out (timer ∷ closing ∷ []) false late_table (λ i. omega arith)
