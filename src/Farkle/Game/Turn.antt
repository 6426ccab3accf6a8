-- ===== src/Farkle/Game/Turn.antt =====
-- game/farkle/internal/logic/game.go: `turnLoop`.
use dice_server.Prelude.{
  ℕ, zero, suc, ◌+◌, ◌*◌, ◌/◌, Bool, true, false, Option, none, some, List, length,
}
use dice_server.Farkle.Dice.{Dice, Roller}
use dice_server.Farkle.Scoring.{count_values, has_busted}
use dice_server.Farkle.Message.{turn_begin, dice_roll, update_score, turn_timeout}
use dice_server.Farkle.Player.{Error, client_closed, recv_timeout}
use dice_server.Farkle.Game.{reset_dice, roll_dice, move_selected_to_unplayable}
use dice_server.Farkle.Game.Table.{
  Table, broadcast, set_scores, nanoseconds, Selection, picked, failed, waiting, panicked,
  dice_selection,
}

-- The rolled dice are kept, the deadline is set, and both are broadcast with whether it is a bust.
unfoldable pub show_roll : List Dice → Roller → Table → Table × Bool
unfolding broadcast
show_roll dice r t =
    let deadline = (t.clock 0 + t.pick_seconds * nanoseconds) / nanoseconds in
    let t1 = record t {
      player = record (t.player) { dice = dice };
      roller = r;
      clock = λ i. t.clock (suc i);
      pick_deadline = deadline;
    } in
    let busted = has_busted (count_values dice true) in
    (broadcast (dice_roll dice busted deadline) t1, busted)

-- `none` where a roll panics.
unfoldable pub roll_phase : Table → Option (Table × Bool)
unfolding show_roll
roll_phase t = elim (roll_dice t.player.dice t.roller) [
  | none ↦ none
  | some (dice, r) ↦ some (show_roll dice r t)
]

unfoldable pub bust : Table → Table
unfolding set_scores broadcast
bust t =
    let t1 = set_scores t.player.scores.total 0 0 t in
    broadcast (update_score t.player.info.user_id t1.player.scores) t1

unfoldable pub time_out : Table → Table
unfolding set_scores broadcast
time_out t =
    let t1 = set_scores t.player.scores.total 0 0 t in
    let t2 = broadcast (turn_timeout t.player.info.user_id) t1 in
    record t2 { timeouts = t2.timeouts + 1 }

-- The selected points are kept for the turn, and their dice put aside.
unfoldable pub keep_selected : Table → Table
unfolding set_scores
keep_selected t =
    let t1 =
      set_scores t.player.scores.total (t.player.scores.turn + t.player.scores.selected) 0 t in
    record t1 { player = record (t1.player) { dice = move_selected_to_unplayable t1.player.dice } }

unfoldable pub bank : Table → Table
unfolding set_scores
bank t =
    set_scores (t.player.scores.total + t.player.scores.turn) t.player.scores.turn
      t.player.scores.selected t

unfoldable pub announce_score : Table → Table
unfolding broadcast
announce_score t = broadcast (update_score t.player.info.user_id t.player.scores) t

pub data Turn : Type 0 where
  ended : Table → Turn
  broken : Error → Table → Turn
  idle : Table → Turn
  fault : Turn
  out_of_fuel : Table → Turn

-- The rest of a round behind the selection; `loop` is the next round.
unfoldable pub after_selection : (Table → Turn) → Selection → Turn
after_selection loop (picked true t) = loop (announce_score (keep_selected t))
after_selection loop (picked false t) = ended (bank (keep_selected t))
after_selection loop (failed recv_timeout t) = ended (time_out t)
after_selection loop (failed client_closed t) = broken client_closed t
after_selection loop (waiting t) = idle t
after_selection loop panicked = fault

unfoldable pub after_roll : (Table → Turn) → Option (Table × Bool) → Turn
unfolding after_selection
after_roll loop none = fault
after_roll loop (some (t, true)) = ended (bust t)
after_roll loop (some (t, false)) = after_selection loop (dice_selection t.inbox false t)

-- The loop of `turnLoop`, a round for each roll.
unfoldable pub turn_rounds : ℕ → Table → Turn
unfolding after_roll
turn_rounds zero t = out_of_fuel t
turn_rounds (suc n) t = after_roll (turn_rounds n) (roll_phase t)

unfoldable pub begin_turn : Table → Table
unfolding broadcast set_scores
begin_turn t =
    let t1 = broadcast (turn_begin t.player.info.user_id) (record t { has_turn = true }) in
    let t2 = set_scores t1.player.scores.total 0 0 t1 in
    record t2 { player = record (t2.player) { dice = reset_dice t2.player.dice } }

-- The deferred `SetTurn(false)`.
unfoldable pub end_of_turn : Turn → Turn
end_of_turn (ended t) = ended (record t { has_turn = false })
end_of_turn (broken e t) = broken e (record t { has_turn = false })
end_of_turn (idle t) = idle t
end_of_turn fault = fault
end_of_turn (out_of_fuel t) = out_of_fuel t

-- A round that goes on uses up a wake, so one round more than there are wakes is enough.
unfoldable pub turn_loop : Table → Turn
unfolding begin_turn turn_rounds end_of_turn
turn_loop t = let t1 = begin_turn t in end_of_turn (turn_rounds (suc (length t1.inbox)) t1)
