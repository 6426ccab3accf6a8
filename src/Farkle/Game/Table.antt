-- ===== src/Farkle/Game/Table.antt =====
-- game/farkle/internal/logic/game.go: `diceSelection`.
--
-- A `Table` is what a turn works on: the player's part of the shared state, the player's client and
-- the world. `clock` is the stream of the results of `time.Now()`, in nanoseconds; `inbox` what will
-- wake the player's `Receive`, in order; `sent` every `Send` so far, by the client's number. A wake
-- list that is used up leaves the turn waiting.
use dice_server.Prelude.{
  ℕ, suc, ◌*◌, Bool, true, false, not, List, [], ◌∷◌, ◌++◌, map, ltb, ◌==◌, str_eq, if◌then◌else◌,
}
use dice_server.Farkle.Dice.{Roller}
use dice_server.Farkle.Scoring.{count_values, score_counts}
use dice_server.Farkle.State.{PlayerState}
use dice_server.Farkle.Message.{
  Message, dice_touched, update_score, score_roll, end_turn, error, Incoming, Decoded, decoded,
  bad_data, nil_pointer, VariantDiceTouch, unmarshal_data, var_dice_touch, var_score_roll,
  var_end_turn,
}
use dice_server.Farkle.Player.{Error, Wake, Received, received, failure, blocked, receive}
use dice_server.Farkle.Game.{touch_dice}

pub record Table : Type 0 where
  pub player : PlayerState
  pub timeouts : ℕ
  pub has_turn : Bool
  pub client : ℕ
  pub clients : List ℕ
  pub pick_seconds : ℕ
  pub pick_deadline : ℕ
  pub roller : Roller
  pub clock : ℕ → ℕ
  pub inbox : List Wake
  pub sent : List (ℕ × Message)

unfoldable pub broadcast : Message → Table → Table
broadcast msg t = record t { sent = t.sent ++ map (λ c. (c, msg)) t.clients }

-- `playerClient.Send`.
unfoldable pub reply : Message → Table → Table
reply msg t = record t { sent = t.sent ++ (t.client, msg) ∷ [] }

unfoldable pub set_scores : ℕ → ℕ → ℕ → Table → Table
set_scores total turn selected t = record t {
  player = record (t.player) {
    scores = record { total = total; turn = turn; selected = selected };
  };
}

abbrev pub nanoseconds : ℕ
nanoseconds = 1_000_000_000

-- One round of the loop in `diceSelection`, from the message received.
pub data Step : Type 0 where
  again : Bool → Table → Step
  chosen : Bool → Table → Step
  crash : Step

-- The case of `VarDiceTouch` behind its two guards.
unfoldable pub score_touched : Table → Step
unfolding broadcast set_scores
score_touched t =
    let t1 = broadcast (dice_touched t.player.info.user_id t.player.dice) t in
    let (selected, extra) = score_counts (count_values t.player.dice false) in
    let t2 =
      set_scores t.player.scores.total t.player.scores.turn (if extra then 0 else selected) t1 in
    again extra (broadcast (update_score t.player.info.user_id t2.player.scores) t2)

unfoldable pub on_dice_touch : Bool → Decoded VariantDiceTouch → Table → Step
unfolding score_touched reply
on_dice_touch has_extra nil_pointer t = crash
on_dice_touch has_extra bad_data t =
    again has_extra (reply (error "farkle-bad-data" "sent bad data") t)
on_dice_touch has_extra (decoded touch) t =
    let (dice, valid) = touch_dice t.player.dice touch in
    let t1 = record t { player = record (t.player) { dice = dice } } in
    if not valid
    then again has_extra (reply (error "farkle-bad-dice" "touched bad dice") t1)
    else score_touched t1

unfoldable pub on_score_roll : Bool → Table → Step
unfolding reply broadcast
on_score_roll has_extra t =
    if t.player.scores.selected == 0
    then again has_extra (reply (error "farkle-none-selected" "no dice selected") t)
    else if has_extra
    then again has_extra (reply (error "farkle-extra-dice" "extra dice selected") t)
    else chosen true (broadcast (score_roll t.player.info.user_id) t)

unfoldable pub on_end_turn : Bool → Table → Step
unfolding reply broadcast
on_end_turn has_extra t =
    if has_extra
    then again has_extra (reply (error "farkle-extra-dice" "extra dice selected") t)
    else chosen false (broadcast (end_turn t.player.info.user_id) t)

-- The `switch` on the variant.
unfoldable pub selection_step : Bool → Incoming → Table → Step
unfolding reply
selection_step has_extra step t =
    if str_eq step.variant var_dice_touch
    then on_dice_touch has_extra (unmarshal_data (λ raw. raw.as_dice_touch) step.raw) t
    else if str_eq step.variant var_score_roll
    then on_score_roll has_extra t
    else if str_eq step.variant var_end_turn
    then on_end_turn has_extra t
    else again has_extra (reply (error "farkle-unexpected" "unexpected variant") t)

pub data Selection : Type 0 where
  picked : Bool → Table → Selection
  failed : Error → Table → Selection
  waiting : Table → Selection
  panicked : Selection

-- The rest of the loop behind a step; `loop` is the loop.
unfoldable pub after_step : (Bool → Table → Selection) → Step → Selection
after_step loop (again has_extra t) = loop has_extra t
after_step loop (chosen roll_again t) = picked roll_again t
after_step loop crash = panicked

-- `t1` is the table behind the call of `Receive`. A timer that cannot wake the call leaves the loop
-- blocked in the same call.
unfoldable pub after_receive :
    (Bool → Table → Selection) → Bool → Table → Table → Received → Selection
unfolding after_step
after_receive loop has_extra t t1 blocked = loop has_extra t
after_receive loop has_extra t t1 (failure e) = failed e t1
after_receive loop has_extra t t1 (received msg) = after_step loop (selection_step has_extra msg t1)

abbrev pub is_overdue : Table → Bool
is_overdue t = ltb (t.pick_deadline * nanoseconds) (t.clock 0)

-- The loop of `diceSelection`, over what wakes it.
unfoldable pub dice_selection : List Wake → Bool → Table → Selection
unfolding after_receive
dice_selection [] has_extra t = waiting (record t { inbox = [] })
dice_selection (w ∷ ws) has_extra t =
    after_receive (dice_selection ws) has_extra t
      (record t { clock = λ i. t.clock (suc i); inbox = ws }) (receive (is_overdue t) w)
