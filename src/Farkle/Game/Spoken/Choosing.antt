-- ===== src/Farkle/Game/Spoken/Choosing.antt =====
-- What the choice of dice sends to a client (game/farkle/internal/logic/game.go, `diceSelection`).
use dice_server.Prelude.{suc, refl, Bool, true, false, not, List, [], ◌∷◌, ◌==◌, str_eq, if_intro}
use dice_server.Farkle.Message.{
  Decoded, decoded, bad_data, nil_pointer, VariantDiceTouch, Incoming, unmarshal_data,
  var_dice_touch, var_score_roll, var_end_turn, dice_touched,
}
use dice_server.Farkle.Player.{Wake, Received, received, failure, blocked, receive}
use dice_server.Farkle.Game.{touch_dice}
use dice_server.Farkle.Game.Table.{
  Table, Step, again, chosen, crash, score_touched, on_dice_touch, on_score_roll, on_end_turn,
  selection_step, Selection, picked, failed, waiting, panicked, after_step, after_receive,
  dice_selection, is_overdue,
}
use dice_server.Farkle.Protocol.{choosing, touched, scored, closing}
use dice_server.Farkle.Game.Spoken.{Place, In, kept, tell_own, answer}

module _ (z : Place) where
  abbrev HeardStep : Step → Type 0
  HeardStep (again extra t) = In z (choosing z.i) t
  HeardStep (chosen true t) = In z (scored z.i) t
  HeardStep (chosen false t) = In z (closing z.i) t
  HeardStep crash = Unit {0}

  score_touched-heard : (t : Table) → In z (choosing z.i) t → HeardStep (score_touched t)
  unfolding score_touched
  score_touched-heard t h =
      let g =
        tell_own z (choosing z.i) (touched z.i) (dice_touched t.player.info.user_id t.player.dice) t
          h refl in
      tell_own z (touched z.i) (choosing z.i) _ _
        (record { heard = g.heard; seat = g.seat; who = g.who; all = g.all }) refl

  on_dice_touch-heard :
      (extra : Bool) (touch : Decoded VariantDiceTouch) (t : Table)
      → In z (choosing z.i) t
      → HeardStep (on_dice_touch extra touch t)
  unfolding on_dice_touch
  on_dice_touch-heard extra nil_pointer t h = tt
  on_dice_touch-heard extra bad_data t h = answer z (choosing z.i) _ t h refl
  on_dice_touch-heard extra (decoded touch) t h =
      let t1 = record t {
        player = record (t.player) { dice = (touch_dice t.player.dice touch).0 };
      } in
      let g = kept z (choosing z.i) t t1 refl refl refl refl h in
      if_intro HeardStep (not (touch_dice t.player.dice touch).1) _ _
        (answer z (choosing z.i) _ t1 g refl) (score_touched-heard t1 g)

  on_score_roll-heard :
      (extra : Bool) (t : Table) → In z (choosing z.i) t → HeardStep (on_score_roll extra t)
  unfolding on_score_roll
  on_score_roll-heard extra t h =
      if_intro HeardStep (t.player.scores.selected == 0) _ _ (answer z (choosing z.i) _ t h refl) (
        if_intro HeardStep extra _ _ (answer z (choosing z.i) _ t h refl)
          (tell_own z (choosing z.i) (scored z.i) _ t h refl))

  on_end_turn-heard :
      (extra : Bool) (t : Table) → In z (choosing z.i) t → HeardStep (on_end_turn extra t)
  unfolding on_end_turn
  on_end_turn-heard extra t h =
      if_intro HeardStep extra _ _ (answer z (choosing z.i) _ t h refl)
        (tell_own z (choosing z.i) (closing z.i) _ t h refl)

  selection_step-heard :
      (extra : Bool) (msg : Incoming) (t : Table)
      → In z (choosing z.i) t
      → HeardStep (selection_step extra msg t)
  unfolding selection_step
  selection_step-heard extra msg t h =
      if_intro HeardStep (str_eq msg.variant var_dice_touch) _ _
        (on_dice_touch-heard extra (unmarshal_data (λ raw. raw.as_dice_touch) msg.raw) t h)
        (if_intro HeardStep (str_eq msg.variant var_score_roll) _ _ (on_score_roll-heard extra t h)
          (if_intro HeardStep (str_eq msg.variant var_end_turn) _ _ (on_end_turn-heard extra t h)
            (answer z (choosing z.i) _ t h refl)))

  abbrev pub HeardSelection : Selection → Type 0
  HeardSelection (picked true t) = In z (scored z.i) t
  HeardSelection (picked false t) = In z (closing z.i) t
  HeardSelection (failed e t) = In z (choosing z.i) t
  HeardSelection (waiting t) = In z (choosing z.i) t
  HeardSelection panicked = Unit {0}

  abbrev IsHeardLoop : (Bool → Table → Selection) → Type 0
  IsHeardLoop loop =
      (extra : Bool) (t : Table) → In z (choosing z.i) t → HeardSelection (loop extra t)

  after_step-heard :
      (loop : Bool → Table → Selection) (s : Step)
      → IsHeardLoop loop
      → HeardStep s
      → HeardSelection (after_step loop s)
  unfolding after_step
  after_step-heard loop (again extra t) l h = l extra t h
  after_step-heard loop (chosen true t) l h = h
  after_step-heard loop (chosen false t) l h = h
  after_step-heard loop crash l h = tt

  after_receive-heard :
      (loop : Bool → Table → Selection) (extra : Bool) (t t1 : Table) (r : Received)
      → IsHeardLoop loop
      → In z (choosing z.i) t
      → In z (choosing z.i) t1
      → HeardSelection (after_receive loop extra t t1 r)
  unfolding after_receive
  after_receive-heard loop extra t t1 blocked l h g = l extra t h
  after_receive-heard loop extra t t1 (failure e) l h g = g
  after_receive-heard loop extra t t1 (received msg) l h g =
      after_step-heard loop (selection_step extra msg t1) l (selection_step-heard extra msg t1 g)

  pub dice_selection-heard :
      (ws : List Wake) (extra : Bool) (t : Table)
      → In z (choosing z.i) t
      → HeardSelection (dice_selection ws extra t)
  unfolding dice_selection
  dice_selection-heard [] extra t h =
      kept z (choosing z.i) t (record t { inbox = [] }) refl refl refl refl h
  dice_selection-heard (w ∷ ws) extra t h =
      let t1 = record t { clock = λ n. t.clock (suc n); inbox = ws } in
      after_receive-heard (dice_selection ws) extra t t1 (receive (is_overdue t) w)
        (dice_selection-heard ws) h (kept z (choosing z.i) t t1 refl refl refl refl h)
