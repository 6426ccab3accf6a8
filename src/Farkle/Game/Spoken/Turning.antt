-- ===== src/Farkle/Game/Spoken/Turning.antt =====
-- What the rounds of a turn send to a client (game/farkle/internal/logic/game.go, `turnLoop`).
use mathlib.Core.Path.{subst}
use dice_server.Prelude.{
  ℕ, zero, suc, ◌+◌, ◌*◌, ◌/◌, ◌≡◌, refl, sym, ap, ◌∙◌, Bool, true, false, Option, none, some, List,
  if◌then◌else◌, length,
}
use dice_server.Farkle.Dice.{Dice, Roller}
use dice_server.Farkle.Message.{update_score, turn_timeout, turn_begin}
use dice_server.Farkle.Player.{recv_timeout, client_closed}
use dice_server.Farkle.Game.{roll_dice}
use dice_server.Farkle.Game.Table.{
  Table, broadcast, set_scores, nanoseconds, Selection, picked, failed, waiting, panicked,
  dice_selection,
}
use dice_server.Farkle.Game.Turn.{
  show_roll, roll_phase, bust, time_out, keep_selected, bank, announce_score, Turn, ended, broken,
  idle, fault, out_of_fuel, after_selection, after_roll, turn_rounds, begin_turn, end_of_turn,
  turn_loop,
}
use dice_server.Farkle.Protocol.{
  resting, rolling, showing_bust, choosing, scored, closing, next, only_of,
}
use dice_server.Farkle.Game.Spoken.{Place, In, tell, kept, tell_own, only_of_lem}
use dice_server.Farkle.Game.Spoken.Choosing.{HeardSelection, dice_selection-heard}

-- `rollDice` behind the loop that rolls.
abbrev map_show : Table → Option (List Dice × Roller) → Option (Table × Bool)
map_show t o = elim o [ none ↦ none | some (dice, r) ↦ some (show_roll dice r t) ]

module _ (z : Place) where
  abbrev pub HeardTurn : Turn → Type 0
  HeardTurn (ended t) = In z (closing z.i) t
  HeardTurn (broken e t) = In z (choosing z.i) t
  HeardTurn (idle t) = In z (choosing z.i) t
  HeardTurn fault = Unit {0}
  HeardTurn (out_of_fuel t) = In z (rolling z.i) t

  abbrev IsHeardRest : (Table → Turn) → Type 0
  IsHeardRest loop = (t : Table) → In z (rolling z.i) t → HeardTurn (loop t)

  after_selection-heard :
      (loop : Table → Turn) (s : Selection)
      → IsHeardRest loop
      → HeardSelection z s
      → HeardTurn (after_selection loop s)
  unfolding after_selection keep_selected announce_score bank time_out broadcast set_scores
  after_selection-heard loop (picked true t) l h = l (announce_score (keep_selected t)) (
      tell_own z (scored z.i) (rolling z.i) _ (keep_selected t)
        (kept z (scored z.i) t (keep_selected t) refl refl refl refl h) refl)
  after_selection-heard loop (picked false t) l h =
      kept z (closing z.i) t (bank (keep_selected t)) refl refl refl refl h
  after_selection-heard loop (failed recv_timeout t) l h =
      let t1 = record t {
        player = record (t.player) {
          scores = record { total = t.player.scores.total; turn = 0; selected = 0 };
        };
      } in
      kept z (closing z.i) (broadcast (turn_timeout t.player.info.user_id) t1) (time_out t) refl
        refl refl refl
        (tell_own z (choosing z.i) (closing z.i) _ t1
          (kept z (choosing z.i) t t1 refl refl refl refl h) refl)
  after_selection-heard loop (failed client_closed t) l h = h
  after_selection-heard loop (waiting t) l h = h
  after_selection-heard loop panicked l h = tt

  show_roll-heard :
      (dice : List Dice) (r : Roller) (t : Table)
      → In z (rolling z.i) t
      → In z
          (if (show_roll dice r t).1 then showing_bust z.i else choosing z.i)
          (show_roll dice r t).0
  unfolding show_roll
  show_roll-heard dice r t h =
      tell z (rolling z.i) _ _
        (record t {
          player = record (t.player) { dice = dice };
          roller = r;
          clock = λ n. t.clock (suc n);
          pick_deadline = (t.clock 0 + t.pick_seconds * nanoseconds) / nanoseconds;
        })
        (kept z (rolling z.i) t _ refl refl refl refl h) refl

  after_roll-heard :
      (loop : Table → Turn) (t : Table) (busted : Bool)
      → IsHeardRest loop
      → In z (if busted then showing_bust z.i else choosing z.i) t
      → HeardTurn (after_roll loop (some (t, busted)))
  unfolding after_roll bust set_scores
  after_roll-heard loop t true l h =
      let t1 = set_scores t.player.scores.total 0 0 t in
      tell_own z (showing_bust z.i) (closing z.i)
        (update_score t.player.info.user_id t1.player.scores) t1
        (kept z (showing_bust z.i) t t1 refl refl refl refl h) refl
  after_roll-heard loop t false l h =
      after_selection-heard loop (dice_selection t.inbox false t) l
        (dice_selection-heard z t.inbox false t h)

  after_dice-heard :
      (loop : Table → Turn) (t : Table) (o : Option (List Dice × Roller))
      → IsHeardRest loop
      → In z (rolling z.i) t
      → HeardTurn (after_roll loop (map_show t o))
  unfolding after_roll
  after_dice-heard loop t none l h = tt
  after_dice-heard loop t (some (dice, r)) l h =
      after_roll-heard loop (show_roll dice r t).0 (show_roll dice r t).1 l
        (show_roll-heard dice r t h)

  turn_rounds-heard : (n : ℕ) (t : Table) → In z (rolling z.i) t → HeardTurn (turn_rounds n t)
  unfolding turn_rounds roll_phase
  turn_rounds-heard zero t h = h
  turn_rounds-heard (suc n) t h =
      after_dice-heard (turn_rounds n) t (roll_dice t.player.dice t.roller) (turn_rounds-heard n) h

  begin_turn-heard :
      (behind : Bool) (prev : ℕ) (t : Table)
      → next z.player z.count prev ≡ z.i
      → In z (resting behind prev) t
      → In z (rolling z.i) (begin_turn t)
  unfolding begin_turn broadcast set_scores
  begin_turn-heard behind prev t follows h =
      let t1 = record t { has_turn = true } in
      let t2 = broadcast (turn_begin t.player.info.user_id) t1 in
      kept z (rolling z.i) t2 (begin_turn t) refl refl refl refl (
        tell z (resting behind prev) (rolling z.i) _ t1
          (kept z (resting behind prev) t t1 refl refl refl refl h)
          (subst
            (λ j. only_of z.player z.count j t.player.info.user_id (rolling j) ≡ some (rolling z.i))
            (sym follows)
            (only_of_lem z.player z.count z.i t.player.info.user_id (rolling z.i)
              (ap (λ x. x.user_id) h.who ∙ z.named))))

  end_of_turn-heard : (o : Turn) → HeardTurn o → HeardTurn (end_of_turn o)
  unfolding end_of_turn
  end_of_turn-heard (ended t) h = kept z (closing z.i) t _ refl refl refl refl h
  end_of_turn-heard (broken e t) h = kept z (choosing z.i) t _ refl refl refl refl h
  end_of_turn-heard (idle t) h = h
  end_of_turn-heard fault h = tt
  end_of_turn-heard (out_of_fuel t) h = h

  pub turn_loop-heard :
      (behind : Bool) (prev : ℕ) (t : Table)
      → next z.player z.count prev ≡ z.i
      → In z (resting behind prev) t
      → HeardTurn (turn_loop t)
  unfolding turn_loop
  turn_loop-heard behind prev t follows h = end_of_turn-heard _ (
      turn_rounds-heard (suc (length (begin_turn t).inbox)) (begin_turn t)
        (begin_turn-heard behind prev t follows h))
