-- ===== src/Farkle/Game/Hazards.antt =====
-- What a player's messages can do to a selection (game/farkle/internal/logic/game.go,
-- `diceSelection`; the nil pointer is in `UnmarshalData` of game/common/client/message.go).
use text.Mathlib.TextEquality.{eq_iff}
use dice_server.Prelude.{
  ℕ, suc, ◌*◌, ◌<◌, ◌≡◌, ◌≢◌, refl, Bool, true, false, List, [], ◌∷◌, str_eq, lt→ltb, if_intro, All,
  arith,
}
use dice_server.Farkle.Message.{
  error, Incoming, Decoded, decoded, bad_data, nil_pointer, VariantDiceTouch, unmarshal_data,
  var_dice_touch, var_score_roll,
}
use dice_server.Farkle.Player.{Wake, closing, delivered, timer, receive, client_closed}
use dice_server.Farkle.Game.Table.{
  Table, Step, again, chosen, crash, reply, on_dice_touch, on_score_roll, on_end_turn,
  selection_step, Selection, picked, failed, waiting, panicked, after_step, after_receive,
  dice_selection, is_overdue, nanoseconds,
}
use dice_server.Farkle.Game.Selection.{IsConsistent, IsNilTouch, HasNoNil}

-- A dice touch with no data, whoever plays and whatever follows, is a nil pointer dereference.
pub nil_touch_panics :
    (msg : Incoming) (ws : List Wake) (extra : Bool) (t : Table)
    → IsNilTouch msg
    → dice_selection (delivered msg ∷ ws) extra t ≡ panicked
unfolding dice_selection receive selection_step on_dice_touch
nil_touch_panics msg ws extra t (variant, raw) = simp (variant, raw)

-- The extra-dice error of a roll request is never sent: with extra dice selected the selected score
-- is 0, and the player is told that no dice is selected.
pub score_roll_with_extra :
    (msg : Incoming) (t : Table)
    → msg.variant ≡ var_score_roll
    → IsConsistent true t
    → selection_step true msg t
      ≡ again true (reply (error "farkle-none-selected" "no dice selected") t)
unfolding selection_step on_score_roll
score_roll_with_extra msg t variant c = simp (variant, c.score)

-- The part of a table that says whether the deadline has passed.
abbrev SameTime : Table → Step → Type 0
SameTime t (again extra u) = (u.pick_deadline ≡ t.pick_deadline) × (u.clock ≡ t.clock)
SameTime t (chosen roll_again u) = Unit {0}
SameTime t crash = Unit {0}

on_dice_touch-SameTime :
    (extra : Bool) (touch : Decoded VariantDiceTouch) (t : Table)
    → SameTime t (on_dice_touch extra touch t)
unfolding on_dice_touch
on_dice_touch-SameTime extra nil_pointer t = tt
on_dice_touch-SameTime extra bad_data t = (refl, refl)
on_dice_touch-SameTime extra (decoded touch) t = ground arith

selection_step-SameTime :
    (extra : Bool) (msg : Incoming) (t : Table) → SameTime t (selection_step extra msg t)
unfolding selection_step
selection_step-SameTime extra msg t =
    if_intro (SameTime t) (str_eq msg.variant var_dice_touch) _ _
      (on_dice_touch-SameTime extra (unmarshal_data (λ raw. raw.as_dice_touch) msg.raw) t)
      (unfold on_score_roll on_end_turn in ground arith)

abbrev IsPastDeadline : Table → Type 0
IsPastDeadline t = (i : ℕ) → t.pick_deadline * nanoseconds < t.clock i

abbrev has_closing : List Wake → Bool
has_closing [] = false
has_closing (closing ∷ ws) = true
has_closing (delivered msg ∷ ws) = has_closing ws
has_closing (timer ∷ ws) = has_closing ws

-- The selection fails only because the client is closed.
abbrev pub LateEnd : List Wake → Selection → Type 0
LateEnd ws (picked roll_again t) = Unit {0}
LateEnd ws (failed e t) = (e ≡ client_closed) × (has_closing ws ≡ true)
LateEnd ws (waiting t) = Unit {0}
LateEnd ws panicked = Unit {0}

abbrev EndsLate : List Wake → (Bool → Table → Selection) → Type 0
EndsLate ws loop = (extra : Bool) (t : Table) → IsPastDeadline t → LateEnd ws (loop extra t)

LateEnd-cons : (w : Wake) (ws : List Wake) (s : Selection) → LateEnd ws s → LateEnd (w ∷ ws) s
LateEnd-cons w ws (picked roll_again t) h = tt
LateEnd-cons closing ws (failed e t) h = (h.0, refl)
LateEnd-cons (delivered msg) ws (failed e t) h = h
LateEnd-cons timer ws (failed e t) h = h
LateEnd-cons w ws (waiting t) h = tt
LateEnd-cons w ws panicked h = tt

after_step-late :
    (ws : List Wake) (loop : Bool → Table → Selection)
    → EndsLate ws loop
    → (t : Table) (s : Step) → IsPastDeadline t
    → SameTime t s
    → LateEnd ws (after_step loop s)
unfolding after_step
after_step-late ws loop l t (again extra v) past (same_deadline, same_clock) =
    l extra v (λ i. rw (same_deadline, same_clock) (past i))
after_step-late ws loop l t (chosen r v) past same = tt
after_step-late ws loop l t crash past same = tt

after_receive-late :
    (ws : List Wake) (loop : Bool → Table → Selection)
    → EndsLate ws loop
    → (extra : Bool) (t t1 : Table) (w : Wake) → IsPastDeadline t
    → IsPastDeadline t1
    → LateEnd (w ∷ ws) (after_receive loop extra t t1 (receive true w))
unfolding after_receive receive
after_receive-late ws loop l extra t t1 closing past past1 = (refl, refl)
after_receive-late ws loop l extra t t1 timer past past1 =
    LateEnd-cons timer ws (loop extra t) (l extra t past)
after_receive-late ws loop l extra t t1 (delivered msg) past past1 =
    LateEnd-cons (delivered msg) ws (after_step loop (selection_step extra msg t1)) (
      after_step-late ws loop l t1 (selection_step extra msg t1) past1
        (selection_step-SameTime extra msg t1))

dice_selection-late : (ws : List Wake) → EndsLate ws (dice_selection ws)
unfolding dice_selection
dice_selection-late [] extra t past = tt
dice_selection-late (w ∷ ws) extra t past = rw (lt→ltb _ _ (past 0)) (
    after_receive-late ws (dice_selection ws) (dice_selection-late ws) extra t
      (record t { clock = λ i. t.clock (suc i); inbox = ws }) w past (λ i. past (suc i)))

-- Once the deadline has passed, and as long as the clock does not go back before it, no timer ends the
-- turn any more: the selection fails only if the client is closed at some time, and a timer changes
-- nothing, the call goes on waiting for what comes next.
pub overdue_never_times_out :
    (ws : List Wake) (extra : Bool) (t : Table)
    → IsPastDeadline t
    → LateEnd ws (dice_selection ws extra t)
      × (dice_selection (timer ∷ ws) extra t ≡ dice_selection ws extra t)
overdue_never_times_out ws extra t past = (
  dice_selection-late ws extra t past,
  (unfold dice_selection in
      unfold after_receive in unfold receive in rw (lt→ltb _ _ (past 0)) refl),
)

selection_step-ne-crash :
    (extra : Bool) (msg : Incoming) (t : Table)
    → ¬ IsNilTouch msg
    → selection_step extra msg t ≢ crash
unfolding selection_step on_dice_touch on_score_roll on_end_turn
selection_step-ne-crash extra msg t h = ground (arith, eq_iff msg.variant var_dice_touch)

abbrev NeverPanics : (Bool → Table → Selection) → Type 0
NeverPanics loop = (extra : Bool) (t : Table) → loop extra t ≢ panicked

after_step-ne-panicked :
    (loop : Bool → Table → Selection) (s : Step)
    → NeverPanics loop
    → s ≢ crash
    → after_step loop s ≢ panicked
unfolding after_step
after_step-ne-panicked loop (again extra v) l h = l extra v
after_step-ne-panicked loop (chosen r v) l h = λ e. cc
after_step-ne-panicked loop crash l h = λ e. h refl

after_receive-ne-panicked :
    (loop : Bool → Table → Selection) (overdue extra : Bool) (t t1 : Table) (w : Wake)
    → NeverPanics loop
    → HasNoNil w
    → after_receive loop extra t t1 (receive overdue w) ≢ panicked
unfolding after_receive receive
after_receive-ne-panicked loop true extra t t1 closing l h = λ e. cc
after_receive-ne-panicked loop false extra t t1 closing l h = λ e. cc
after_receive-ne-panicked loop true extra t t1 timer l h = l extra t
after_receive-ne-panicked loop false extra t t1 timer l h = λ e. cc
after_receive-ne-panicked loop true extra t t1 (delivered msg) l h =
    after_step-ne-panicked loop (selection_step extra msg t1) l
      (selection_step-ne-crash extra msg t1 h)
after_receive-ne-panicked loop false extra t t1 (delivered msg) l h =
    after_step-ne-panicked loop (selection_step extra msg t1) l
      (selection_step-ne-crash extra msg t1 h)

-- Where every dice touch has data, no sequence of messages makes the selection panic.
pub dice_selection-ne-panicked :
    (ws : List Wake) (extra : Bool) (t : Table)
    → All HasNoNil ws
    → dice_selection ws extra t ≢ panicked
unfolding dice_selection
dice_selection-ne-panicked [] extra t h = λ e. cc
dice_selection-ne-panicked (w ∷ ws) extra t h =
    after_receive-ne-panicked (dice_selection ws) (is_overdue t) extra t
      (record t { clock = λ i. t.clock (suc i); inbox = ws }) w
      (λ extra' t'. dice_selection-ne-panicked ws extra' t' h.1) h.0
