-- ===== src/Farkle/Game/Selection.antt =====
-- What holds while a player selects dice (game/farkle/internal/logic/game.go, `diceSelection`).
use dice_server.Prelude.{
  suc, ◌≤◌, ◌<◌, ◌≡◌, refl, Bool, true, false, none, All, List, [], ◌∷◌, if◌then◌else◌, length,
  arith, str_eq, if_intro,
}
use dice_server.Farkle.Scoring.{count_values, score_counts}
use dice_server.Farkle.Scoring.Counting.{HasFaces}
use dice_server.Farkle.Message.{
  Incoming, Decoded, decoded, bad_data, nil_pointer, VariantDiceTouch, var_dice_touch,
  unmarshal_data, var_score_roll, var_end_turn,
}
use dice_server.Farkle.Player.{
  Wake, closing, delivered, timer, Received, received, failure, blocked, receive,
}
use dice_server.Farkle.Game.Rolled.{touch_dice_lem, touch_dice-HasFaces, length-touch_dice}
use dice_server.Farkle.Game.Table.{
  Table, Step, again, chosen, crash, on_dice_touch, on_score_roll, on_end_turn, selection_step,
  Selection, picked, failed, waiting, panicked, after_step, after_receive, dice_selection,
  is_overdue,
}

-- The selected score is that of the selected dice, or 0 while there are extra ones among them.
pub record IsConsistent (extra : Bool) (t : Table) : Type 0 where
  pub faces : HasFaces t.player.dice
  pub six : length t.player.dice ≤ 6
  pub stray : (score_counts (count_values t.player.dice false)).1 ≡ extra
  pub score :
      t.player.scores.selected
      ≡ (if extra then 0 else (score_counts (count_values t.player.dice false)).0)

-- What a selection leaves alone.
pub record SameBooks (t t' : Table) : Type 0 where
  pub same_total : t'.player.scores.total ≡ t.player.scores.total
  pub same_turn : t'.player.scores.turn ≡ t.player.scores.turn
  pub same_info : t'.player.info ≡ t.player.info
  pub same_timeouts : t'.timeouts ≡ t.timeouts
  pub same_seat : t'.client ≡ t.client
  pub same_clients : t'.clients ≡ t.clients

abbrev IsGoodStep : Table → Step → Type 0
IsGoodStep t (again extra t') = IsConsistent extra t' × SameBooks t t' × (t'.inbox ≡ t.inbox)
IsGoodStep t (chosen roll_again t') =
    IsConsistent false t'
    × SameBooks t t'
    × (t'.inbox ≡ t.inbox)
    × (roll_again ≡ true → 0 < t'.player.scores.selected)
IsGoodStep t crash = Unit {0}

on_dice_touch-good :
    (extra : Bool) (touch : Decoded VariantDiceTouch) (t : Table)
    → IsConsistent extra t
    → IsGoodStep t (on_dice_touch extra touch t)
unfolding on_dice_touch
on_dice_touch-good extra nil_pointer t c = tt
on_dice_touch-good extra bad_data t c = ground arith
on_dice_touch-good extra (decoded touch) t c = ground (
  arith,
  (touch_dice_lem t.player.dice touch).2,
  touch_dice-HasFaces t.player.dice touch c.faces,
  length-touch_dice t.player.dice touch,
)

on_score_roll-good :
    (extra : Bool) (t : Table) → IsConsistent extra t → IsGoodStep t (on_score_roll extra t)
unfolding on_score_roll
on_score_roll-good extra t c = ground arith

on_end_turn-good :
    (extra : Bool) (t : Table) → IsConsistent extra t → IsGoodStep t (on_end_turn extra t)
unfolding on_end_turn
on_end_turn-good extra t c = ground arith

selection_step-good :
    (extra : Bool) (msg : Incoming) (t : Table)
    → IsConsistent extra t
    → IsGoodStep t (selection_step extra msg t)
unfolding selection_step
selection_step-good extra msg t c =
    if_intro (IsGoodStep t) (str_eq msg.variant var_dice_touch) _ _
      (on_dice_touch-good extra (unmarshal_data (λ raw. raw.as_dice_touch) msg.raw) t c)
      (if_intro (IsGoodStep t) (str_eq msg.variant var_score_roll) _ _
        (on_score_roll-good extra t c)
        (if_intro (IsGoodStep t) (str_eq msg.variant var_end_turn) _ _ (on_end_turn-good extra t c)
          (ground arith)))

SameBooks-trans : {t u v : Table} → SameBooks t u → SameBooks u v → SameBooks t v
SameBooks-trans a b = ground arith

abbrev pub IsNilTouch : Incoming → Type 0
IsNilTouch msg = (msg.variant ≡ var_dice_touch) × (msg.raw ≡ none)

abbrev pub HasNoNil : Wake → Type 0
HasNoNil closing = Unit {0}
HasNoNil timer = Unit {0}
HasNoNil (delivered msg) = ¬ IsNilTouch msg

-- What a selection that began with a list of wakes comes to.
abbrev pub IsGoodSelection : Table → List Wake → Selection → Type 0
IsGoodSelection t ws (picked roll_again t') =
    IsConsistent false t'
    × SameBooks t t'
    × (roll_again ≡ true → 0 < t'.player.scores.selected)
    × (length t'.inbox < length ws)
    × (All HasNoNil ws → All HasNoNil t'.inbox)
IsGoodSelection t ws (failed e t') =
    ((extra : Bool) × IsConsistent extra t')
    × SameBooks t t'
    × (All HasNoNil ws → All HasNoNil t'.inbox)
IsGoodSelection t ws (waiting t') =
    ((extra : Bool) × IsConsistent extra t')
    × SameBooks t t'
    × (All HasNoNil ws → All HasNoNil t'.inbox)
IsGoodSelection t ws panicked = Unit {0}

good_weaken :
    (t u : Table) (w : Wake) (ws : List Wake) (s : Selection)
    → SameBooks t u
    → IsGoodSelection u ws s
    → IsGoodSelection t (w ∷ ws) s
good_weaken t u w ws (picked r t') b (c, same, some_selected, less, clean) =
    (c, SameBooks-trans b same, some_selected, omega arith, λ h. clean h.1)
good_weaken t u w ws (failed e t') b (c, same, clean) = (c, SameBooks-trans b same, λ h. clean h.1)
good_weaken t u w ws (waiting t') b (c, same, clean) = (c, SameBooks-trans b same, λ h. clean h.1)
good_weaken t u w ws panicked b g = tt

abbrev IsGoodLoop : List Wake → (Bool → Table → Selection) → Type 0
IsGoodLoop ws loop =
    (extra : Bool) (t : Table) → IsConsistent extra t → IsGoodSelection t ws (loop extra t)

after_step-good :
    (w : Wake) (ws : List Wake) (loop : Bool → Table → Selection)
    → IsGoodLoop ws loop
    → (t u : Table) (s : Step) → u.inbox ≡ ws
    → SameBooks t u
    → IsGoodStep u s
    → IsGoodSelection t (w ∷ ws) (after_step loop s)
unfolding after_step
after_step-good w ws loop l t u (again extra v) e b (c, same, left) =
    good_weaken t v w ws (loop extra v) (SameBooks-trans b same) (l extra v c)
after_step-good w ws loop l t u (chosen r v) e b (c, same, left, some_selected) =
    (c, SameBooks-trans b same, some_selected, rw (left, e) (omega arith), λ h. rw (left, e) h.1)
after_step-good w ws loop l t u crash e b g = tt

after_receive-good :
    (w : Wake) (ws : List Wake) (loop : Bool → Table → Selection)
    → IsGoodLoop ws loop
    → (extra : Bool) (t u : Table) (r : Received) → u.inbox ≡ ws
    → SameBooks t u
    → IsConsistent extra t
    → IsConsistent extra u
    → IsGoodSelection t (w ∷ ws) (after_receive loop extra t u r)
unfolding after_receive
after_receive-good w ws loop l extra t u blocked e b c d =
    good_weaken t t w ws (loop extra t) (ground arith) (l extra t c)
after_receive-good w ws loop l extra t u (failure x) e b c d = ((extra, d), b, λ h. rw e h.1)
after_receive-good w ws loop l extra t u (received msg) e b c d =
    after_step-good w ws loop l t u (selection_step extra msg u) e b
      (selection_step-good extra msg u d)

-- However the messages, timers and clock fall, the selected score always is that of the selected
-- dice (0 with extra ones). A turn is ended, or dice are scored, with no extra dice selected; dice
-- are rolled again only for a selected score above 0; and the other books stay as they are.
pub dice_selection-good :
    (ws : List Wake) (extra : Bool) (t : Table)
    → IsConsistent extra t
    → IsGoodSelection t ws (dice_selection ws extra t)
unfolding dice_selection
dice_selection-good [] extra t c = ((extra, ground arith), ground arith, λ h. tt)
dice_selection-good (w ∷ ws) extra t c =
    after_receive-good w ws (dice_selection ws) (dice_selection-good ws) extra t
      (record t { clock = λ i. t.clock (suc i); inbox = ws }) (receive (is_overdue t) w) refl
      (ground arith) c (ground arith)
