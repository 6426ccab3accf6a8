-- ===== src/Farkle/Game/Rounds.antt =====
-- Each round keeps the books (game/farkle/internal/logic/game.go, `turnLoop`).
use mathlib.Core.Path.{subst}
use dice_server.Prelude.{
  ℕ, zero, suc, ◌+◌, ◌*◌, ◌≤◌, ◌<◌, ◌≡◌, inl, inr, refl, ap, sym, ◌∙◌, Bool, true, false, some,
  List, length, All, arith,
}
use dice_server.Farkle.Dice.{Dice, Roller}
use dice_server.Farkle.Scoring.{count_values, has_busted}
use dice_server.Farkle.Scoring.Bounds.{score_counts-le}
use dice_server.Farkle.Player.{recv_timeout, client_closed}
use dice_server.Farkle.Game.{has_playable, roll_dice}
use dice_server.Farkle.Game.Rolled.{
  roll_dice-AreRolled, AreRolled-HasFaces, length-AreRolled, AreRolled-NoneSelected, move-HasFaces,
  move-NoneSelected, length-move,
}
use dice_server.Farkle.Game.Selection.{
  IsConsistent, SameBooks, HasNoNil, IsGoodSelection, dice_selection-good,
}
use dice_server.Farkle.Game.Hazards.{dice_selection-ne-panicked}
use dice_server.Farkle.Game.Table.{
  Table, Selection, picked, failed, waiting, panicked, dice_selection,
}
use dice_server.Farkle.Game.Turn.{
  show_roll, roll_phase, after_selection, after_roll, bust, time_out, keep_selected, bank,
  announce_score, Turn, ended, broken, idle, fault, out_of_fuel, turn_rounds,
}
use dice_server.Farkle.Game.Books.{IsReady, show_roll-good, IsClosed, Ending, IsGoodTurn}

-- A round went on: what the rest of the turn comes to, the whole turn comes to.
record IsContinued (t w : Table) : Type 0 where
  closed : IsClosed t w
  same_total : w.player.scores.total ≡ t.player.scores.total
  same_timeouts : w.timeouts ≡ t.timeouts
  grown : t.player.scores.turn ≤ w.player.scores.turn
  bounded :
      w.player.scores.turn + 8000 * length w.inbox ≤ t.player.scores.turn + 8000 * length t.inbox
  shorter : length w.inbox < length t.inbox
  clean : All HasNoNil t.inbox → All HasNoNil w.inbox

continued-IsClosed : {t w u : Table} → IsContinued t w → IsClosed w u → IsClosed t u
continued-IsClosed c d = ground arith

continued-Ending : {t w u : Table} → IsContinued t w → Ending w u → Ending t u
continued-Ending c (inl (lost, busted, same)) = inl (ground arith, busted, ground arith)
continued-Ending c (inr (inl (lost, told, more))) = inr (inl (ground arith, told, ground arith))
continued-Ending c (inr (inr banked)) = inr (inr (ground arith))

continued_turn :
    (n : ℕ) (t w : Table) (r : Turn) → IsContinued t w → IsGoodTurn n w r → IsGoodTurn (suc n) t r
continued_turn n t w (ended u) c (closed, ending) =
    (continued-IsClosed c closed, continued-Ending c ending)
continued_turn n t w (broken e u) c (closed_client, closed, total, timeouts) =
    (closed_client, continued-IsClosed c closed, ground arith, ground arith)
continued_turn n t w (idle u) c (closed, total, timeouts) =
    (continued-IsClosed c closed, ground arith, ground arith)
continued_turn n t w fault c g = λ h. g (c.clean h)
continued_turn n t w (out_of_fuel u) c g = omega arith

abbrev IsGoodRest : ℕ → (Table → Turn) → Type 0
IsGoodRest n loop = (t : Table) → IsReady t → IsGoodTurn n t (loop t)

keep_selected-IsReady :
    (v : Table) → IsConsistent false v → IsReady (announce_score (keep_selected v))
unfolding announce_score keep_selected
keep_selected-IsReady v c = record {
  faces = move-HasFaces v.player.dice c.faces;
  six = omega (arith, length-move v.player.dice, c.six);
  fresh = move-NoneSelected v.player.dice;
  none_selected = refl;
}

selected_bound : (v : Table) → IsConsistent false v → v.player.scores.selected ≤ 8000
selected_bound v c = ground (arith, c.score, score_counts-le v.player.dice false c.faces c.six)

keep_selected-IsContinued :
    (t u v : Table)
    → SameBooks t u
    → (u.inbox ≡ t.inbox)
    → IsConsistent false v
    → SameBooks u v
    → length v.inbox < length u.inbox
    → (All HasNoNil u.inbox → All HasNoNil v.inbox)
    → IsContinued t (announce_score (keep_selected v))
unfolding announce_score keep_selected
keep_selected-IsContinued t u v b e c b' less clean = record {
  closed = record {
    faces = move-HasFaces v.player.dice c.faces;
    six = omega (arith, length-move v.player.dice, c.six);
    same_info = b'.same_info ∙ b.same_info;
    same_seat = b'.same_seat ∙ b.same_seat;
    same_clients = b'.same_clients ∙ b.same_clients;
    clean = λ h. clean (rw e h);
  };
  same_total = b'.same_total ∙ b.same_total;
  same_timeouts = b'.same_timeouts ∙ b.same_timeouts;
  grown = omega (arith, b'.same_turn, b.same_turn);
  bounded = omega (arith, b'.same_turn, b.same_turn, selected_bound v c, ap length e);
  shorter = omega (arith, ap length e);
  clean = λ h. clean (rw e h);
}

keep_selected-banked :
    (t v : Table)
    → IsContinued t (announce_score (keep_selected v))
    → IsClosed t (bank (keep_selected v)) × Ending t (bank (keep_selected v))
unfolding announce_score keep_selected bank
keep_selected-banked t v c = (ground (arith, c.closed), inr (inr (ground arith)))

still-IsClosed :
    (t u v : Table) (extra : Bool)
    → SameBooks t u
    → (u.inbox ≡ t.inbox)
    → IsConsistent extra v
    → SameBooks u v
    → (All HasNoNil u.inbox → All HasNoNil v.inbox)
    → IsClosed t v
still-IsClosed t u v extra b e c b' clean = record {
  faces = c.faces;
  six = c.six;
  same_info = b'.same_info ∙ b.same_info;
  same_seat = b'.same_seat ∙ b.same_seat;
  same_clients = b'.same_clients ∙ b.same_clients;
  clean = λ h. clean (rw e h);
}

lost_turn :
    (t u v : Table)
    → IsClosed t v
    → SameBooks t u
    → SameBooks u v
    → IsClosed t (time_out v) × Ending t (time_out v)
unfolding time_out
lost_turn t u v c b b' =
    (ground (arith, c.clean), inr (inl (ground arith, (v.sent, refl), ground arith)))

after_selection-good :
    (n : ℕ) (loop : Table → Turn)
    → IsGoodRest n loop
    → (t u : Table) (s : Selection) → SameBooks t u
    → (u.inbox ≡ t.inbox)
    → (s ≡ panicked → ¬ All HasNoNil u.inbox)
    → IsGoodSelection u u.inbox s
    → IsGoodTurn (suc n) t (after_selection loop s)
unfolding after_selection
after_selection-good n loop l t u (picked true v) b e p (c, b', _, less, clean) =
    continued_turn n t (announce_score (keep_selected v)) (loop (announce_score (keep_selected v)))
      (keep_selected-IsContinued t u v b e c b' less clean)
      (l (announce_score (keep_selected v)) (keep_selected-IsReady v c))
after_selection-good n loop l t u (picked false v) b e p (c, b', _, less, clean) =
    keep_selected-banked t v (keep_selected-IsContinued t u v b e c b' less clean)
after_selection-good n loop l t u (failed recv_timeout v) b e p ((extra, c), b', clean) =
    lost_turn t u v (still-IsClosed t u v extra b e c b' clean) b b'
after_selection-good n loop l t u (failed client_closed v) b e p ((extra, c), b', clean) =
    (refl, still-IsClosed t u v extra b e c b' clean, ground arith, ground arith)
after_selection-good n loop l t u (waiting v) b e p ((extra, c), b', clean) =
    (still-IsClosed t u v extra b e c b' clean, ground arith, ground arith)
after_selection-good n loop l t u panicked b e p g = λ h. p refl (rw e h)

after_roll-good :
    (n : ℕ) (loop : Table → Turn)
    → IsGoodRest n loop
    → (t u : Table) (busted : Bool) → IsConsistent false u
    → SameBooks t u
    → (u.inbox ≡ t.inbox)
    → busted ≡ has_busted (count_values u.player.dice true)
    → IsGoodTurn (suc n) t (after_roll loop (some (u, busted)))
unfolding after_roll
after_roll-good n loop l t u true c b e busts =
    unfold bust in (ground arith, inl (ground arith, sym busts, ground arith))
after_roll-good n loop l t u false c b e busts =
    after_selection-good n loop l t u (dice_selection u.inbox false u) b e
      (λ p h. dice_selection-ne-panicked u.inbox false u h p)
      (dice_selection-good u.inbox false u c)

roll_phase_lem :
    (t : Table) (es : List Dice) (r : Roller)
    → roll_dice t.player.dice t.roller ≡ some (es, r)
    → roll_phase t ≡ some (show_roll es r t)
unfolding roll_phase
roll_phase_lem t es r e = rw (e, roll_phase)

pub turn_rounds-good : (n : ℕ) (t : Table) → IsReady t → IsGoodTurn n t (turn_rounds n t)
unfolding turn_rounds
turn_rounds-good zero t r = omega arith
turn_rounds-good (suc n) t r =
    let (es, r', e, rolled) = roll_dice-AreRolled t.player.dice t.roller in
    let playable = has_playable t.player.dice in
    let (c, b, same) =
      show_roll-good es r' t (AreRolled-HasFaces playable t.player.dice es rolled r.faces)
        (omega (arith, length-AreRolled playable t.player.dice es rolled, r.six))
        (AreRolled-NoneSelected playable t.player.dice es rolled r.fresh) r.none_selected in
    subst (λ x. IsGoodTurn (suc n) t (after_roll (turn_rounds n) x))
      (sym (roll_phase_lem t es r' e))
      (after_roll-good n (turn_rounds n) (turn_rounds-good n) t (show_roll es r' t).0
        (show_roll es r' t).1 c b same (unfold show_roll in refl))
