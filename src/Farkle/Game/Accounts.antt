-- ===== src/Farkle/Game/Accounts.antt =====
-- How a whole turn comes out (game/farkle/internal/logic/game.go, `turnLoop`).
use dice_server.Prelude.{suc, ◌+◌, ◌*◌, ◌≤◌, ◌≡◌, ◌⊎◌, inl, inr, refl, false, length, All, arith}
use dice_server.Farkle.Scoring.Counting.{HasFaces}
use dice_server.Farkle.Player.{client_closed}
use dice_server.Farkle.Game.Rolled.{reset-HasFaces, reset-NoneSelected, length-reset}
use dice_server.Farkle.Game.Selection.{HasNoNil}
use dice_server.Farkle.Game.Table.{Table}
use dice_server.Farkle.Game.Turn.{
  Turn, ended, broken, idle, fault, out_of_fuel, turn_rounds, begin_turn, end_of_turn, turn_loop,
}
use dice_server.Farkle.Game.Books.{IsReady, IsClosed, IsLost, IsBust, IsTimedOut, IsGoodTurn}
use dice_server.Farkle.Game.Rounds.{turn_rounds-good}

abbrev IsDealt : Table → Type 0
IsDealt t = HasFaces t.player.dice × (length t.player.dice ≤ 6)

begin_turn-IsReady : (t : Table) → IsDealt t → IsReady (begin_turn t)
unfolding begin_turn
begin_turn-IsReady t (faces, six) = record {
  faces = reset-HasFaces t.player.dice faces;
  six = omega (arith, length-reset t.player.dice);
  fresh = reset-NoneSelected t.player.dice;
  none_selected = refl;
}

-- The ways in which a whole turn can come out.
abbrev pub TurnOutcome : Table → Turn → Type 0
TurnOutcome t (ended u) =
    IsClosed t u
    × (u.has_turn ≡ false)
    × ((IsLost t u × IsBust u × (u.timeouts ≡ t.timeouts))
        ⊎ ((IsLost t u × IsTimedOut u × (u.timeouts ≡ t.timeouts + 1))
            ⊎ ((u.player.scores.total ≡ t.player.scores.total + u.player.scores.turn)
                × (u.player.scores.turn ≤ 8000 * length t.inbox)
                × (u.timeouts ≡ t.timeouts))))
TurnOutcome t (broken e u) =
    (e ≡ client_closed)
    × (u.has_turn ≡ false)
    × (u.player.scores.total ≡ t.player.scores.total)
    × (u.timeouts ≡ t.timeouts)
TurnOutcome t (idle u) = (u.player.scores.total ≡ t.player.scores.total) × (u.timeouts ≡ t.timeouts)
TurnOutcome t fault = ¬ All HasNoNil t.inbox
TurnOutcome t (out_of_fuel u) = ⊥

end_of_turn-outcome :
    (t : Table) (r : Turn)
    → IsGoodTurn (suc (length (begin_turn t).inbox)) (begin_turn t) r
    → TurnOutcome t (end_of_turn r)
unfolding end_of_turn begin_turn
end_of_turn-outcome t (ended u) (closed, inl (lost, busted, same)) =
    (ground arith, refl, inl (ground arith, busted, same))
end_of_turn-outcome t (ended u) (closed, inr (inl (lost, told, more))) =
    (ground arith, refl, inr (inl (ground arith, told, more)))
end_of_turn-outcome t (ended u) (closed, inr (inr banked)) =
    (ground arith, refl, inr (inr (ground arith, ground arith, ground arith)))
end_of_turn-outcome t (broken e u) (closed_client, closed, total, timeouts) =
    (closed_client, refl, total, timeouts)
end_of_turn-outcome t (idle u) (closed, total, timeouts) = (total, timeouts)
end_of_turn-outcome t fault g = g
end_of_turn-outcome t (out_of_fuel u) g = omega arith

pub turn_loop-outcome :
    (t : Table) → HasFaces t.player.dice → length t.player.dice ≤ 6 → TurnOutcome t (turn_loop t)
unfolding turn_loop
turn_loop-outcome t faces six =
    end_of_turn-outcome t (turn_rounds (suc (length (begin_turn t).inbox)) (begin_turn t)) (
      turn_rounds-good (suc (length (begin_turn t).inbox)) (begin_turn t)
        (begin_turn-IsReady t (faces, six)))
