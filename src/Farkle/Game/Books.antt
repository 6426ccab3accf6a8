-- ===== src/Farkle/Game/Books.antt =====
-- What a turn may do to the books (game/farkle/internal/logic/game.go, `turnLoop`).
use dice_server.Prelude.{
  ℕ, ◌+◌, ◌*◌, ◌≤◌, ◌≡◌, ◌⊎◌, refl, true, false, List, [], ◌∷◌, ◌++◌, map, length, All, arith,
}
use dice_server.Farkle.Dice.{Dice, Roller}
use dice_server.Farkle.Scoring.{
  count_values, has_busted, count_from, count_die, score_counts, score_entries, has_full_straight,
  has_upper_straight, has_lower_straight,
}
use dice_server.Farkle.Scoring.Counting.{HasFaces}
use dice_server.Farkle.Player.{client_closed}
use dice_server.Farkle.Message.{Message, turn_timeout}
use dice_server.Farkle.Game.Rolled.{NoneSelected}
use dice_server.Farkle.Game.Selection.{IsConsistent, SameBooks, HasNoNil}
use dice_server.Farkle.Game.Table.{Table}
use dice_server.Farkle.Game.Turn.{show_roll, Turn, ended, broken, idle, fault, out_of_fuel}

-- A table whose player is about to roll.
pub record IsReady (t : Table) : Type 0 where
  pub faces : HasFaces t.player.dice
  pub six : length t.player.dice ≤ 6
  pub fresh : NoneSelected t.player.dice
  pub none_selected : t.player.scores.selected ≡ 0

count_from-NoneSelected : (ds : List Dice) → NoneSelected ds → count_from false [] ds ≡ []
unfolding count_from count_die
count_from-NoneSelected [] n = refl
count_from-NoneSelected (d ∷ ds) n = ground (arith, count_from-NoneSelected ds n.1)

NoneSelected-score :
    (ds : List Dice) → NoneSelected ds → score_counts (count_values ds false) ≡ (0, false)
unfolding count_values
NoneSelected-score ds n = rw (count_from-NoneSelected ds n) (
    unfold score_counts score_entries has_full_straight has_upper_straight has_lower_straight in
    refl)

pub show_roll-good :
    (es : List Dice) (r : Roller) (t : Table)
    → HasFaces es
    → length es ≤ 6
    → NoneSelected es
    → t.player.scores.selected ≡ 0
    → let u = (show_roll es r t).0 in IsConsistent false u × SameBooks t u × (u.inbox ≡ t.inbox)
unfolding show_roll
show_roll-good es r t faces six fresh none_selected = ground (arith, NoneSelected-score es fresh)

-- What is known of a table at the end of a turn that began with another.
pub record IsClosed (t u : Table) : Type 0 where
  pub faces : HasFaces u.player.dice
  pub six : length u.player.dice ≤ 6
  pub same_info : u.player.info ≡ t.player.info
  pub same_seat : u.client ≡ t.client
  pub same_clients : u.clients ≡ t.clients
  pub clean : All HasNoNil t.inbox → All HasNoNil u.inbox

pub record IsLost (t u : Table) : Type 0 where
  pub same_total : u.player.scores.total ≡ t.player.scores.total
  pub no_turn : u.player.scores.turn ≡ 0
  pub none_selected : u.player.scores.selected ≡ 0

-- The last roll is a bust.
abbrev pub IsBust : Table → Type 0
IsBust u = has_busted (count_values u.player.dice true) ≡ true

-- The last that everybody is told is that the player's time is over.
abbrev pub IsTimedOut : Table → Type 0
IsTimedOut u =
    (before : List (ℕ × Message)) × (u.sent
      ≡ before ++ map (λ c. (c, turn_timeout u.player.info.user_id)) u.clients)

-- The points of the turn are banked, at most 8000 for each wake that was used up.
pub record IsBanked (t u : Table) : Type 0 where
  pub banked : u.player.scores.total ≡ t.player.scores.total + u.player.scores.turn
  pub grown : t.player.scores.turn ≤ u.player.scores.turn
  pub bounded :
      u.player.scores.turn + 8000 * length u.inbox ≤ t.player.scores.turn + 8000 * length t.inbox
  pub same_timeouts : u.timeouts ≡ t.timeouts

abbrev pub Ending : Table → Table → Type 0
Ending t u =
    (IsLost t u × IsBust u × (u.timeouts ≡ t.timeouts))
    ⊎ ((IsLost t u × IsTimedOut u × (u.timeouts ≡ t.timeouts + 1)) ⊎ IsBanked t u)

abbrev pub IsGoodTurn : ℕ → Table → Turn → Type 0
IsGoodTurn n t (ended u) = IsClosed t u × Ending t u
IsGoodTurn n t (broken e u) =
    (e ≡ client_closed)
    × IsClosed t u
    × (u.player.scores.total ≡ t.player.scores.total)
    × (u.timeouts ≡ t.timeouts)
IsGoodTurn n t (idle u) =
    IsClosed t u × (u.player.scores.total ≡ t.player.scores.total) × (u.timeouts ≡ t.timeouts)
IsGoodTurn n t fault = ¬ All HasNoNil t.inbox
IsGoodTurn n t (out_of_fuel u) = n ≤ length t.inbox
