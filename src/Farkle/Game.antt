-- ===== src/Farkle/Game.antt =====
-- game/farkle/internal/logic/game.go, the operations on a player's dice.
pub mod Table
pub mod Turn
pub mod Match
pub mod Rolled
pub mod Selection
pub mod Hazards
pub mod Books
pub mod Rounds
pub mod Accounts
pub mod Winner
pub mod Played
pub mod Spoken
pub mod Heard
pub mod Conversed
use dice_server.Prelude.{
  Bool, true, false, not, ◌||◌, Option, none, some, List, [], ◌∷◌, ◌==◌, if◌then◌else◌,
}
use dice_server.Farkle.Dice.{Dice, Roller, roll}
use dice_server.Farkle.Message.{VariantDiceTouch}

unfoldable pub reset_dice : List Dice → List Dice
reset_dice [] = []
reset_dice (d ∷ ds) = record d { selected = false; playable = true } ∷ reset_dice ds

-- The first loop of `rollDice`.
unfoldable pub has_playable : List Dice → Bool
has_playable [] = false
has_playable (d ∷ ds) = d.playable || has_playable ds

-- The second loop; `none` where a roll panics.
unfoldable pub roll_each : Bool → List Dice → Roller → Option (List Dice × Roller)
roll_each has_playable_dice [] r = some ([], r)
roll_each has_playable_dice (d ∷ ds) r =
    elim (roll (record d { playable = d.playable || not has_playable_dice }) r) [
      | none ↦ none
      | some (d', r') ↦ elim (roll_each has_playable_dice ds r') [
        | none ↦ none
        | some (ds', r'') ↦ some (d' ∷ ds', r'')
      ]
    ]

unfoldable pub roll_dice : List Dice → Roller → Option (List Dice × Roller)
roll_dice ds r = roll_each (has_playable ds) ds r

-- The dice afterwards, and whether the touch was valid.
unfoldable pub touch_dice : List Dice → VariantDiceTouch → List Dice × Bool
touch_dice [] touch = ([], false)
touch_dice (d ∷ ds) touch =
    let (ds', valid) = touch_dice ds touch in
    if d.id == touch.dice_id
    then if not d.playable
      then (d ∷ ds, false)
      else (record d { selected = touch.selected } ∷ ds, true)
    else (d ∷ ds', valid)

unfoldable pub move_selected_to_unplayable : List Dice → List Dice
move_selected_to_unplayable [] = []
move_selected_to_unplayable (d ∷ ds) =
    (if d.selected
      then record d { playable = false; selected = false }
      else record d { selected = false })
    ∷ move_selected_to_unplayable ds
