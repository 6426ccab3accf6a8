-- ===== src/Farkle/Game/Rolled.antt =====
-- What the operations on a player's dice do (game/farkle/internal/logic/game.go).
use dice_server.Prelude.{
  ℕ, ◌+◌, ◌≡◌, ◌≢◌, refl, Bool, true, false, not, ◌&&◌, ◌||◌, Option, none, some, List, [], ◌∷◌,
  ◌==◌, if◌then◌else◌, length, All, arith,
}
use dice_server.Connect.{Uuid}
use dice_server.Farkle.Dice.{Dice, Roller}
use dice_server.Farkle.Dice.Faces.{IsRolled, roll-IsRolled}
use dice_server.Farkle.Scoring.Counting.{HasFaces}
use dice_server.Farkle.Message.{VariantDiceTouch}
use dice_server.Farkle.Game.{
  reset_dice, has_playable, roll_each, roll_dice, touch_dice, move_selected_to_unplayable,
}

-- Each dice is rolled if it was playable, or if none was.
abbrev pub AreRolled : Bool → List Dice → List Dice → Type 0
AreRolled has [] [] = Unit {0}
AreRolled has [] (e ∷ es) = ⊥
AreRolled has (d ∷ ds) [] = ⊥
AreRolled has (d ∷ ds) (e ∷ es) =
    IsRolled (record d { playable = d.playable || not has }) e × AreRolled has ds es

roll_each-AreRolled :
    (has : Bool) (ds : List Dice) (r : Roller)
    → (es : List Dice) × (r' : Roller) × (roll_each has ds r ≡ some (es, r')) × AreRolled has ds es
unfolding roll_each
roll_each-AreRolled has [] r = ([], r, refl, tt)
roll_each-AreRolled has (d ∷ ds) r =
    let (e, r1, first, rolled) = roll-IsRolled (record d { playable = d.playable || not has }) r in
    let (es, r2, rest, all_rolled) = roll_each-AreRolled has ds r1 in
    (e ∷ es, r2, ground arith, (rolled, all_rolled))

-- Rolling a player's dice never panics. It rolls the playable ones to faces from 1 to 6 and leaves
-- the others, or, where none is playable, makes all playable and rolls them.
pub roll_dice-AreRolled :
    (ds : List Dice) (r : Roller)
    → (es : List Dice) × (r' : Roller) × (roll_dice ds r ≡ some (es, r'))
      × AreRolled (has_playable ds) ds es
unfolding roll_dice
roll_dice-AreRolled ds r = roll_each-AreRolled (has_playable ds) ds r

pub AreRolled-HasFaces :
    (has : Bool) (ds es : List Dice) → AreRolled has ds es → HasFaces ds → HasFaces es
AreRolled-HasFaces has [] [] a f = tt
AreRolled-HasFaces has [] (e ∷ es) a f = elim a [ ]
AreRolled-HasFaces has (d ∷ ds) [] a f = elim a [ ]
AreRolled-HasFaces has (d ∷ ds) (e ∷ es) a f = (ground arith, AreRolled-HasFaces has ds es a.1 f.1)

pub length-AreRolled :
    (has : Bool) (ds es : List Dice) → AreRolled has ds es → length es ≡ length ds
length-AreRolled has [] [] a = refl
length-AreRolled has [] (e ∷ es) a = elim a [ ]
length-AreRolled has (d ∷ ds) [] a = elim a [ ]
length-AreRolled has (d ∷ ds) (e ∷ es) a = omega (arith, length-AreRolled has ds es a.1)

abbrev pub NoneSelected : List Dice → Type 0
NoneSelected = All (λ d. d.selected ≡ false)

pub AreRolled-NoneSelected :
    (has : Bool) (ds es : List Dice) → AreRolled has ds es → NoneSelected ds → NoneSelected es
AreRolled-NoneSelected has [] [] a f = tt
AreRolled-NoneSelected has [] (e ∷ es) a f = elim a [ ]
AreRolled-NoneSelected has (d ∷ ds) [] a f = elim a [ ]
AreRolled-NoneSelected has (d ∷ ds) (e ∷ es) a f =
    (ground arith, AreRolled-NoneSelected has ds es a.1 f.1)

AreRolled-has_playable :
    (has : Bool) (ds es : List Dice)
    → AreRolled has ds es
    → has_playable es ≡ has_playable ds || (not has && not (0 == length ds))
unfolding has_playable
AreRolled-has_playable has [] [] a = ground arith
AreRolled-has_playable has [] (e ∷ es) a = elim a [ ]
AreRolled-has_playable has (d ∷ ds) [] a = elim a [ ]
AreRolled-has_playable has (d ∷ ds) (e ∷ es) a =
    ground (arith, AreRolled-has_playable has ds es a.1)

-- After a roll at least one dice is playable: a player who has put all dice aside gets them back.
pub roll_dice-has_playable :
    (ds : List Dice) (r : Roller)
    → ds ≢ []
    → (es : List Dice) × (r' : Roller) × (roll_dice ds r ≡ some (es, r')) × (has_playable es ≡ true)
roll_dice-has_playable ds r some_dice =
    let (es, r', e, rolled) = roll_dice-AreRolled ds r in
    (es, r', e, ground (arith, AreRolled-has_playable (has_playable ds) ds es rolled))

-- The first dice with an id.
abbrev pub find_dice : Uuid → List Dice → Option Dice
find_dice i [] = none
find_dice i (d ∷ ds) = if d.id == i then some d else find_dice i ds

abbrev pub is_playable : Option Dice → Bool
is_playable none = false
is_playable (some d) = d.playable

abbrev pub select : Bool → Option Dice → Option Dice
select b none = none
select b (some d) = some (record d { selected = b })

-- A touch is valid exactly when the first dice with its id is there and playable. A valid touch
-- changes that dice, only its selection, and no dice with another id; an invalid one changes nothing.
pub touch_dice_lem :
    (ds : List Dice) (touch : VariantDiceTouch)
    → let (es, valid) = touch_dice ds touch in
      (valid ≡ is_playable (find_dice touch.dice_id ds))
      × ((i : Uuid)
          → find_dice i es ≡ (
              if valid && i == touch.dice_id
              then select touch.selected (find_dice i ds)
              else find_dice i ds))
      × (valid ≡ false → es ≡ ds)
unfolding touch_dice
touch_dice_lem [] touch = (refl, λ i. ground arith, λ h. refl)
touch_dice_lem (d ∷ ds) touch =
    let (same, found, kept) = touch_dice_lem ds touch in
    (ground arith, λ i. ground (arith, found i), λ h. ground arith)

pub touch_dice-HasFaces :
    (ds : List Dice) (touch : VariantDiceTouch) → HasFaces ds → HasFaces (touch_dice ds touch).0
unfolding touch_dice
touch_dice-HasFaces [] touch f = tt
touch_dice-HasFaces (d ∷ ds) touch f = ground (arith, touch_dice-HasFaces ds touch f.1)

pub length-touch_dice :
    (ds : List Dice) (touch : VariantDiceTouch) → length (touch_dice ds touch).0 ≡ length ds
unfolding touch_dice
length-touch_dice [] touch = refl
length-touch_dice (d ∷ ds) touch = ground (arith, length-touch_dice ds touch)

pub move-HasFaces : (ds : List Dice) → HasFaces ds → HasFaces (move_selected_to_unplayable ds)
unfolding move_selected_to_unplayable
move-HasFaces [] f = tt
move-HasFaces (d ∷ ds) f = (ground arith, move-HasFaces ds f.1)

pub move-NoneSelected : (ds : List Dice) → NoneSelected (move_selected_to_unplayable ds)
unfolding move_selected_to_unplayable
move-NoneSelected [] = tt
move-NoneSelected (d ∷ ds) = (ground arith, move-NoneSelected ds)

pub length-move : (ds : List Dice) → length (move_selected_to_unplayable ds) ≡ length ds
unfolding move_selected_to_unplayable
length-move [] = refl
length-move (d ∷ ds) = omega (arith, length-move ds)

pub reset-HasFaces : (ds : List Dice) → HasFaces ds → HasFaces (reset_dice ds)
unfolding reset_dice
reset-HasFaces [] f = tt
reset-HasFaces (d ∷ ds) f = (f.0, reset-HasFaces ds f.1)

pub reset-NoneSelected : (ds : List Dice) → NoneSelected (reset_dice ds)
unfolding reset_dice
reset-NoneSelected [] = tt
reset-NoneSelected (d ∷ ds) = (refl, reset-NoneSelected ds)

pub length-reset : (ds : List Dice) → length (reset_dice ds) ≡ length ds
unfolding reset_dice
length-reset [] = refl
length-reset (d ∷ ds) = omega (arith, length-reset ds)

-- How many dice a player may still roll, and how many of them are selected.
abbrev pub playable_count : List Dice → ℕ
playable_count [] = 0
playable_count (d ∷ ds) = (if d.playable then 1 else 0) + playable_count ds

abbrev pub chosen_count : List Dice → ℕ
chosen_count [] = 0
chosen_count (d ∷ ds) = (if d.playable && d.selected then 1 else 0) + chosen_count ds

-- Putting dice aside takes exactly the selected ones out of play.
pub move-playable_count :
    (ds : List Dice)
    → playable_count (move_selected_to_unplayable ds) + chosen_count ds ≡ playable_count ds
unfolding move_selected_to_unplayable
move-playable_count [] = refl
move-playable_count (d ∷ ds) = ground (arith, move-playable_count ds)
