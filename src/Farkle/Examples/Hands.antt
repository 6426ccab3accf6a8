-- ===== src/Farkle/Examples/Hands.antt =====
-- Dice and hands: scoring_test.go and data/dice.go at concrete inputs.
use dice_server.Prelude.{
  ℕ, ◌+◌, ◌≤◌, ◌<◌, ◌≡◌, ◌↔◌, refl, Bool, true, false, some, List, [], ◌∷◌, arith,
}
use dice_server.Farkle.Dice.{Dice, Roller, pick_face}
use dice_server.Farkle.Dice.Faces.{weight_below, pick_face_iff}
use dice_server.Farkle.Scoring.{
  Counts, count_values, score_counts, has_busted, count_from, count_die, increment, score_entries,
  score_entry, dice_count_multiplier, has_full_straight, has_upper_straight, has_lower_straight,
  has_single, has_three_of_kind,
}
use dice_server.Farkle.Scoring.Rules.{rules}
use dice_server.Farkle.Scoring.Counting.{hand}
use dice_server.Farkle.Scoring.Correct.{score_counts-rules}
use dice_server.Farkle.Scoring.Unordered.{score_counts-Multiset}
use mathlib.Core.List.Permᴰ.{swap}
use mathlib.Mathlib.Data.Multiset.Defs.{coe-eq-coe}
use dice_server.Farkle.Scoring.Bounds.{score_counts-le}
use dice_server.Farkle.Scoring.Bust.{SameRoll, IsScoring, has_busted_iff}
use dice_server.Farkle.Game.{has_playable, roll_dice}
use dice_server.Farkle.Game.Rolled.{AreRolled, roll_dice-AreRolled}

abbrev show_dice : ℕ → ℕ → Bool → Dice
show_dice i v s = record { id = i; value = v; selected = s; playable = true; variant = "regular" }

-- 1, 2, 3, 4, 5 and another 5, all selected.
abbrev lower_with_five : List Dice
lower_with_five =
    show_dice 1 1 true
    ∷ show_dice 2 2 true
    ∷ show_dice 3 3 true
    ∷ show_dice 4 4 true
    ∷ show_dice 5 5 true
    ∷ show_dice 6 5 true
    ∷ []

abbrev six_ones : List Dice
six_ones =
    show_dice 1 1 true
    ∷ show_dice 2 1 true
    ∷ show_dice 3 1 true
    ∷ show_dice 4 1 true
    ∷ show_dice 5 1 true
    ∷ show_dice 6 1 true
    ∷ []

abbrev no_score : List Dice
no_score =
    show_dice 1 2 false
    ∷ show_dice 2 2 false
    ∷ show_dice 3 3 false
    ∷ show_dice 4 4 false
    ∷ show_dice 5 6 false
    ∷ show_dice 6 6 false
    ∷ []

lower_with_five_scores : score_counts (count_values lower_with_five false) ≡ (550, false)
unfolding score_counts count_values count_from count_die increment has_full_straight
    has_upper_straight has_lower_straight
lower_with_five_scores = refl

six_ones_score : score_counts (count_values six_ones false) ≡ (8000, false)
unfolding score_counts count_values count_from count_die increment has_full_straight
    has_upper_straight has_lower_straight score_entries score_entry dice_count_multiplier
six_ones_score = refl

two_and_four : Counts
two_and_four = (2, 2) ∷ (4, 1) ∷ []

extra_dice_score : score_counts two_and_four ≡ (0, true)
unfolding two_and_four score_counts has_full_straight has_upper_straight has_lower_straight
    score_entries score_entry
extra_dice_score = refl

no_score_busts : has_busted (count_values no_score true) ≡ true
unfolding has_busted has_single has_three_of_kind has_upper_straight has_lower_straight count_values
    count_from count_die increment
no_score_busts = refl

score_counts-rules_example :
    score_counts (count_values lower_with_five false) ≡ rules (hand false lower_with_five)
score_counts-rules_example = score_counts-rules lower_with_five false (omega arith) (omega arith)

score_counts-le_example : (score_counts (count_values six_ones false)).0 ≤ 8000
score_counts-le_example = score_counts-le six_ones false (omega arith) (omega arith)

abbrev one_three_one : List Dice
one_three_one = show_dice 1 1 true ∷ show_dice 2 3 true ∷ show_dice 3 1 true ∷ []

abbrev three_one_one : List Dice
three_one_one = show_dice 2 3 true ∷ show_dice 1 1 true ∷ show_dice 3 1 true ∷ []

abbrev ones_and_three : Counts
ones_and_three = (1, 2) ∷ (3, 1) ∷ []

abbrev three_and_ones : Counts
three_and_ones = (3, 1) ∷ (1, 2) ∷ []

score_counts-Multiset_example : score_counts three_and_ones ≡ score_counts ones_and_three
unfolding count_values count_from count_die increment
score_counts-Multiset_example =
    score_counts-Multiset false one_three_one three_one_one three_and_ones ones_and_three
      (coe-eq-coe.1 ∣ swap refl refl ∣₁)
      (record { table = omega arith; counts = λ v. ground arith })
      (record { table = omega arith; counts = λ v. ground arith })

has_busted_iff_example :
    (has_busted (count_values no_score true) ≡ true)
    ↔ ((es : List Dice) → SameRoll no_score es → ¬ IsScoring es)
has_busted_iff_example = has_busted_iff no_score (omega arith)

abbrev odd_weights : List ℕ
odd_weights = 3 ∷ 1 ∷ 3 ∷ 1 ∷ 3 ∷ 1 ∷ []

pick_face_iff_example :
    (pick_face 5 0 0 odd_weights ≡ some 3)
    ↔ ((weight_below 2 odd_weights ≤ 5) × (5 < weight_below 3 odd_weights))
pick_face_iff_example = pick_face_iff 5 2 odd_weights

abbrev counting : Roller
counting i = i + 4

roll_dice-AreRolled_example :
    (es : List Dice) × (r' : Roller) × (roll_dice no_score counting ≡ some (es, r'))
    × AreRolled (has_playable no_score) no_score es
roll_dice-AreRolled_example = roll_dice-AreRolled no_score counting
