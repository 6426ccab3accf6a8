-- ===== src/Farkle/Scoring.antt =====
-- game/farkle/internal/logic/scoring.go. A `map[int]int` is an association list; the theorems below
-- show that neither its order nor the order of the dice matters. A count is a Go `int` that is never
-- negative. `math.Pow(2, k)` is exact on every k that a dice set can give, so it is `2 ^ k`.
pub mod Rules
pub mod Table
pub mod Counting
pub mod Correct
pub mod Bounds
pub mod Bust
pub mod Unordered
use dice_server.Prelude.{
  ℕ, ◌+◌, ◌-◌, ◌*◌, ◌^◌, Bool, true, false, not, ◌&&◌, ◌||◌, List, [], ◌∷◌, ltb, leb, ◌==◌,
  if◌then◌else◌,
}
use dice_server.Farkle.Dice.{Dice}

abbrev pub Counts : Type 0
Counts = List (ℕ × ℕ)

-- `counts[k]`, 0 where the key is missing.
abbrev pub get : Counts → ℕ → ℕ
get [] k = 0
get ((j, c) ∷ m) k = if j == k then c else get m k

-- `counts[k]++`.
unfoldable pub increment : ℕ → Counts → Counts
increment k [] = (k, 1) ∷ []
increment k ((j, c) ∷ m) = if j == k then (j, c + 1) ∷ m else (j, c) ∷ increment k m

abbrev pub score_full_straight : ℕ
score_full_straight = 1500

abbrev pub score_upper_straight : ℕ
score_upper_straight = 750

abbrev pub score_lower_straight : ℕ
score_lower_straight = 500

unfoldable pub count_die : Bool → Dice → Counts → Counts
count_die include_not_selected d counts =
    if not d.playable
    then counts
    else if not d.selected && not include_not_selected
    then counts
    else increment d.value counts

unfoldable pub count_from : Bool → Counts → List Dice → Counts
count_from include counts [] = counts
count_from include counts (d ∷ ds) = count_from include (count_die include d counts) ds

unfoldable pub count_values : List Dice → Bool → Counts
count_values dice include_not_selected = count_from include_not_selected [] dice

unfoldable pub has_single : Counts → Bool
has_single counts = ltb 0 (get counts 1) || ltb 0 (get counts 5)

unfoldable pub has_three_of_kind : Counts → Bool
has_three_of_kind [] = false
has_three_of_kind ((v, count) ∷ m) = leb 3 count || has_three_of_kind m

unfoldable pub has_lower_straight : Counts → Bool
has_lower_straight counts =
    ltb 0 (get counts 1)
    && (ltb 0 (get counts 2)
        && (ltb 0 (get counts 3) && (ltb 0 (get counts 4) && ltb 0 (get counts 5))))

unfoldable pub has_upper_straight : Counts → Bool
has_upper_straight counts =
    ltb 0 (get counts 2)
    && (ltb 0 (get counts 3)
        && (ltb 0 (get counts 4) && (ltb 0 (get counts 5) && ltb 0 (get counts 6))))

unfoldable pub has_full_straight : Counts → Bool
has_full_straight counts =
    get counts 1 == 1
    && (get counts 2 == 1
        && (get counts 3 == 1 && (get counts 4 == 1 && (get counts 5 == 1 && get counts 6 == 1))))

unfoldable pub has_busted : Counts → Bool
has_busted counts =
    not (has_single counts)
    && (not (has_three_of_kind counts)
        && (not (has_lower_straight counts) && not (has_upper_straight counts)))

unfoldable pub total_count : Counts → ℕ
total_count [] = 0
total_count ((v, count) ∷ m) = count + total_count m

unfoldable pub pow_int : ℕ → ℕ → ℕ
pow_int x y = x ^ y

unfoldable pub dice_count_multiplier : ℕ → ℕ → ℕ
unfolding pow_int
dice_count_multiplier base count = base * pow_int 2 (count - 3)

-- The body of the last loop of `scoreCounts`: the `switch` on the value.
unfoldable pub score_entry : ℕ → ℕ → ℕ → Bool → ℕ × Bool
score_entry value count score extra =
    if value == 1
    then (
      if leb 3 count then score + dice_count_multiplier 1000 count else score + count * 100,
      extra,
    )
    else if value == 5
    then (
      if leb 3 count then score + dice_count_multiplier 500 count else score + count * 50,
      extra,
    )
    else if value == 2 || (value == 3 || (value == 4 || value == 6))
    then if leb 3 count
      then (score + dice_count_multiplier (value * 100) count, extra)
      else if ltb 0 count
      then (score, true)
      else (score, extra)
    else (score, extra)

unfoldable pub score_entries : ℕ → Bool → Counts → ℕ × Bool
score_entries score extra [] = (score, extra)
score_entries score extra ((value, count) ∷ m) =
    let (score', extra') = score_entry value count score extra in score_entries score' extra' m

unfoldable pub score_counts : Counts → ℕ × Bool
score_counts counts =
    if has_full_straight counts
    then (score_full_straight, false)
    else if has_upper_straight counts
    then if get counts 5 == 2
      then (score_upper_straight + 50, false)
      else (score_upper_straight, ltb 5 (total_count counts))
    else if has_lower_straight counts
    then if get counts 1 == 2
      then (score_lower_straight + 100, false)
      else if get counts 5 == 2
      then (score_lower_straight + 50, false)
      else (score_lower_straight, ltb 5 (total_count counts))
    else score_entries 0 false counts
