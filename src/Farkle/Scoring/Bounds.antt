-- ===== src/Farkle/Scoring/Bounds.antt =====
-- How much one selection can be worth (game/farkle/internal/logic/scoring.go).
use mathlib.Core.Path.{fun_ext}
use dice_server.Prelude.{ℕ, zero, suc, ◌*◌, ◌≤◌, Bool, false, List, length, arith}
use dice_server.Farkle.Dice.{Dice}
use dice_server.Farkle.Scoring.{Counts, get, count_values, score_counts}
use dice_server.Farkle.Scoring.Rules.{face_points, IsSmall}
use dice_server.Farkle.Scoring.Table.{IsFace, face_cases, IsTable, score_entries_lem}
use dice_server.Farkle.Scoring.Counting.{
  HasFaces, count_values-IsTable, get-count_values, hand-IsSmall,
}

-- No dice is worth more than a sixth of 8000.
face_points-le : (v c : ℕ) → IsFace v → c ≤ 6 → 3 * face_points v c ≤ 4000 * c
face_points-le v zero f h = ground (arith, face_cases f)
face_points-le v (suc zero) f h = ground (arith, face_cases f)
face_points-le v (suc (suc zero)) f h = ground (arith, face_cases f)
face_points-le v (suc (suc (suc zero))) f h = ground (arith, face_cases f)
face_points-le v (suc (suc (suc (suc zero)))) f h = ground (arith, face_cases f)
face_points-le v (suc (suc (suc (suc (suc zero))))) f h = ground (arith, face_cases f)
face_points-le v (suc (suc (suc (suc (suc (suc zero)))))) f h = ground (arith, face_cases f)
face_points-le v (suc (suc (suc (suc (suc (suc (suc c))))))) f h = absurd (omega arith)

small_counts-le : (m : Counts) → IsTable m → IsSmall (get m) → (score_counts m).0 ≤ 8000
unfolding score_counts
small_counts-le m t small = ground (
  arith,
  score_entries_lem m 0 false t,
  face_points-le 1 (get m 1) (omega arith) (omega arith),
  face_points-le 2 (get m 2) (omega arith) (omega arith),
  face_points-le 3 (get m 3) (omega arith) (omega arith),
  face_points-le 4 (get m 4) (omega arith) (omega arith),
  face_points-le 5 (get m 5) (omega arith) (omega arith),
  face_points-le 6 (get m 6) (omega arith) (omega arith),
)

-- At most six dice are worth at most 8000 points.
pub score_counts-le :
    (ds : List Dice) (include : Bool)
    → HasFaces ds
    → length ds ≤ 6
    → (score_counts (count_values ds include)).0 ≤ 8000
score_counts-le ds include faces six =
    small_counts-le (count_values ds include) (count_values-IsTable ds include faces)
      (rw (fun_ext (get-count_values ds include)) (hand-IsSmall include ds six))
