-- ===== src/Farkle/Scoring/Counting.antt =====
-- What `countValues` counts (game/farkle/internal/logic/scoring.go).
use dice_server.Prelude.{
  ℕ, ◌+◌, ◌≤◌, ◌≡◌, ◌≢◌, Bool, ◌&&◌, ◌||◌, List, [], ◌∷◌, ◌==◌, if◌then◌else◌, length, All, arith,
}
use dice_server.Farkle.Dice.{Dice}
use dice_server.Farkle.Scoring.{Counts, get, increment, count_die, count_from, count_values}
use dice_server.Farkle.Scoring.Rules.{Hand, sum_faces, IsSmall}
use dice_server.Farkle.Scoring.Table.{IsFace, Lacks, IsTable}

abbrev pub is_counted : Bool → Dice → Bool
is_counted include d = d.playable && (d.selected || include)

-- How many of the dice that count show each face.
abbrev pub hand : Bool → List Dice → Hand
hand include [] v = 0
hand include (d ∷ ds) v =
    (if is_counted include d && d.value == v then 1 else 0) + hand include ds v

abbrev pub HasFaces : List Dice → Type 0
HasFaces = All (λ d. IsFace d.value)

get-increment : (k v : ℕ) (m : Counts) → get (increment k m) v ≡ get m v + (if k == v then 1 else 0)
unfolding increment
get-increment k v [] = ground arith
get-increment k v ((j, c) ∷ m) = ground (arith, get-increment k v m)

increment-Lacks : (k j : ℕ) (m : Counts) → j ≢ k → Lacks j m → Lacks j (increment k m)
unfolding increment
increment-Lacks k j [] h l = (λ e. h (ground arith), tt)
increment-Lacks k j ((i, c) ∷ m) h l = ground (arith, increment-Lacks k j m h l.1)

increment-IsTable : (k : ℕ) (m : Counts) → IsFace k → IsTable m → IsTable (increment k m)
unfolding increment
increment-IsTable k [] f t = (f, tt, tt)
increment-IsTable k ((j, c) ∷ m) f t =
    ground (arith, increment-IsTable k m f t.2, increment-Lacks k j m)

count_from-IsTable :
    (include : Bool) (m : Counts) (ds : List Dice)
    → HasFaces ds
    → IsTable m
    → IsTable (count_from include m ds)
unfolding count_from count_die
count_from-IsTable include m [] f t = t
count_from-IsTable include m (d ∷ ds) f t =
    count_from-IsTable include (count_die include d m) ds f.1
      (ground (arith, increment-IsTable d.value m f.0 t))

get-count_from :
    (include : Bool) (m : Counts) (ds : List Dice) (v : ℕ)
    → get (count_from include m ds) v ≡ get m v + hand include ds v
unfolding count_from count_die
get-count_from include m [] v = omega arith
get-count_from include m (d ∷ ds) v =
    ground (arith, get-count_from include (count_die include d m) ds v, get-increment d.value v m)

pub count_values-IsTable :
    (ds : List Dice) (include : Bool) → HasFaces ds → IsTable (count_values ds include)
unfolding count_values
count_values-IsTable ds include f = count_from-IsTable include [] ds f tt

pub get-count_values :
    (ds : List Dice) (include : Bool) (v : ℕ) → get (count_values ds include) v ≡ hand include ds v
unfolding count_values
get-count_values ds include v = omega (arith, get-count_from include [] ds v)

sum_faces-hand-le : (include : Bool) (ds : List Dice) → sum_faces (hand include ds) ≤ length ds
sum_faces-hand-le include [] = omega arith
sum_faces-hand-le include (d ∷ ds) = ground (arith, sum_faces-hand-le include ds)

pub hand-IsSmall : (include : Bool) (ds : List Dice) → length ds ≤ 6 → IsSmall (hand include ds)
hand-IsSmall include ds h = omega (arith, sum_faces-hand-le include ds)
