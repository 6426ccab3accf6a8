-- ===== src/Farkle/Scoring/Table.antt =====
-- Loops over the map of counts (game/farkle/internal/logic/scoring.go), in any order of its keys.
use dice_server.Prelude.{ℕ, ◌+◌, ◌≤◌, ◌≡◌, ◌≢◌, ◌⊎◌, refl, Bool, ◌||◌, [], ◌∷◌, leb, arith}
use dice_server.Farkle.Scoring.{
  Counts, get, total_count, dice_count_multiplier, score_entry, score_entries, has_three_of_kind,
}
use dice_server.Farkle.Scoring.Rules.{face_points, is_stray, sum_faces, any_face, points, has_stray}

abbrev pub IsFace : ℕ → Type 0
IsFace v = (1 ≤ v) × (v ≤ 6)

abbrev pub Lacks : ℕ → Counts → Type 0
Lacks k [] = Unit {0}
Lacks k ((j, c) ∷ m) = (j ≢ k) × Lacks k m

-- The keys are faces, each there once.
abbrev pub IsTable : Counts → Type 0
IsTable [] = Unit {0}
IsTable ((k, c) ∷ m) = IsFace k × Lacks k m × IsTable m

pub face_cases :
    {v : ℕ} → IsFace v → (v ≡ 1) ⊎ ((v ≡ 2) ⊎ ((v ≡ 3) ⊎ ((v ≡ 4) ⊎ ((v ≡ 5) ⊎ (v ≡ 6)))))
face_cases f = omega arith

get-Lacks : (k : ℕ) (m : Counts) → Lacks k m → get m k ≡ 0
get-Lacks k [] l = refl
get-Lacks k ((j, c) ∷ m) l = ground (arith, get-Lacks k m l.1)

score_entry_lem :
    (v c score : ℕ) (extra : Bool)
    → IsFace v
    → score_entry v c score extra ≡ (score + face_points v c, extra || is_stray v c)
unfolding score_entry dice_count_multiplier
score_entry_lem v c score extra f = ground (arith, face_cases f)

pub total_count_lem : (m : Counts) → IsTable m → total_count m ≡ sum_faces (get m)
unfolding total_count
total_count_lem [] t = refl
total_count_lem ((k, c) ∷ m) t =
    ground (arith, face_cases t.0, get-Lacks k m t.1, total_count_lem m t.2)

points-cons :
    (k c : ℕ) (m : Counts)
    → IsFace k
    → get m k ≡ 0
    → points (get ((k, c) ∷ m)) ≡ face_points k c + points (get m)
points-cons k c m f z = ground (arith, face_cases f)

has_stray-cons :
    (k c : ℕ) (m : Counts)
    → IsFace k
    → get m k ≡ 0
    → has_stray (get ((k, c) ∷ m)) ≡ is_stray k c || has_stray (get m)
has_stray-cons k c m f z = ground (arith, face_cases f)

regroup :
    (a b c : ℕ) (x y z : Bool)
    → ◌≡◌ {A = ℕ × Bool} (a + b + c, x || y || z) (a + (b + c), x || (y || z))
regroup a b c x y z = ground arith

pub score_entries_lem :
    (m : Counts) (score : ℕ) (extra : Bool)
    → IsTable m
    → score_entries score extra m ≡ (score + points (get m), extra || has_stray (get m))
unfolding score_entries
score_entries_lem [] score extra t = ground arith
score_entries_lem ((k, c) ∷ m) score extra t =
    let zero_k = get-Lacks k m t.1 in
    rw
      (
        score_entry_lem k c score extra t.0,
        points-cons k c m t.0 zero_k,
        has_stray-cons k c m t.0 zero_k,
        score_entries_lem m (score + face_points k c) (extra || is_stray k c) t.2,
      )
      (regroup score (face_points k c) (points (get m)) extra (is_stray k c) (has_stray (get m)))

pub three_of_kind_lem :
    (m : Counts) → IsTable m → has_three_of_kind m ≡ any_face (λ v. leb 3 (get m v))
unfolding has_three_of_kind
three_of_kind_lem [] t = refl
three_of_kind_lem ((k, c) ∷ m) t =
    ground (arith, face_cases t.0, get-Lacks k m t.1, three_of_kind_lem m t.2)
