-- ===== src/Farkle/Scoring/Rules.antt =====
-- The rules of Farkle, as an independent specification of game/farkle/internal/logic/scoring.go:
-- a hand is a number of dice for each face, with no map and no order.
use dice_server.Prelude.{
  ℕ, ◌+◌, ◌-◌, ◌*◌, ◌^◌, ◌≤◌, Bool, false, ◌&&◌, ◌||◌, ltb, leb, ◌==◌, if◌then◌else◌,
}

abbrev pub Hand : Type 0
Hand = ℕ → ℕ

-- What one dice of a face is worth on its own.
abbrev pub single : ℕ → ℕ
single v = if v == 1 then 100 else if v == 5 then 50 else 0

-- What three of a kind are worth; each further one doubles.
abbrev pub triple : ℕ → ℕ
triple v = if v == 1 then 1000 else v * 100

abbrev pub face_points : ℕ → ℕ → ℕ
face_points v c = if leb 3 c then triple v * 2 ^ (c - 3) else single v * c

-- One or two dice of a face that is worth nothing on its own.
abbrev pub is_stray : ℕ → ℕ → Bool
is_stray v c = ltb 0 c && (ltb c 3 && single v == 0)

abbrev pub sum_faces : (ℕ → ℕ) → ℕ
sum_faces f = f 1 + f 2 + f 3 + f 4 + f 5 + f 6

abbrev pub any_face : (ℕ → Bool) → Bool
any_face p = p 1 || (p 2 || (p 3 || (p 4 || (p 5 || p 6))))

abbrev pub points : Hand → ℕ
points c = sum_faces (λ v. face_points v (c v))

abbrev pub has_stray : Hand → Bool
has_stray c = any_face (λ v. is_stray v (c v))

abbrev pub has_run_2_to_5 : Hand → Bool
has_run_2_to_5 c = ltb 0 (c 2) && (ltb 0 (c 3) && (ltb 0 (c 4) && ltb 0 (c 5)))

-- The hand without one dice of each face from low to high.
abbrev pub without_run : ℕ → ℕ → Hand → Hand
without_run low high c v = if leb low v && leb v high then c v - 1 else c v

-- A full straight is worth 1500; any other straight its own score with what the rest is worth.
unfoldable pub rules : Hand → ℕ × Bool
rules c =
    let upper = without_run 2 6 c in
    let lower = without_run 1 5 c in
    if has_run_2_to_5 c && (ltb 0 (c 1) && ltb 0 (c 6))
    then (1500, false)
    else if has_run_2_to_5 c && ltb 0 (c 6)
    then (750 + points upper, has_stray upper)
    else if has_run_2_to_5 c && ltb 0 (c 1)
    then (500 + points lower, has_stray lower)
    else (points c, has_stray c)

abbrev pub IsSmall : Hand → Type 0
IsSmall c = sum_faces c ≤ 6
