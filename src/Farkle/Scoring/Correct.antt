-- ===== src/Farkle/Scoring/Correct.antt =====
-- `scoreCounts` against the rules (game/farkle/internal/logic/scoring.go).
use mathlib.Core.Path.{fun_ext}
use native.Mathlib.Nat.{zero-add}
use dice_server.Prelude.{
  ℕ, ◌+◌, ◌<◌, ◌≤◌, ◌≡◌, ◌⊎◌, refl, sym, Bool-cases, ◌∙◌, ap, Bool, true, false, List, length, ltb,
  ◌==◌, ◌&&◌, if◌then◌else◌, inl, inr, ltb→lt, ltb-zero, arith,
}
use dice_server.Farkle.Dice.{Dice}
use dice_server.Farkle.Scoring.{
  Counts, get, score_entries, count_values, has_full_straight, has_upper_straight,
  has_lower_straight, score_counts,
}
use dice_server.Farkle.Scoring.Rules.{
  Hand, rules, IsSmall, has_run_2_to_5, sum_faces, points, has_stray, without_run,
}
use dice_server.Farkle.Scoring.Table.{IsTable, total_count_lem, score_entries_lem}
use dice_server.Farkle.Scoring.Counting.{
  hand, HasFaces, count_values-IsTable, get-count_values, hand-IsSmall,
}

-- `scoreCounts`, read off the hand that its map holds.
abbrev by_hand : Hand → ℕ × Bool
by_hand c =
    if has_run_2_to_5 c && (ltb 0 (c 1) && ltb 0 (c 6))
    then (1500, false)
    else if has_run_2_to_5 c && ltb 0 (c 6)
    then if c 5 == 2 then (800, false) else (750, ltb 5 (sum_faces c))
    else if has_run_2_to_5 c && ltb 0 (c 1)
    then if c 1 == 2
      then (600, false)
      else if c 5 == 2
      then (550, false)
      else (500, ltb 5 (sum_faces c))
    else (points c, has_stray c)

-- Five numbers above 0 with a sum of at most 6: at most one of them is 2.
one_more :
    (a b c d e : ℕ)
    → 0 < a
    → 0 < b
    → 0 < c
    → 0 < d
    → 0 < e
    → a + b + c + d + e ≤ 6
    → ((a ≤ 1) × (b ≤ 1) × (c ≤ 1) × (d ≤ 1) × (e ≤ 1))
      ⊎ (((a ≡ 2) × (b ≤ 1) × (c ≤ 1) × (d ≤ 1) × (e ≤ 1))
          ⊎ (((a ≤ 1) × (b ≡ 2) × (c ≤ 1) × (d ≤ 1) × (e ≤ 1))
              ⊎ (((a ≤ 1) × (b ≤ 1) × (c ≡ 2) × (d ≤ 1) × (e ≤ 1))
                  ⊎ (((a ≤ 1) × (b ≤ 1) × (c ≤ 1) × (d ≡ 2) × (e ≤ 1))
                      ⊎ ((a ≤ 1) × (b ≤ 1) × (c ≤ 1) × (d ≤ 1) × (e ≡ 2))))))
one_more a b c d e ha hb hc hd he h = ground arith

upper_rest :
    (c : Hand)
    → IsSmall c
    → has_run_2_to_5 c ≡ true
    → 0 < c 6
    → c 1 ≡ 0
    → ◌≡◌ {A = ℕ × Bool}
        (if c 5 == 2 then (800, false) else (750, ltb 5 (sum_faces c)))
        (750 + points (without_run 2 6 c), has_stray (without_run 2 6 c))
upper_rest c small run first none =
    elim (one_more (c 2) (c 3) (c 4) (c 5) (c 6) (ground arith) (ground arith) (ground arith)
      (ground arith) (ground arith) (omega arith)) [
        | inl k ↦ ground arith
        | inr (inl k) ↦ ground arith
        | inr (inr (inl k)) ↦ ground arith
        | inr (inr (inr (inl k))) ↦ ground arith
        | inr (inr (inr (inr (inl k)))) ↦ ground arith
        | inr (inr (inr (inr (inr k)))) ↦ ground arith
      ]

lower_rest :
    (c : Hand)
    → IsSmall c
    → has_run_2_to_5 c ≡ true
    → 0 < c 1
    → c 6 ≡ 0
    → ◌≡◌ {A = ℕ × Bool}
        (if c 1 == 2
          then (600, false)
          else if c 5 == 2
          then (550, false)
          else (500, ltb 5 (sum_faces c)))
        (500 + points (without_run 1 5 c), has_stray (without_run 1 5 c))
lower_rest c small run first none =
    elim (one_more (c 1) (c 2) (c 3) (c 4) (c 5) (ground arith) (ground arith) (ground arith)
      (ground arith) (ground arith) (omega arith)) [
        | inl k ↦ ground arith
        | inr (inl k) ↦ ground arith
        | inr (inr (inl k)) ↦ ground arith
        | inr (inr (inr (inl k))) ↦ ground arith
        | inr (inr (inr (inr (inl k)))) ↦ ground arith
        | inr (inr (inr (inr (inr k)))) ↦ ground arith
      ]

-- Two ladders of the same tests agree where their values do.
same_ladder :
    (r l u : Bool) (f a a' b b' p : ℕ × Bool)
    → (r ≡ true → u ≡ true → l ≡ false → a ≡ a')
    → (r ≡ true → l ≡ true → u ≡ false → b ≡ b')
    → (if r && (l && u) then f else if r && u then a else if r && l then b else p)
      ≡ (if r && (l && u) then f else if r && u then a' else if r && l then b' else p)
same_ladder false l u f a a' b b' p ha hb = refl
same_ladder true true true f a a' b b' p ha hb = refl
same_ladder true false true f a a' b b' p ha hb = ha refl refl refl
same_ladder true true false f a a' b b' p ha hb = hb refl refl refl
same_ladder true false false f a a' b b' p ha hb = refl

by_hand-rules : (c : Hand) → IsSmall c → by_hand c ≡ rules c
unfolding rules
by_hand-rules c small =
    same_ladder (has_run_2_to_5 c) (ltb 0 (c 1)) (ltb 0 (c 6)) _ _ _ _ _ _
      (λ run high low. upper_rest c small run (ltb→lt _ _ high) (ltb-zero (c 1) low))
      (λ run low high. lower_rest c small run (ltb→lt _ _ low) (ltb-zero (c 6) high))

abbrev AllPositive : Hand → Type 0
AllPositive c = (0 < c 1) × (0 < c 2) × (0 < c 3) × (0 < c 4) × (0 < c 5) × (0 < c 6)

positive_each : (c : Hand) → has_run_2_to_5 c && (ltb 0 (c 1) && ltb 0 (c 6)) ≡ true → AllPositive c
positive_each c all = ground arith

abbrev AllOne : Hand → Type 0
AllOne c = (c 1 ≡ 1) × (c 2 ≡ 1) × (c 3 ≡ 1) × (c 4 ≡ 1) × (c 5 ≡ 1) × (c 6 ≡ 1)

one_each : (c : Hand) → IsSmall c → AllPositive c → AllOne c
one_each c small (a, b, d, e, f, g) =
    (omega arith, omega arith, omega arith, omega arith, omega arith, omega arith)

full_of_ones :
    (c : Hand)
    → AllOne c
    → c 1 == 1 && (c 2 == 1 && (c 3 == 1 && (c 4 == 1 && (c 5 == 1 && c 6 == 1)))) ≡ true
full_of_ones c ones = rw (ones.0, ones.1, ones.2, ones.3, ones.4, ones.5)

full_test :
    (m : Counts)
    → IsSmall (get m)
    → has_full_straight m ≡ has_run_2_to_5 (get m) && (ltb 0 (get m 1) && ltb 0 (get m 6))
unfolding has_full_straight
full_test m small =
    elim (Bool-cases (has_run_2_to_5 (get m) && (ltb 0 (get m 1) && ltb 0 (get m 6)))) [
      | inl all ↦ rw all (full_of_ones (get m) (one_each (get m) small (positive_each (get m) all)))
      | inr missing ↦ elim (Bool-cases (has_full_straight m)) [
        | inl full ↦ absurd (unfold has_full_straight in ground arith)
        | inr less ↦ less ∙ sym missing
      ]
    ]

upper_test : (m : Counts) → has_upper_straight m ≡ has_run_2_to_5 (get m) && ltb 0 (get m 6)
unfolding has_upper_straight
upper_test m = ground arith

lower_test : (m : Counts) → has_lower_straight m ≡ has_run_2_to_5 (get m) && ltb 0 (get m 1)
unfolding has_lower_straight
lower_test m = ground arith

entries_from_zero :
    (m : Counts) → IsTable m → score_entries 0 false m ≡ (points (get m), has_stray (get m))
entries_from_zero m t =
    score_entries_lem m 0 false t ∙ ap (λ n. (n, has_stray (get m))) (zero-add (points (get m)))

score_counts_of_small : (m : Counts) → IsTable m → IsSmall (get m) → score_counts m ≡ rules (get m)
unfolding score_counts
score_counts_of_small m t small =
    rw (full_test m small, upper_test m, lower_test m, total_count_lem m t, entries_from_zero m t)
      (by_hand-rules (get m) small)

-- Of at most six dice that show faces from 1 to 6, the score of those that count and whether there
-- are extra ones are what the rules say of how many show each face.
pub score_counts-rules :
    (ds : List Dice) (include : Bool)
    → HasFaces ds
    → length ds ≤ 6
    → score_counts (count_values ds include) ≡ rules (hand include ds)
score_counts-rules ds include faces six =
    let same : get (count_values ds include) ≡ hand include ds =
      fun_ext (get-count_values ds include) in
    let small : IsSmall (get (count_values ds include)) = rw same (hand-IsSmall include ds six) in
    score_counts_of_small (count_values ds include) (count_values-IsTable ds include faces) small
    ∙ ap rules same

-- The score does not depend on the order in which the map of counts is ranged over: two maps with
-- faces for keys that hold the same counts have the same score, of any number of dice.
pub score_counts-order :
    (m m' : Counts)
    → IsTable m
    → IsTable m'
    → ((v : ℕ) → get m v ≡ get m' v)
    → score_counts m ≡ score_counts m'
unfolding score_counts has_full_straight has_upper_straight has_lower_straight
score_counts-order m m' t t' same =
    rw
      (
        total_count_lem m t,
        total_count_lem m' t',
        score_entries_lem m 0 false t,
        score_entries_lem m' 0 false t',
        fun_ext same,
      )
      refl
