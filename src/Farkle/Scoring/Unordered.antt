-- ===== src/Farkle/Scoring/Unordered.antt =====
-- What the order of the dice and that of the map's keys mean to the score
-- (game/farkle/internal/logic/scoring.go).
use mathlib.Core.List.{Permᴰ}
use mathlib.Core.List.Permᴰ.{nil, cons, swap, trans}
use mathlib.Core.Logic.{∥∥₁_elim}
use native.Mathlib.Nat.{ℕ_set}
use mathlib.Mathlib.Data.Multiset.Defs.{Multiset, of_list, coe-eq-coe}
use dice_server.Prelude.{ℕ, ◌≡◌, refl, sym, ◌∙◌, ap, Bool, List, [], ◌∷◌, arith}
use dice_server.Farkle.Dice.{Dice}
use dice_server.Farkle.Scoring.{Counts, get, count_values, score_counts}
use dice_server.Farkle.Scoring.Table.{IsTable}
use dice_server.Farkle.Scoring.Counting.{hand, get-count_values}
use dice_server.Farkle.Scoring.Correct.{score_counts-order}

hand-Permᴰ :
    (include : Bool) (v : ℕ) {ds ds' : List Dice}
    → Permᴰ ds ds'
    → hand include ds v ≡ hand include ds' v
hand-Permᴰ include v nil = refl
hand-Permᴰ include v (cons {a = a} {b = b} e p) =
    let same : hand include (a ∷ []) v ≡ hand include (b ∷ []) v =
      ap (λ d. hand include (d ∷ []) v) e in
    omega (arith, same, hand-Permᴰ include v p)
hand-Permᴰ include v (swap {a = a} {b = b} {a' = a'} {b' = b'} e e') =
    let same : hand include (a ∷ []) v ≡ hand include (b' ∷ []) v =
      ap (λ d. hand include (d ∷ []) v) e in
    let same' : hand include (b ∷ []) v ≡ hand include (a' ∷ []) v =
      ap (λ d. hand include (d ∷ []) v) e' in
    omega (arith, same, same')
hand-Permᴰ include v (trans p p') = hand-Permᴰ include v p ∙ hand-Permᴰ include v p'

-- A map that holds, in any order of its keys, the counts that `countValues` makes of the dice.
pub record Holds (include : Bool) (ds : List Dice) (m : Counts) : Type 0 where
  pub table : IsTable m
  pub counts : (v : ℕ) → get m v ≡ get (count_values ds include) v

hand-Multiset :
    (include : Bool) (v : ℕ) (ds ds' : List Dice)
    → ◌≡◌ {A = Multiset Dice} (of_list ds) (of_list ds')
    → hand include ds v ≡ hand include ds' v
hand-Multiset include v ds ds' same =
    ∥∥₁_elim (coe-eq-coe.0 same) (ℕ_set _ _) (λ p. hand-Permᴰ include v p)

-- The score is one of the multiset of the dice: of dice that are the same but for their order, and in
-- whatever order the map of their counts is ranged over, the score and whether there are extra ones
-- are the same, of any number of dice.
pub score_counts-Multiset :
    (include : Bool) (ds ds' : List Dice) (m m' : Counts)
    → ◌≡◌ {A = Multiset Dice} (of_list ds) (of_list ds')
    → Holds include ds m
    → Holds include ds' m'
    → score_counts m ≡ score_counts m'
score_counts-Multiset include ds ds' m m' same h h' = score_counts-order m m' h.table h'.table (λ v.
    h.counts v
    ∙ get-count_values ds include v
    ∙ hand-Multiset include v ds ds' same
    ∙ sym (get-count_values ds' include v)
    ∙ sym (h'.counts v))
