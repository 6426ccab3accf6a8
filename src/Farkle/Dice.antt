-- ===== src/Farkle/Dice.antt =====
-- game/farkle/internal/data/dice.go. The global `Roller` is the stream of the numbers that its
-- generator will still yield; `IntN(n)` takes the next one into the range below n. Any results in
-- range come from some stream, so what holds for every stream holds for every generator.
pub mod Faces
use dice_server.Prelude.{
  ℕ, suc, ◌+◌, ◌%◌, String, Bool, true, false, Option, none, some, List, [], ◌∷◌, ltb,
  if◌then◌else◌,
}
use dice_server.Connect.{Uuid, dice_regular, dice_distributions}

pub record Dice : Type 0 where
  pub id : Uuid
  pub value : ℕ
  pub selected : Bool
  pub playable : Bool
  pub variant : String

unfoldable pub new_dice : Uuid → String → Dice
new_dice id variant = record {
  id = id;
  value = 1;
  selected = false;
  playable = true;
  variant = variant;
}

abbrev pub Roller : Type 0
Roller = ℕ → ℕ

unfoldable pub int_n : ℕ → Roller → ℕ × Roller
int_n n r = (r 0 % n, λ i. r (suc i))

abbrev pub regular_weights : List ℕ
regular_weights = 1 ∷ 1 ∷ 1 ∷ 1 ∷ 1 ∷ 1 ∷ []

-- `weights` after the fallback; a Go map yields the zero array where the key is missing.
unfoldable pub weights_of : String → List ℕ
unfolding dice_distributions
weights_of variant = elim (dice_distributions variant) [
  | some weights ↦ weights
  | none ↦ elim (dice_distributions dice_regular) [
    | some weights ↦ weights
    | none ↦ 0 ∷ 0 ∷ 0 ∷ 0 ∷ 0 ∷ 0 ∷ []
  ]
]

unfoldable pub total_weight : List ℕ → ℕ
total_weight [] = 0
total_weight (w ∷ ws) = w + total_weight ws

-- The second loop; `none` is the panic below it.
unfoldable pub pick_face : ℕ → ℕ → ℕ → List ℕ → Option ℕ
pick_face roll i current [] = none
pick_face roll i current (w ∷ ws) =
    let rest = pick_face roll (i + 1) (current + w) ws in
    if ltb roll (current + w) then some (i + 1) else rest

unfoldable pub roll_weighted_dice : String → Roller → Option ℕ × Roller
unfolding weights_of total_weight int_n pick_face
roll_weighted_dice variant r =
    let weights = weights_of variant in
    let (roll, r') = int_n (total_weight weights) r in (pick_face roll 0 0 weights, r')

-- `none` where the roll panics.
unfoldable pub roll : Dice → Roller → Option (Dice × Roller)
unfolding roll_weighted_dice
roll d r =
    let (face, r') = roll_weighted_dice d.variant r in
    if d.playable
    then elim face [ some v ↦ some (record d { value = v }, r') | none ↦ none ]
    else some (d, r)
