-- ===== src/Farkle/Dice/Faces.antt =====
-- What `Roll` yields (game/farkle/internal/data/dice.go).
use dice_server.Prelude.{
  ℕ, zero, suc, ◌+◌, ◌%◌, ◌≤◌, ◌<◌, ◌≡◌, ◌↔◌, String, true, false, some, inl, inr, List, [], ◌∷◌,
  ltb, length, arith, Bool-cases,
}
use dice_server.Farkle.Dice.{
  Dice, Roller, int_n, weights_of, total_weight, pick_face, roll_weighted_dice, roll,
}

-- The weight of the first k faces.
abbrev pub weight_below : ℕ → List ℕ → ℕ
weight_below zero ws = 0
weight_below (suc k) [] = 0
weight_below (suc k) (w ∷ ws) = w + weight_below k ws

pick_face-interval :
    (x i current : ℕ) (ws : List ℕ) (v : ℕ)
    → current ≤ x
    → pick_face x i current ws ≡ some v
    → (k : ℕ) × (v ≡ i + suc k)
      × (current + weight_below k ws ≤ x)
      × (x < current + weight_below (suc k) ws)
      × (k < length ws)
unfolding pick_face
pick_face-interval x i current [] v h e = ground arith
pick_face-interval x i current (w ∷ ws) v h e = elim (Bool-cases (ltb x (current + w))) [
  | inl here ↦ (0, ground arith, ground arith, ground arith, omega arith)
  | inr later ↦
      let (k, value, low, high, fits) =
        pick_face-interval x (i + 1) (current + w) ws v (ground arith) (ground arith) in
      (suc k, omega arith, omega arith, omega arith, omega arith)
]

interval-pick_face :
    (x i current k : ℕ) (ws : List ℕ)
    → current + weight_below k ws ≤ x
    → x < current + weight_below (suc k) ws
    → pick_face x i current ws ≡ some (i + suc k)
unfolding pick_face
interval-pick_face x i current zero [] low high = absurd (omega arith)
interval-pick_face x i current (suc k) [] low high = absurd (omega arith)
interval-pick_face x i current zero (w ∷ ws) low high = ground arith
interval-pick_face x i current (suc k) (w ∷ ws) low high =
    ground (arith, interval-pick_face x (i + 1) (current + w) k ws)

-- The numbers below the total weight that give face k + 1 are an interval as long as its weight.
pub pick_face_iff :
    (x k : ℕ) (ws : List ℕ)
    → (pick_face x 0 0 ws ≡ some (suc k))
      ↔ ((weight_below k ws ≤ x) × (x < weight_below (suc k) ws))
pick_face_iff x k ws =
    (only, λ h. ground (arith, interval-pick_face x 0 0 k ws (omega arith) (omega arith)))
  where
    only :
        pick_face x 0 0 ws ≡ some (suc k) → (weight_below k ws ≤ x) × (x < weight_below (suc k) ws)
    only e =
        let (k', value, low, high, _) = pick_face-interval x 0 0 ws (suc k) (omega arith) e in
        let same : k ≡ k' = omega arith in rw same (omega arith, omega arith)

pick_face_total :
    (x i current : ℕ) (ws : List ℕ)
    → x < current + total_weight ws
    → current ≤ x
    → (v : ℕ) × (pick_face x i current ws ≡ some v)
unfolding pick_face total_weight
pick_face_total x i current [] h low = absurd (omega arith)
pick_face_total x i current (w ∷ ws) h low = elim (Bool-cases (ltb x (current + w))) [
  | inl here ↦ (i + 1, ground arith)
  | inr later ↦
      let (v, e) = pick_face_total x (i + 1) (current + w) ws (omega arith) (ground arith) in
      (v, ground arith)
]

pub weights_of_six :
    (variant : String) → (length (weights_of variant) ≡ 6) × (0 < total_weight (weights_of variant))
unfolding weights_of total_weight
weights_of_six variant = ground arith

roll_weighted_dice_total :
    (variant : String) (r : Roller)
    → (v : ℕ) × (r' : Roller) × (roll_weighted_dice variant r ≡ (some v, r')) × (1 ≤ v) × (v ≤ 6)
unfolding roll_weighted_dice int_n
roll_weighted_dice_total variant r =
    let ws = weights_of variant in
    let (six, some_weight) = weights_of_six variant in
    let (v, e) = pick_face_total (r 0 % total_weight ws) 0 0 ws (omega arith) (omega arith) in
    let (k, value, low, high, fits) =
      pick_face-interval (r 0 % total_weight ws) 0 0 ws v (omega arith) e in
    (v, λ i. r (suc i), rw e, omega arith, omega arith)

-- What a roll makes of a dice: only the value changes, and only of a playable one.
pub record IsRolled (d d' : Dice) : Type 0 where
  pub same_id : d'.id ≡ d.id
  pub same_variant : d'.variant ≡ d.variant
  pub same_selected : d'.selected ≡ d.selected
  pub same_playable : d'.playable ≡ d.playable
  pub fresh : d.playable ≡ true → (1 ≤ d'.value) × (d'.value ≤ 6)
  pub held : d.playable ≡ false → d'.value ≡ d.value

-- A roll never panics, whatever the variant and the generator, and it changes only the value, and
-- that only of a playable dice, to a face from 1 to 6.
pub roll-IsRolled :
    (d : Dice) (r : Roller)
    → (d' : Dice) × (r' : Roller) × (roll d r ≡ some (d', r')) × IsRolled d d'
unfolding roll
roll-IsRolled d r = elim (Bool-cases d.playable) [
  | inl up ↦
      let (v, r', e, low, high) = roll_weighted_dice_total d.variant r in
      (record d { value = v }, r', ground arith, ground arith)
  | inr down ↦ (d, r, ground arith, ground arith)
]
