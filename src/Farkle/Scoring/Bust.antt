-- ===== src/Farkle/Scoring/Bust.antt =====
-- A roll is a bust exactly when no selection of its dice scores
-- (game/farkle/internal/logic/scoring.go).
use native.Mathlib.Nat.{pow-suc}
use dice_server.Prelude.{
  ℕ, zero, suc, ◌-◌, ◌^◌, ◌≤◌, ◌<◌, ◌≡◌, ◌⊎◌, ◌↔◌, ◌∙◌, inl, inr, true, false, List, [], ◌∷◌, ◌==◌,
  if◌then◌else◌, Bool-cases, arith,
}
use dice_server.Farkle.Dice.{Dice}
use dice_server.Farkle.Scoring.{
  Counts, get, count_values, score_counts, has_busted, has_single, has_full_straight,
  has_upper_straight, has_lower_straight,
}
use dice_server.Farkle.Scoring.Table.{
  IsFace, face_cases, IsTable, score_entries_lem, three_of_kind_lem,
}
use dice_server.Farkle.Scoring.Counting.{hand, HasFaces, count_values-IsTable, get-count_values}

-- The same dice, as far as a player who touches them can tell.
abbrev pub SameRoll : List Dice → List Dice → Type 0
SameRoll [] [] = Unit {0}
SameRoll [] (e ∷ es) = ⊥
SameRoll (d ∷ ds) [] = ⊥
SameRoll (d ∷ ds) (e ∷ es) = (e.value ≡ d.value) × (e.playable ≡ d.playable) × SameRoll ds es

-- The selected dice score, with no extra one among them.
abbrev pub IsScoring : List Dice → Type 0
IsScoring es =
    let (score, extra) = score_counts (count_values es false) in (0 < score) × (extra ≡ false)

SameRoll-HasFaces : (ds es : List Dice) → SameRoll ds es → HasFaces ds → HasFaces es
SameRoll-HasFaces [] [] s f = tt
SameRoll-HasFaces [] (e ∷ es) s f = elim s [ ]
SameRoll-HasFaces (d ∷ ds) [] s f = elim s [ ]
SameRoll-HasFaces (d ∷ ds) (e ∷ es) s f = (omega arith, SameRoll-HasFaces ds es s.2 f.1)

hand-SameRoll-le : (ds es : List Dice) (v : ℕ) → SameRoll ds es → hand false es v ≤ hand true ds v
hand-SameRoll-le [] [] v s = omega arith
hand-SameRoll-le [] (e ∷ es) v s = elim s [ ]
hand-SameRoll-le (d ∷ ds) [] v s = elim s [ ]
hand-SameRoll-le (d ∷ ds) (e ∷ es) v s = ground (arith, hand-SameRoll-le ds es v s.2)

-- What a bust says of the counts: no 1, no 5 and no three of a kind.
abbrev IsHopeless : Counts → Type 0
IsHopeless m =
    (get m 1 ≡ 0) × (get m 2 < 3) × (get m 3 < 3) × (get m 4 < 3) × (get m 5 ≡ 0) × (get m 6 < 3)

busted-IsHopeless : (m : Counts) → IsTable m → has_busted m ≡ true → IsHopeless m
unfolding has_busted has_single has_lower_straight has_upper_straight
busted-IsHopeless m t h = ground (arith, three_of_kind_lem m t)

hopeless_score : (m : Counts) → IsTable m → IsHopeless m → (score_counts m).0 ≡ 0
unfolding score_counts has_full_straight has_upper_straight has_lower_straight
hopeless_score m t h = ground (arith, score_entries_lem m 0 false t)

-- A face of which all the dice together score.
abbrev IsWorth : ℕ → ℕ → Type 0
IsWorth v c = (3 ≤ c) ⊎ ((0 < c) × ((v ≡ 1) ⊎ (v ≡ 5)))

unbusted_cases :
    (m : Counts)
    → IsTable m
    → has_busted m ≡ false
    → (0 < get m 1)
      ⊎ ((0 < get m 5) ⊎ ((3 ≤ get m 2) ⊎ ((3 ≤ get m 3) ⊎ ((3 ≤ get m 4) ⊎ (3 ≤ get m 6)))))
unfolding has_busted has_single has_lower_straight has_upper_straight
unbusted_cases m t h = ground (arith, three_of_kind_lem m t)

unbusted-IsFace :
    (m : Counts) → IsTable m → has_busted m ≡ false → (v : ℕ) × IsFace v × IsWorth v (get m v)
unbusted-IsFace m t h = elim (unbusted_cases m t h) [
  | inl a ↦ (1, omega arith, omega arith)
  | inr (inl a) ↦ (5, omega arith, omega arith)
  | inr (inr (inl a)) ↦ (2, omega arith, omega arith)
  | inr (inr (inr (inl a))) ↦ (3, omega arith, omega arith)
  | inr (inr (inr (inr (inl a)))) ↦ (4, omega arith, omega arith)
  | inr (inr (inr (inr (inr a)))) ↦ (6, omega arith, omega arith)
]

-- Select every dice of one face.
choose : ℕ → List Dice → List Dice
choose v [] = []
choose v (d ∷ ds) = record d { selected = d.value == v } ∷ choose v ds

choose-SameRoll : (v : ℕ) (ds : List Dice) → SameRoll ds (choose v ds)
unfolding choose
choose-SameRoll v [] = tt
choose-SameRoll v (d ∷ ds) = ground (arith, choose-SameRoll v ds)

hand-choose :
    (v w : ℕ) (ds : List Dice) → hand false (choose v ds) w ≡ (if v == w then hand true ds v else 0)
unfolding choose
hand-choose v w [] = ground arith
hand-choose v w (d ∷ ds) = ground (arith, hand-choose v w ds)

pow_pos : (k : ℕ) → 0 < 2 ^ k
pow_pos zero = omega arith
pow_pos (suc k) = rw pow-suc (omega (arith, pow_pos k))

-- A map that counts dice of one worthwhile face only.
one_face_scores :
    (m : Counts) (v c : ℕ)
    → IsTable m
    → IsFace v
    → IsWorth v c
    → ((w : ℕ) → get m w ≡ (if v == w then c else 0))
    → let (score, extra) = score_counts m in (0 < score) × (extra ≡ false)
unfolding score_counts has_full_straight has_upper_straight has_lower_straight
one_face_scores m v c t f worth only = ground (
  arith,
  face_cases f,
  score_entries_lem m 0 false t,
  pow_pos (c - 3),
  only 1,
  only 2,
  only 3,
  only 4,
  only 5,
  only 6,
)

subset :
    (ds es : List Dice) (v : ℕ)
    → SameRoll ds es
    → get (count_values es false) v ≤ get (count_values ds true) v
subset ds es v same =
    rw (get-count_values es false v, get-count_values ds true v) (hand-SameRoll-le ds es v same)

busted_no_score :
    (ds es : List Dice)
    → HasFaces ds
    → has_busted (count_values ds true) ≡ true
    → SameRoll ds es
    → ¬ IsScoring es
busted_no_score ds es faces h same scoring =
    let m = count_values ds true in
    let m' = count_values es false in
    let less = λ (v : ℕ). subset ds es v same in
    let hopeless = busted-IsHopeless m (count_values-IsTable ds true faces) h in
    omega (
      arith,
      hopeless_score m' (count_values-IsTable es false (SameRoll-HasFaces ds es same faces))
          (omega (arith, less 1, less 2, less 3, less 4, less 5, less 6)),
    )

unbusted_score :
    (ds : List Dice)
    → HasFaces ds
    → has_busted (count_values ds true) ≡ false
    → (es : List Dice) × SameRoll ds es × IsScoring es
unbusted_score ds faces h =
    let m = count_values ds true in
    let (v, face, worth) = unbusted-IsFace m (count_values-IsTable ds true faces) h in
    let es = choose v ds in
    let same = choose-SameRoll v ds in
    let table = count_values-IsTable es false (SameRoll-HasFaces ds es same faces) in
    (
      es,
      same,
      one_face_scores (count_values es false) v (hand true ds v) table face
          (rw (get-count_values ds true v) at worth)
          (λ w. get-count_values es false w ∙ hand-choose v w ds),
    )

-- Of dice that show faces from 1 to 6, a roll is a bust exactly when no selection of its playable
-- dice scores without extra ones: whenever the game goes on, the player has a scoring move.
pub has_busted_iff :
    (ds : List Dice)
    → HasFaces ds
    → (has_busted (count_values ds true) ≡ true)
      ↔ ((es : List Dice) → SameRoll ds es → ¬ IsScoring es)
has_busted_iff ds faces = (
  λ h es. busted_no_score ds es faces h,
  λ none_scores. elim (Bool-cases (has_busted (count_values ds true))) [
    | inl busted ↦ busted
    | inr more ↦
        let (es, same, scoring) = unbusted_score ds faces more in
        absurd (none_scores es same scoring)
  ],
)
