-- ===== src/Farkle/Protocol/Hearing.antt =====
-- Hearing what is appended to a log.
use dice_server.Prelude.{
  ℕ, ◌+◌, ◌≡◌, refl, ap, ◌∙◌, Option, List, [], ◌∷◌, ◌++◌, map, ◌==◌, if◌then◌else◌, Bool-cases,
  inl, inr, arith,
}
use dice_server.Connect.{Uuid}
use dice_server.Farkle.Message.{Message}
use dice_server.Farkle.Protocol.{Phase, say_next, hear}

-- How often a client is among those that a broadcast reaches.
abbrev pub times : ℕ → List ℕ → ℕ
times client [] = 0
times client (c ∷ cs) = (if c == client then 1 else 0) + times client cs

module _ (player : ℕ → Uuid) (count : ℕ) where
  pub hear-append :
      (client : ℕ) (xs ys : List (ℕ × Message)) (phase : Option Phase)
      → hear player count client (xs ++ ys) phase
        ≡ hear player count client ys (hear player count client xs phase)
  hear-append client [] ys phase = refl
  hear-append client ((to, msg) ∷ xs) ys phase =
      hear-append client xs ys (if to == client then say_next player count phase msg else phase)

  hear-none :
      (client : ℕ) (msg : Message) (cs : List ℕ) (phase : Option Phase)
      → times client cs ≡ 0
      → hear player count client (map (λ c. (c, msg)) cs) phase ≡ phase
  hear-none client msg [] phase none_of = refl
  hear-none client msg (c ∷ cs) phase none_of = elim (Bool-cases (c == client)) [
    | inl same ↦ absurd (ground arith)
    | inr other ↦
        ap
          (λ b.
            hear player count client (map (λ c. (c, msg)) cs)
              (if b then say_next player count phase msg else phase))
          other
        ∙ hear-none client msg cs phase (ground arith)
  ]

  -- A broadcast that reaches a client once is heard once.
  pub hear-map :
      (client : ℕ) (msg : Message) (cs : List ℕ) (phase : Option Phase)
      → times client cs ≡ 1
      → hear player count client (map (λ c. (c, msg)) cs) phase ≡ say_next player count phase msg
  hear-map client msg [] phase once = absurd (omega arith)
  hear-map client msg (c ∷ cs) phase once = elim (Bool-cases (c == client)) [
    | inl same ↦
        ap
          (λ b.
            hear player count client (map (λ c. (c, msg)) cs)
              (if b then say_next player count phase msg else phase))
          same
        ∙ hear-none client msg cs (say_next player count phase msg) (ground arith)
    | inr other ↦
        ap
          (λ b.
            hear player count client (map (λ c. (c, msg)) cs)
              (if b then say_next player count phase msg else phase))
          other
        ∙ hear-map client msg cs phase (ground arith)
  ]
