-- ===== src/Farkle/State.antt =====
-- game/farkle/internal/data/state.go. Scores and times are Go integers that are never negative here.
-- A time is a number of nanoseconds, a deadline the Unix seconds that the source keeps.
use dice_server.Prelude.{ℕ, List}
use dice_server.Connect.{Uuid, LobbyPlayer}
use dice_server.Farkle.Dice.{Dice}

pub record PlayerScores : Type 0 where
  pub total : ℕ
  pub turn : ℕ
  pub selected : ℕ

pub record PlayerState : Type 0 where
  pub info : LobbyPlayer
  pub scores : PlayerScores
  pub dice : List Dice

pub record GameState : Type 0 where
  pub id : Uuid
  pub target : ℕ
  pub pick_seconds : ℕ
  pub pick_deadline : ℕ
  pub current_player : Uuid
  pub players : List PlayerState
