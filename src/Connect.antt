-- ===== src/Connect.antt =====
-- game/farkle/connect/dice.go, lobby.go and queue.go: what the game master and the game servers
-- share. A uuid.UUID is its 128-bit value, `uuid.Nil` is 0; only its equality is used. A weight and
-- a target are Go `int`s that are never negative here.
use dice_server.Prelude.{ℕ, String, Option, none, some, List, [], ◌∷◌, str_eq, if◌then◌else◌}

abbrev pub Uuid : Type 0
Uuid = ℕ

abbrev pub dice_regular : String
dice_regular = "regular"

abbrev pub dice_even : String
dice_even = "even"

abbrev pub dice_odd : String
dice_odd = "odd"

abbrev pub dice_lucky : String
dice_lucky = "lucky"

-- The lookup `weights, ok := DiceDistributions[variant]`.
unfoldable pub dice_distributions : String → Option (List ℕ)
dice_distributions variant =
    if str_eq variant dice_regular
    then some (1 ∷ 1 ∷ 1 ∷ 1 ∷ 1 ∷ 1 ∷ [])
    else if str_eq variant dice_even
    then some (1 ∷ 3 ∷ 1 ∷ 3 ∷ 1 ∷ 3 ∷ [])
    else if str_eq variant dice_odd
    then some (3 ∷ 1 ∷ 3 ∷ 1 ∷ 3 ∷ 1 ∷ [])
    else if str_eq variant dice_lucky
    then some (5 ∷ 1 ∷ 1 ∷ 1 ∷ 4 ∷ 2 ∷ [])
    else none

pub record LobbyDice : Type 0 where
  pub id : Uuid
  pub variant : String

pub record LobbyPlayer : Type 0 where
  pub user_id : Uuid
  pub username : String
  pub dice_set : List LobbyDice

pub record CreateFarkleRequest : Type 0 where
  pub game_id : Uuid
  pub target : ℕ
  pub player : LobbyPlayer

pub record JoinFarkleRequest : Type 0 where
  pub player : LobbyPlayer

-- `CreateFarkleResponse` and `JoinFarkleResponse` have the same fields.
pub record LobbyResponse : Type 0 where
  pub game_id : Uuid
  pub server_id : Uuid
  pub server_host : String
  pub auth : String
