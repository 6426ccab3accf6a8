-- ===== src/Farkle/Message.antt =====
-- game/farkle/internal/data/message.go and game/common/client/message.go. What the server sends is a
-- constructor for each `Craft` function, with what its `Variant` struct holds at the time. What it
-- receives is a variant and, where the JSON has `data`, what that unmarshals to at each type that the
-- server reads it at: encoding/json decides this, so any answers are allowed.
use dice_server.Prelude.{ℕ, String, Bool, Option, none, some, List}
use dice_server.Connect.{Uuid, LobbyDice, LobbyPlayer}
use dice_server.Farkle.Dice.{Dice}
use dice_server.Farkle.State.{PlayerScores, GameState}

pub data Message : Type 0 where
  please_ready : Message
  player_ready : Uuid → Message
  player_joining : LobbyPlayer → Message
  dice_picked : Uuid → List LobbyDice → Message
  game_begin : GameState → Message
  please_sync : Message
  sync_state : GameState → Message
  turn_begin : Uuid → Message
  dice_roll : List Dice → Bool → ℕ → Message
  dice_touch : Uuid → Bool → Message
  dice_touched : Uuid → List Dice → Message
  update_score : Uuid → PlayerScores → Message
  turn_timeout : Uuid → Message
  score_roll : Uuid → Message
  end_turn : Uuid → Message
  game_end : Uuid → Message
  error : String → String → Message
  terminate : String → Message

abbrev pub var_dice_pick : String
var_dice_pick = "farkle-dice-pick"

abbrev pub var_player_ready : String
var_player_ready = "farkle-player-ready"

abbrev pub var_please_sync : String
var_please_sync = "farkle-please-sync"

abbrev pub var_dice_touch : String
var_dice_touch = "farkle-dice-touch"

abbrev pub var_score_roll : String
var_score_roll = "farkle-score-roll"

abbrev pub var_end_turn : String
var_end_turn = "farkle-end-turn"

pub record VariantDiceTouch : Type 0 where
  pub dice_id : Uuid
  pub selected : Bool

pub record VariantDicePick : Type 0 where
  pub player_id : Uuid
  pub variants : List String

pub record VariantPlayerReady : Type 0 where
  pub player_id : Uuid

-- The JSON of `data`, by what it unmarshals to; `none` is an error.
pub record RawData : Type 0 where
  pub as_dice_touch : Option VariantDiceTouch
  pub as_dice_pick : Option VariantDicePick
  pub as_player_ready : Option VariantPlayerReady

-- `data` is nil where the JSON has none.
pub record Incoming : Type 0 where
  pub variant : String
  pub raw : Option RawData

pub data Decoded (A : Type 0) : Type 0 where
  decoded : A → Decoded A
  bad_data : Decoded A
  nil_pointer : Decoded A

-- `UnmarshalData`: `*message.Data` panics on a nil pointer.
abbrev pub unmarshal_data : {A : Type 0} → (RawData → Option A) → Option RawData → Decoded A
unmarshal_data read none = nil_pointer
unmarshal_data read (some raw) = elim (read raw) [ some a ↦ decoded a | none ↦ bad_data ]
