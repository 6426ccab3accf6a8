-- ===== src/Farkle/Protocol.antt =====
-- What a client is to hear in a game, in which order: a machine over the messages that
-- game/farkle/internal/logic/game.go sends, written down without its code. It hears what is given to
-- `Send`; the answers to a request for the state come from another goroutine and are not among them.
pub mod Hearing
use dice_server.Prelude.{
  ℕ, ◌+◌, ◌%◌, Bool, true, false, Option, none, some, List, [], ◌∷◌, ◌==◌, str_eq, if◌then◌else◌,
}
use dice_server.Connect.{Uuid}
use dice_server.Farkle.Message.{
  Message, game_begin, turn_begin, game_end, dice_roll, update_score, dice_touched, score_roll,
  end_turn, turn_timeout, error, terminate,
}

-- Where the conversation stands; players go by their index. `resting` is between two turns, behind a
-- turn of this player or, with `false`, before the first one. `closed` has the winner.
pub data Phase : Type 0 where
  before : ℕ → Phase
  resting : Bool → ℕ → Phase
  rolling showing_bust choosing touched scored closing : ℕ → Phase
  over : Uuid → Phase
  breaking : Phase
  closed : Option Uuid → Phase

-- `player` are the ids of so many players.
module _ (player : ℕ → Uuid) (count : ℕ) where
  abbrev pub next : ℕ → ℕ
  next i = (i + 1) % count

  abbrev pub only_of : ℕ → Uuid → Phase → Option Phase
  only_of i user_id phase = if user_id == player i then some phase else none

  -- `none`: the message does not belong there.
  abbrev pub say : Phase → Message → Option Phase
  say (before i) (game_begin state) = some (resting false i)
  say (resting behind i) (turn_begin u) = only_of (next i) u (rolling (next i))
  say (resting true i) (game_end u) = only_of i u (over (player i))
  say (rolling i) (dice_roll dice busted deadline) =
      some (if busted then showing_bust i else choosing i)
  say (showing_bust i) (update_score u scores) = only_of i u (closing i)
  say (choosing i) (dice_touched u dice) = only_of i u (touched i)
  say (choosing i) (score_roll u) = only_of i u (scored i)
  say (choosing i) (end_turn u) = only_of i u (closing i)
  say (choosing i) (turn_timeout u) = only_of i u (closing i)
  say (choosing i) (error code text) =
      some (if str_eq code "farkle-server" then breaking else choosing i)
  say (touched i) (update_score u scores) = only_of i u (choosing i)
  say (scored i) (update_score u scores) = only_of i u (rolling i)
  say (closing i) (update_score u scores) = only_of i u (resting true i)
  say (closing i) (game_end u) = only_of (next i) u (over (player (next i)))
  say (over winner) (terminate text) = some (closed (some winner))
  say breaking (terminate text) = some (closed none)
  say phase msg = none

  abbrev pub say_next : Option Phase → Message → Option Phase
  say_next none msg = none
  say_next (some phase) msg = say phase msg

  -- What one client hears of all that was sent.
  abbrev pub hear : ℕ → List (ℕ × Message) → Option Phase → Option Phase
  hear client [] phase = phase
  hear client ((to, msg) ∷ sent) phase =
      hear client sent (if to == client then say_next phase msg else phase)
