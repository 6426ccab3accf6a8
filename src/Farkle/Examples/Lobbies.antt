-- ===== src/Farkle/Examples/Lobbies.antt =====
-- Lobbies of two players (game/farkle/internal/lobby/loop.go).
use dice_server.Prelude.{
  ℕ, ◌+◌, ◌≡◌, refl, String, true, Option, none, some, List, [], ◌∷◌, length, All, arith,
}
use dice_server.Connect.{
  Uuid, LobbyDice, LobbyPlayer, dice_distributions, dice_even, dice_lucky, dice_odd, dice_regular,
}
use dice_server.Farkle.Message.{var_dice_pick, var_player_ready}
use dice_server.Farkle.Lobby.Ready.{
  Waiting, Event, arrives, interval, client_closes, wait_for_ready,
}
use dice_server.Farkle.Lobby.Ready.Dice.{IsKnown}
use dice_server.Farkle.Lobby.Ready.Verdict.{
  ready, verdict_of, first_verdict, wait_for_ready-verdict,
}
use dice_server.Farkle.Lobby.Meeting.{
  Status, started, returned, Move, first_event, second_event, hear_first, hear_second, deadline,
  start_waiting, gather, run_lobby, Lobby,
}
use dice_server.Farkle.Lobby.Meeting.Sides.{is_connected, IsFair}
use dice_server.Farkle.Lobby.Meeting.Fair.{
  IsSeated, run_lobby-IsSeated, gather-IsFair, run_lobby-IsFair,
}

abbrev pub regular_set : List LobbyDice
regular_set =
    record { id = 1; variant = dice_regular }
    ∷ record { id = 2; variant = dice_regular }
    ∷ record { id = 3; variant = dice_regular }
    ∷ record { id = 4; variant = dice_regular }
    ∷ record { id = 5; variant = dice_regular }
    ∷ record { id = 6; variant = dice_regular }
    ∷ []

abbrev pub ann : LobbyPlayer
ann = record { user_id = 10; username = "ann"; dice_set = regular_set }

abbrev pub bob : LobbyPlayer
bob = record { user_id = 20; username = "bob"; dice_set = regular_set }

pub regular_set-IsKnown : (length regular_set ≡ 6) × All IsKnown regular_set
unfolding dice_distributions
regular_set-IsKnown = ground arith

abbrev pub fresh_ids : ℕ → Uuid
fresh_ids i = 100 + i

abbrev mixed_variants : List String
mixed_variants = dice_lucky ∷ dice_lucky ∷ dice_even ∷ dice_odd ∷ dice_odd ∷ dice_regular ∷ []

abbrev pick_of : Uuid → List String → Event
pick_of player_id variants = arrives (record {
  variant = var_dice_pick;
  raw = some (record {
    as_dice_touch = none;
    as_dice_pick = some (record { player_id = player_id; variants = variants });
    as_player_ready = none;
  });
})

abbrev ready_of : Uuid → Event
ready_of player_id = arrives (record {
  variant = var_player_ready;
  raw = some (record {
    as_dice_touch = none;
    as_dice_pick = none;
    as_player_ready = some (record { player_id = player_id });
  });
})

-- Ann claims to be Bob, picks her dice, and is ready.
abbrev ann_events : List Event
ann_events = ready_of 20 ∷ pick_of 10 mixed_variants ∷ interval ∷ ready_of 10 ∷ client_closes ∷ []

abbrev ann_waiting : Waiting
ann_waiting = start_waiting ann fresh_ids []

ann_gets_ready : first_verdict 10 ann_events ≡ ready
ann_gets_ready = refl

wait_for_ready-verdict_example : verdict_of (wait_for_ready 10 ann_events ann_waiting) ≡ ready
wait_for_ready-verdict_example = wait_for_ready-verdict 10 ann_events ann_waiting

-- An error keeps its reason, and no error stays none.
abbrev pub keep_reason : Option String → String → Option String
keep_reason none context = none
keep_reason (some reason) context = some context

abbrev pub both_ready : List Move
both_ready =
    first_event (pick_of 10 mixed_variants)
    ∷ second_event (ready_of 20)
    ∷ hear_second
    ∷ first_event interval
    ∷ first_event (ready_of 10)
    ∷ hear_first
    ∷ []

abbrev played : Lobby
played = run_lobby keep_reason 10 20 both_ready (gather ann bob fresh_ids fresh_ids)

abbrev players_of : Status → LobbyPlayer × LobbyPlayer
players_of (started a b) = (a, b)
players_of status = (ann, bob)

-- Time runs out with one player ready: the error that is returned is nil.
too_late :
    (run_lobby keep_reason 10 20
      (second_event (ready_of 20) ∷ hear_second ∷ deadline ∷ [])
      (gather ann bob fresh_ids fresh_ids)).status
    ≡ returned none
unfolding run_lobby dice_distributions gather
too_late = refl

both_start : played.status ≡ started (players_of played.status).0 (players_of played.status).1
unfolding run_lobby dice_distributions gather
both_start = refl

run_lobby-IsSeated_example :
    (is_connected played.first ≡ true)
    × (is_connected played.second ≡ true)
    × IsSeated ann (players_of played.status).0
    × IsSeated bob (players_of played.status).1
run_lobby-IsSeated_example =
    run_lobby-IsSeated keep_reason ann bob (players_of played.status).0 (players_of played.status).1
      fresh_ids fresh_ids both_ready regular_set-IsKnown regular_set-IsKnown both_start

run_lobby-IsFair_example : IsFair ann bob played
run_lobby-IsFair_example =
    run_lobby-IsFair keep_reason ann bob 10 20 both_ready (gather ann bob fresh_ids fresh_ids)
      (gather-IsFair ann bob fresh_ids fresh_ids regular_set-IsKnown regular_set-IsKnown)
