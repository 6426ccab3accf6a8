-- ===== src/Farkle/Examples/Players.antt =====
-- The channel of a player's client at concrete inputs (game/farkle/internal/data/player.go).
use mathlib.Core.List.{Sublist}
use dice_server.Prelude.{String, ◌≡◌, refl, true, false, none, List, [], ◌∷◌}
use dice_server.Farkle.Message.{Incoming}
use dice_server.Farkle.Player.{
  new_player_client, sort_message, put_message, take_incoming, set_turn, drain_messages,
}
use dice_server.Farkle.Player.Turns.{
  Reading, PlayerEvent, comes, puts, takes, drains, turns, happen, happen_all, begin, hand, IsHeard,
  happen_all-begin-IsHeard,
}
use dice_server.Farkle.Player.Drained.{incoming-happen_all-drains}

abbrev message : String → Incoming
message variant = record { variant = variant; raw = none }

-- One message comes too early, one asks for the state, one is received and one waits.
abbrev turn_events : List PlayerEvent
turn_events =
    comes (message "early")
    ∷ turns true
    ∷ comes (message "farkle-please-sync")
    ∷ comes (message "farkle-score-roll")
    ∷ puts
    ∷ takes
    ∷ comes (message "farkle-end-turn")
    ∷ puts
    ∷ []

one_waits :
    ((happen_all turn_events begin).client.incoming ≡ message "farkle-end-turn" ∷ [])
    × ((happen_all turn_events begin).received ≡ message "farkle-score-roll" ∷ [])
unfolding new_player_client sort_message put_message take_incoming set_turn
one_waits = (refl, refl)

happen_all-begin-IsHeard_example : IsHeard (happen_all turn_events begin)
happen_all-begin-IsHeard_example = happen_all-begin-IsHeard turn_events

-- The reader has looked at the turn just before it ended.
abbrev late : Reading
late = happen_all (turns true ∷ comes (message "farkle-end-turn") ∷ turns false ∷ []) begin

abbrev meanwhile : List PlayerEvent
meanwhile = puts ∷ comes (message "farkle-score-roll") ∷ puts ∷ []

one_still_waits :
    (happen_all meanwhile (happen drains late)).client.incoming ≡ message "farkle-end-turn" ∷ []
unfolding new_player_client sort_message put_message set_turn drain_messages
one_still_waits = refl

incoming-happen_all-drains_example :
    Sublist (happen_all meanwhile (happen drains late)).client.incoming (hand late.in_hand)
unfolding new_player_client sort_message put_message set_turn
incoming-happen_all-drains_example =
    incoming-happen_all-drains meanwhile late refl (tt, (tt, (tt, tt)))
