-- ===== src/Farkle/Lobby/Ready/Verdict.antt =====
-- What decides the wait for a player (game/farkle/internal/lobby/loop.go).
use dice_server.Prelude.{
  ◌≡◌, refl, ap, ◌∙◌, Bool, true, false, Option, none, some, List, [], ◌∷◌, ◌==◌, str_eq,
  if◌then◌else◌, arith,
}
use dice_server.Connect.{Uuid}
use dice_server.Farkle.Message.{RawData, unmarshal_data, var_dice_pick, var_player_ready}
use dice_server.Farkle.Lobby.Ready.{
  Waiting, Event, arrives, interval, client_closes, cancel, Round, keeps_on, is_ready, client_gone,
  was_canceled, crash, on_dice_pick, on_player_ready, on_event, ask, after_event, wait_for_ready,
}

pub data Verdict : Type 0 where
  undecided ready left canceled crashed : Verdict

abbrev pub verdict_of : Round → Verdict
verdict_of (keeps_on w) = undecided
verdict_of (is_ready w) = ready
verdict_of (client_gone w) = left
verdict_of (was_canceled w) = canceled
verdict_of crash = crashed

-- Whether a player's message says that the player with the id is ready.
abbrev pub says_ready : Uuid → RawData → Bool
says_ready player_id raw = elim raw.as_player_ready [
  | some claim ↦ claim.player_id == player_id
  | none ↦ false
]

-- What one event decides on its own: no dice are in it.
abbrev pub message_verdict : Uuid → Bool → Bool → Option RawData → Verdict
message_verdict player_id true claims none = crashed
message_verdict player_id true claims (some raw) = undecided
message_verdict player_id false true none = crashed
message_verdict player_id false true (some raw) =
    if says_ready player_id raw then ready else undecided
message_verdict player_id false false raw = undecided

abbrev pub event_verdict : Uuid → Event → Verdict
event_verdict player_id (arrives msg) =
    message_verdict player_id (str_eq msg.variant var_dice_pick)
      (str_eq msg.variant var_player_ready) msg.raw
event_verdict player_id interval = undecided
event_verdict player_id client_closes = left
event_verdict player_id cancel = canceled

abbrev pub or_else : Verdict → Verdict → Verdict
or_else undecided v = v
or_else ready v = ready
or_else left v = left
or_else canceled v = canceled
or_else crashed v = crashed

-- The first event that decides something.
abbrev pub first_verdict : Uuid → List Event → Verdict
first_verdict player_id [] = undecided
first_verdict player_id (e ∷ es) = or_else (event_verdict player_id e) (first_verdict player_id es)

on_dice_pick-verdict :
    (player_id : Uuid) (raw : Option RawData) (claims : Bool) (w : Waiting)
    → verdict_of (on_dice_pick player_id (unmarshal_data (λ r. r.as_dice_pick) raw) w)
      ≡ message_verdict player_id true claims raw
unfolding on_dice_pick
on_dice_pick-verdict player_id none claims w = refl
on_dice_pick-verdict player_id (some raw) claims w = ground arith

on_player_ready-verdict :
    (player_id : Uuid) (raw : Option RawData) (w : Waiting)
    → verdict_of (on_player_ready player_id (unmarshal_data (λ r. r.as_player_ready) raw) w)
      ≡ message_verdict player_id false true raw
unfolding on_player_ready
on_player_ready-verdict player_id none w = refl
on_player_ready-verdict player_id (some raw) w = ground arith

on_event-verdict :
    (player_id : Uuid) (e : Event) (w : Waiting)
    → verdict_of (on_event player_id e w) ≡ event_verdict player_id e
unfolding on_event
on_event-verdict player_id (arrives msg) w = ground (
  arith,
  on_dice_pick-verdict player_id msg.raw (str_eq msg.variant var_player_ready) w,
  on_player_ready-verdict player_id msg.raw w,
)
on_event-verdict player_id interval w = refl
on_event-verdict player_id client_closes w = refl
on_event-verdict player_id cancel w = refl

after_event-verdict :
    (loop : Waiting → Round) (v v' : Verdict) (r : Round)
    → ((w : Waiting) → verdict_of (loop w) ≡ v')
    → verdict_of r ≡ v
    → verdict_of (after_event loop r) ≡ or_else v v'
unfolding after_event
after_event-verdict loop v v' (keeps_on w) next e = next w ∙ ap (λ x. or_else x v') e
after_event-verdict loop v v' (is_ready w) next e = ap (λ x. or_else x v') e
after_event-verdict loop v v' (client_gone w) next e = ap (λ x. or_else x v') e
after_event-verdict loop v v' (was_canceled w) next e = ap (λ x. or_else x v') e
after_event-verdict loop v v' crash next e = ap (λ x. or_else x v') e

-- The wait for a player ends with the first event that decides it, and as that event says: a message
-- that the player with this id is ready, the end of the client, the cancellation, or the crash on a
-- dice pick or a ready message without data. Other messages, dice picks with data among them, and
-- intervals decide nothing, and without a deciding event the wait goes on.
pub wait_for_ready-verdict :
    (player_id : Uuid) (es : List Event) (w : Waiting)
    → verdict_of (wait_for_ready player_id es w) ≡ first_verdict player_id es
unfolding wait_for_ready
wait_for_ready-verdict player_id [] w = refl
wait_for_ready-verdict player_id (e ∷ es) w =
    after_event-verdict (wait_for_ready player_id es) (event_verdict player_id e)
      (first_verdict player_id es) (on_event player_id e (ask w))
      (λ u. wait_for_ready-verdict player_id es u) (on_event-verdict player_id e (ask w))
