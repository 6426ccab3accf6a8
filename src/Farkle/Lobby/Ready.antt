-- ===== src/Farkle/Lobby/Ready.antt =====
-- game/farkle/internal/lobby/loop.go: `waitForReady` and `validDiceVariants`.
--
-- `mine` and `others` are the messages sent to the player and to the other one, in order; that a
-- `Send` fails is ignored in the source. `ids` is the stream of the results of `uuid.New()`. The
-- events of a run are what its `select` takes, in order.
pub mod Dice
pub mod Verdict
use dice_server.Prelude.{
  ℕ, suc, String, Bool, true, false, not, Option, none, some, List, [], ◌∷◌, ◌++◌, ◌==◌, str_eq,
  if◌then◌else◌, length,
}
use dice_server.Connect.{Uuid, LobbyDice, LobbyPlayer, dice_distributions}
use dice_server.Farkle.Message.{
  Message, please_ready, player_ready, dice_picked, Incoming, Decoded, decoded, bad_data,
  nil_pointer, VariantDicePick, VariantPlayerReady, unmarshal_data, var_dice_pick, var_player_ready,
}

pub record Waiting : Type 0 where
  pub player : LobbyPlayer
  pub has_turn : Bool
  pub ids : ℕ → Uuid
  pub mine : List Message
  pub others : List Message

pub data Event : Type 0 where
  arrives : Incoming → Event
  interval client_closes cancel : Event

-- What a round comes to: `keeps_on` is the next round, the others are the returns and the panic.
pub data Round : Type 0 where
  keeps_on : Waiting → Round
  is_ready : Waiting → Round
  client_gone : Waiting → Round
  was_canceled : Waiting → Round
  crash : Round

-- The loop of `validDiceVariants`.
unfoldable pub known_variants : List String → Bool
known_variants [] = true
known_variants (v ∷ vs) =
    let rest = known_variants vs in elim (dice_distributions v) [ none ↦ false | some w ↦ rest ]

unfoldable pub valid_dice_variants : List String → Bool
unfolding known_variants
valid_dice_variants variants = if not (length variants == 6) then false else known_variants variants

-- The loop that fills `diceSet`, whose length is that of the variants behind the guard.
unfoldable pub fill_dice : List String → (ℕ → Uuid) → List LobbyDice × (ℕ → Uuid)
fill_dice [] ids = ([], ids)
fill_dice (v ∷ vs) ids =
    let (rest, ids') = fill_dice vs (λ i. ids (suc i)) in
    (record { id = ids 0; variant = v } ∷ rest, ids')

unfoldable pub send_both : Message → Waiting → Waiting
send_both msg w = record w { mine = w.mine ++ msg ∷ []; others = w.others ++ msg ∷ [] }

unfoldable pub take_pick : Uuid → List LobbyDice × (ℕ → Uuid) → Waiting → Waiting
unfolding send_both
take_pick player_id (dice, ids) w =
    send_both (dice_picked player_id dice)
      (record w { player = record (w.player) { dice_set = dice }; ids = ids })

unfoldable pub on_dice_pick : Uuid → Decoded VariantDicePick → Waiting → Round
unfolding take_pick valid_dice_variants fill_dice
on_dice_pick player_id nil_pointer w = crash
on_dice_pick player_id bad_data w = keeps_on w
on_dice_pick player_id (decoded pick) w =
    if not (pick.player_id == player_id)
    then keeps_on w
    else if not (valid_dice_variants pick.variants)
    then keeps_on w
    else keeps_on (take_pick player_id (fill_dice pick.variants w.ids) w)

unfoldable pub on_player_ready : Uuid → Decoded VariantPlayerReady → Waiting → Round
unfolding send_both
on_player_ready player_id nil_pointer w = crash
on_player_ready player_id bad_data w = keeps_on w
on_player_ready player_id (decoded ready) w =
    if ready.player_id == player_id
    then is_ready (send_both (player_ready player_id) w)
    else keeps_on w

-- The `select`.
unfoldable pub on_event : Uuid → Event → Waiting → Round
unfolding on_dice_pick on_player_ready
on_event player_id (arrives msg) w =
    if str_eq msg.variant var_dice_pick
    then on_dice_pick player_id (unmarshal_data (λ raw. raw.as_dice_pick) msg.raw) w
    else if str_eq msg.variant var_player_ready
    then on_player_ready player_id (unmarshal_data (λ raw. raw.as_player_ready) msg.raw) w
    else keeps_on w
on_event player_id interval w = keeps_on w
on_event player_id client_closes w = client_gone w
on_event player_id cancel w = was_canceled w

-- `Send(CraftPleaseReady())`, with which each round begins.
unfoldable pub ask : Waiting → Waiting
ask w = record w { mine = w.mine ++ please_ready ∷ [] }

-- The deferred `SetTurn(false)`.
unfoldable pub drop_turn : Waiting → Waiting
drop_turn w = record w { has_turn = false }

unfoldable pub after_event : (Waiting → Round) → Round → Round
unfolding drop_turn
after_event loop (keeps_on w) = loop w
after_event loop (is_ready w) = is_ready (drop_turn w)
after_event loop (client_gone w) = client_gone (drop_turn w)
after_event loop (was_canceled w) = was_canceled (drop_turn w)
after_event loop crash = crash

-- `keeps_on` where the events are used up: the loop then waits for the next one.
unfoldable pub wait_for_ready : Uuid → List Event → Waiting → Round
unfolding after_event on_event ask
wait_for_ready player_id [] w = keeps_on (ask w)
wait_for_ready player_id (e ∷ es) w =
    after_event (wait_for_ready player_id es) (on_event player_id e (ask w))
