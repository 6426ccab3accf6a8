-- ===== src/Farkle/Lobby/Ready/Dice.antt =====
-- The dice that a player brings to a game (game/farkle/internal/lobby/loop.go).
use dice_server.Prelude.{
  ℕ, suc, ◌≡◌, ◌≢◌, refl, String, true, none, List, [], ◌∷◌, ◌++◌, ◌∙◌, ap, ◌==◌, length, All,
  if_elim, if_intro, str_eq, not, arith,
}
use dice_server.Connect.{Uuid, LobbyDice, LobbyPlayer, dice_distributions}
use dice_server.Farkle.Message.{
  Message, please_ready, player_ready, dice_picked, unmarshal_data, Decoded, decoded, bad_data,
  nil_pointer, VariantDicePick, VariantPlayerReady, var_dice_pick, var_player_ready,
}
use dice_server.Farkle.Lobby.Ready.{
  Waiting, Event, arrives, interval, client_closes, cancel, Round, keeps_on, is_ready, client_gone,
  was_canceled, crash, known_variants, valid_dice_variants, fill_dice, take_pick, send_both,
  on_dice_pick, on_player_ready, on_event, ask, after_event, drop_turn, wait_for_ready,
}

abbrev pub IsKnown : LobbyDice → Type 0
IsKnown d = dice_distributions d.variant ≢ none

abbrev announce : List LobbyDice → Message → List LobbyDice
announce dice (dice_picked player_id picked) = picked
announce dice msg = dice

-- The dice set that the last announcement in the messages gives.
abbrev pub announced : List LobbyDice → List Message → List LobbyDice
announced dice [] = dice
announced dice (msg ∷ msgs) = announced (announce dice msg) msgs

announced-append :
    (dice : List LobbyDice) (xs ys : List Message)
    → announced dice (xs ++ ys) ≡ announced (announced dice xs) ys
announced-append dice [] ys = refl
announced-append dice (x ∷ xs) ys = announced-append (announce dice x) xs ys

known_cons :
    (v : String) (vs : List String)
    → known_variants (v ∷ vs) ≡ true
    → (dice_distributions v ≢ none) × (known_variants vs ≡ true)
unfolding known_variants
known_cons v vs known = ground arith

fill_dice-IsKnown :
    (vs : List String) (ids : ℕ → Uuid)
    → known_variants vs ≡ true
    → (length (fill_dice vs ids).0 ≡ length vs) × All IsKnown (fill_dice vs ids).0
unfolding fill_dice known_variants
fill_dice-IsKnown [] ids known = (refl, tt)
fill_dice-IsKnown (v ∷ vs) ids known =
    let (some_weights, rest) = known_cons v vs known in
    let (same_length, all_known) = fill_dice-IsKnown vs (λ i. ids (suc i)) rest in
    (ap suc same_length, (some_weights, all_known))

valid_dice_variants_lem :
    (vs : List String)
    → valid_dice_variants vs ≡ true
    → (length vs ≡ 6) × (known_variants vs ≡ true)
unfolding valid_dice_variants
valid_dice_variants_lem vs valid = ground arith

-- A player with six dice of known variants, which are what both players were told last.
pub record IsEquipped (start : List LobbyDice) (player : LobbyPlayer) (w : Waiting) : Type 0 where
  pub same_id : w.player.user_id ≡ player.user_id
  pub same_name : w.player.username ≡ player.username
  pub six : length w.player.dice_set ≡ 6
  pub known : All IsKnown w.player.dice_set
  pub told : announced start w.mine ≡ w.player.dice_set
  pub told_other : announced start w.others ≡ w.player.dice_set

abbrev pub RoundEquipped : List LobbyDice → LobbyPlayer → Round → Type 0
RoundEquipped start p (keeps_on w) = IsEquipped start p w
RoundEquipped start p (is_ready w) = IsEquipped start p w
RoundEquipped start p (client_gone w) = IsEquipped start p w
RoundEquipped start p (was_canceled w) = IsEquipped start p w
RoundEquipped start p crash = Unit {0}

send-IsEquipped :
    (start : List LobbyDice) (p : LobbyPlayer) (msg : Message) (w : Waiting)
    → announce w.player.dice_set msg ≡ w.player.dice_set
    → IsEquipped start p w
    → IsEquipped start p (send_both msg w)
unfolding send_both
send-IsEquipped start p msg w quiet s = record {
  same_id = s.same_id;
  same_name = s.same_name;
  six = s.six;
  known = s.known;
  told = announced-append start w.mine (msg ∷ []) ∙ ap (λ d. announce d msg) s.told ∙ quiet;
  told_other =
      announced-append start w.others (msg ∷ []) ∙ ap (λ d. announce d msg) s.told_other ∙ quiet;
}

take_pick-IsEquipped :
    (start : List LobbyDice) (p : LobbyPlayer) (player_id : Uuid) (vs : List String) (w : Waiting)
    → valid_dice_variants vs ≡ true
    → IsEquipped start p w
    → IsEquipped start p (take_pick player_id (fill_dice vs w.ids) w)
unfolding take_pick send_both
take_pick-IsEquipped start p player_id vs w valid s =
    let dice = (fill_dice vs w.ids).0 in
    let (six, known) = valid_dice_variants_lem vs valid in
    let (same_length, all_known) = fill_dice-IsKnown vs w.ids known in
    record {
      same_id = s.same_id;
      same_name = s.same_name;
      six = same_length ∙ six;
      known = all_known;
      told = announced-append start w.mine (dice_picked player_id dice ∷ []);
      told_other = announced-append start w.others (dice_picked player_id dice ∷ []);
    }

on_dice_pick-RoundEquipped :
    (start : List LobbyDice) (p : LobbyPlayer) (player_id : Uuid) (sent : Decoded VariantDicePick)
    (w : Waiting)
    → IsEquipped start p w
    → RoundEquipped start p (on_dice_pick player_id sent w)
unfolding on_dice_pick
on_dice_pick-RoundEquipped start p player_id nil_pointer w s = tt
on_dice_pick-RoundEquipped start p player_id bad_data w s = s
on_dice_pick-RoundEquipped start p player_id (decoded pick) w s =
    if_intro (RoundEquipped start p) (not (pick.player_id == player_id)) _ _ s (
      if_elim (RoundEquipped start p) (not (valid_dice_variants pick.variants)) _ _ (λ _. s)
        (λ valid. take_pick-IsEquipped start p player_id pick.variants w (ground arith) s))

on_player_ready-RoundEquipped :
    (start : List LobbyDice) (p : LobbyPlayer) (player_id : Uuid)
    (sent : Decoded VariantPlayerReady) (w : Waiting)
    → IsEquipped start p w
    → RoundEquipped start p (on_player_ready player_id sent w)
unfolding on_player_ready
on_player_ready-RoundEquipped start p player_id nil_pointer w s = tt
on_player_ready-RoundEquipped start p player_id bad_data w s = s
on_player_ready-RoundEquipped start p player_id (decoded claim) w s =
    if_intro (RoundEquipped start p) (claim.player_id == player_id) _ _
      (send-IsEquipped start p (player_ready player_id) w refl s) s

pub on_event-RoundEquipped :
    (start : List LobbyDice) (p : LobbyPlayer) (player_id : Uuid) (e : Event) (w : Waiting)
    → IsEquipped start p w
    → RoundEquipped start p (on_event player_id e w)
unfolding on_event
on_event-RoundEquipped start p player_id (arrives msg) w s =
    if_intro (RoundEquipped start p) (str_eq msg.variant var_dice_pick) _ _
      (on_dice_pick-RoundEquipped start p player_id
        (unmarshal_data (λ raw. raw.as_dice_pick) msg.raw) w s)
      (if_intro (RoundEquipped start p) (str_eq msg.variant var_player_ready) _ _
        (on_player_ready-RoundEquipped start p player_id
          (unmarshal_data (λ raw. raw.as_player_ready) msg.raw) w s)
        s)
on_event-RoundEquipped start p player_id interval w s = s
on_event-RoundEquipped start p player_id client_closes w s = s
on_event-RoundEquipped start p player_id cancel w s = s

pub ask-IsEquipped :
    (start : List LobbyDice) (p : LobbyPlayer) (w : Waiting)
    → IsEquipped start p w
    → IsEquipped start p (ask w)
unfolding ask
ask-IsEquipped start p w s = record {
  same_id = s.same_id;
  same_name = s.same_name;
  six = s.six;
  known = s.known;
  told = announced-append start w.mine (please_ready ∷ []) ∙ s.told;
  told_other = s.told_other;
}

pub drop_turn-IsEquipped :
    (start : List LobbyDice) (p : LobbyPlayer) (w : Waiting)
    → IsEquipped start p w
    → IsEquipped start p (drop_turn w)
unfolding drop_turn
drop_turn-IsEquipped start p w s = ground arith

after_event-RoundEquipped :
    (start : List LobbyDice) (p : LobbyPlayer) (loop : Waiting → Round) (r : Round)
    → ((w : Waiting) → IsEquipped start p w → RoundEquipped start p (loop w))
    → RoundEquipped start p r
    → RoundEquipped start p (after_event loop r)
unfolding after_event
after_event-RoundEquipped start p loop (keeps_on w) next s = next w s
after_event-RoundEquipped start p loop (is_ready w) next s = drop_turn-IsEquipped start p w s
after_event-RoundEquipped start p loop (client_gone w) next s = drop_turn-IsEquipped start p w s
after_event-RoundEquipped start p loop (was_canceled w) next s = drop_turn-IsEquipped start p w s
after_event-RoundEquipped start p loop crash next s = tt

-- Whatever comes in, a player who begins the wait with six dice of known variants, known to both
-- players, has six dice of known variants wherever the wait stands or ends without a crash, under the
-- same name and id, and they are the dice that both players were told last.
pub wait_for_ready-RoundEquipped :
    (start : List LobbyDice) (p : LobbyPlayer) (player_id : Uuid) (es : List Event) (w : Waiting)
    → IsEquipped start p w
    → RoundEquipped start p (wait_for_ready player_id es w)
unfolding wait_for_ready
wait_for_ready-RoundEquipped start p player_id [] w s = ask-IsEquipped start p w s
wait_for_ready-RoundEquipped start p player_id (e ∷ es) w s =
    after_event-RoundEquipped start p (wait_for_ready player_id es) (on_event player_id e (ask w))
      (λ u. wait_for_ready-RoundEquipped start p player_id es u)
      (on_event-RoundEquipped start p player_id e (ask w) (ask-IsEquipped start p w s))
