-- ===== src/Farkle/Lobby/Meeting/Calm.antt =====
-- What makes a lobby panic (game/farkle/internal/lobby/loop.go; the nil pointer is in `UnmarshalData`
-- of game/common/client/message.go).
use text.Mathlib.TextEquality.{eq_iff}
use dice_server.Prelude.{
  ◌≡◌, ◌≢◌, ◌⊎◌, inl, inr, refl, String, Bool, true, ◌&&◌, not, ◌==◌, Option, none, some, List, [],
  ◌∷◌, All, str_eq, if_intro, if_elim, Option-cases, arith,
}
use dice_server.Connect.{Uuid}
use dice_server.Farkle.Message.{
  Incoming, RawData, Decoded, decoded, bad_data, nil_pointer, VariantDicePick, VariantPlayerReady,
  unmarshal_data, var_dice_pick, var_player_ready,
}
use dice_server.Farkle.Lobby.Ready.{
  Waiting, Event, arrives, interval, client_closes, cancel, Round, keeps_on, is_ready, client_gone,
  was_canceled, crash, on_dice_pick, on_player_ready, on_event, ask, valid_dice_variants,
}
use dice_server.Farkle.Lobby.Meeting.{
  Side, running, connected, blocked, stopped, Status, meeting, started, returned, crashed, Lobby,
  Move, first_event, second_event, first_lets_go, second_lets_go, hear_first, hear_second, deadline,
  side_round, can_come, move_side, set_first, set_second, main_move, check_done, abandon, on_first,
  on_second, move_lobby, run_lobby,
}

-- A pick or a ready message with no data.
abbrev pub IsNilMessage : Incoming → Type 0
IsNilMessage msg =
    (msg.raw ≡ none) × ((msg.variant ≡ var_dice_pick) ⊎ (msg.variant ≡ var_player_ready))

abbrev pub EventHasData : Event → Type 0
EventHasData (arrives msg) = ¬ IsNilMessage msg
EventHasData interval = Unit
EventHasData client_closes = Unit
EventHasData cancel = Unit

abbrev pub MoveHasData : Move → Type 0
MoveHasData (first_event e) = EventHasData e
MoveHasData (second_event e) = EventHasData e
MoveHasData first_lets_go = Unit
MoveHasData second_lets_go = Unit
MoveHasData hear_first = Unit
MoveHasData hear_second = Unit
MoveHasData deadline = Unit

unmarshal_data-eq-nil_pointer :
    {A : Type 0} (read : RawData → Option A) (raw : Option RawData)
    → unmarshal_data read raw ≡ nil_pointer
    → raw ≡ none
unmarshal_data-eq-nil_pointer read none e = refl
unmarshal_data-eq-nil_pointer read (some raw) e = elim (Option-cases (read raw)) [
  | inl bad ↦ absurd (ground arith)
  | inr (a, good) ↦ absurd (ground arith)
]

abbrev RoundIsCalm : Round → Type 0
RoundIsCalm (keeps_on w) = Unit
RoundIsCalm (is_ready w) = Unit
RoundIsCalm (client_gone w) = Unit
RoundIsCalm (was_canceled w) = Unit
RoundIsCalm crash = ⊥

on_dice_pick-RoundIsCalm :
    (player_id : Uuid) (pick : Decoded VariantDicePick) (w : Waiting)
    → pick ≢ nil_pointer
    → RoundIsCalm (on_dice_pick player_id pick w)
unfolding on_dice_pick
on_dice_pick-RoundIsCalm player_id nil_pointer w has = has refl
on_dice_pick-RoundIsCalm player_id bad_data w has = tt
on_dice_pick-RoundIsCalm player_id (decoded pick) w has =
    if_intro RoundIsCalm (not (pick.player_id == player_id)) _ _ tt
      (if_intro RoundIsCalm (not (valid_dice_variants pick.variants)) _ _ tt tt)

on_player_ready-RoundIsCalm :
    (player_id : Uuid) (ready : Decoded VariantPlayerReady) (w : Waiting)
    → ready ≢ nil_pointer
    → RoundIsCalm (on_player_ready player_id ready w)
unfolding on_player_ready
on_player_ready-RoundIsCalm player_id nil_pointer w has = has refl
on_player_ready-RoundIsCalm player_id bad_data w has = tt
on_player_ready-RoundIsCalm player_id (decoded ready) w has =
    if_intro RoundIsCalm (ready.player_id == player_id) _ _ tt tt

on_event-RoundIsCalm :
    (player_id : Uuid) (e : Event) (w : Waiting)
    → EventHasData e
    → RoundIsCalm (on_event player_id e w)
unfolding on_event
on_event-RoundIsCalm player_id (arrives msg) w has =
    if_elim RoundIsCalm (str_eq msg.variant var_dice_pick) _ _
      (λ pick.
        on_dice_pick-RoundIsCalm player_id (unmarshal_data (λ raw. raw.as_dice_pick) msg.raw) w
          (λ e. has (
            unmarshal_data-eq-nil_pointer _ msg.raw e,
            inl ((eq_iff msg.variant var_dice_pick).0 pick),
          )))
      (λ _.
        if_elim RoundIsCalm (str_eq msg.variant var_player_ready) _ _
          (λ ready.
            on_player_ready-RoundIsCalm player_id
              (unmarshal_data (λ raw. raw.as_player_ready) msg.raw) w
              (λ e. has (
                unmarshal_data-eq-nil_pointer _ msg.raw e,
                inr ((eq_iff msg.variant var_player_ready).0 ready),
              )))
          (λ _. tt))
on_event-RoundIsCalm player_id interval w has = tt
on_event-RoundIsCalm player_id client_closes w has = tt
on_event-RoundIsCalm player_id cancel w has = tt

abbrev SideIsCalm : Option Side → Type 0
SideIsCalm none = ⊥
SideIsCalm (some s) = Unit

side_round-SideIsCalm : (r : Round) → RoundIsCalm r → SideIsCalm (side_round r)
unfolding side_round
side_round-SideIsCalm (keeps_on w) h = tt
side_round-SideIsCalm (is_ready w) h = tt
side_round-SideIsCalm (client_gone w) h = tt
side_round-SideIsCalm (was_canceled w) h = tt
side_round-SideIsCalm crash h = h

move_side-SideIsCalm :
    (player_id : Uuid) (canceled : Bool) (e : Event) (s : Side)
    → EventHasData e
    → SideIsCalm (move_side player_id canceled e s)
unfolding move_side
move_side-SideIsCalm player_id canceled e (running w) has =
    if_intro SideIsCalm (can_come canceled e) _ _
      (side_round-SideIsCalm (on_event player_id e (ask w))
        (on_event-RoundIsCalm player_id e (ask w) has))
      tt
move_side-SideIsCalm player_id canceled e (blocked w) has = tt
move_side-SideIsCalm player_id canceled e (connected w) has = tt
move_side-SideIsCalm player_id canceled e (stopped w) has = tt

abbrev pub IsCalm : Status → Type 0
IsCalm meeting = Unit
IsCalm (started p q) = Unit
IsCalm (returned err) = Unit
IsCalm crashed = ⊥

set_first-IsCalm :
    (o : Option Side) (l : Lobby) → SideIsCalm o → IsCalm l.status → IsCalm (set_first o l).status
unfolding set_first
set_first-IsCalm none l side h = side
set_first-IsCalm (some s) l side h = h

set_second-IsCalm :
    (o : Option Side) (l : Lobby) → SideIsCalm o → IsCalm l.status → IsCalm (set_second o l).status
unfolding set_second
set_second-IsCalm none l side h = side
set_second-IsCalm (some s) l side h = h

main_move-IsCalm :
    (f : Lobby → Lobby) (status : Status) (l : Lobby)
    → IsCalm l.status
    → IsCalm (f l).status
    → IsCalm (main_move f status l).status
unfolding main_move
main_move-IsCalm f meeting l h after = after
main_move-IsCalm f (started p q) l h after = h
main_move-IsCalm f (returned err) l h after = h
main_move-IsCalm f crashed l h after = h

check_done-IsCalm : (l : Lobby) → IsCalm l.status → IsCalm (check_done l).status
unfolding check_done
check_done-IsCalm l h =
    if_intro (λ (x : Lobby). IsCalm x.status) (l.first_is_done && l.second_is_done) _ _ tt h

module _ (wrap : Option String → String → Option String) where
  on_first-IsCalm : (s : Side) (l : Lobby) → IsCalm l.status → IsCalm (on_first wrap s l).status
  unfolding on_first abandon
  on_first-IsCalm (connected w) l h = check_done-IsCalm (record l { first_is_done = true }) h
  on_first-IsCalm (blocked w) l h = tt
  on_first-IsCalm (running w) l h = h
  on_first-IsCalm (stopped w) l h = h

  on_second-IsCalm : (s : Side) (l : Lobby) → IsCalm l.status → IsCalm (on_second wrap s l).status
  unfolding on_second abandon
  on_second-IsCalm (connected w) l h = check_done-IsCalm (record l { second_is_done = true }) h
  on_second-IsCalm (blocked w) l h = tt
  on_second-IsCalm (running w) l h = h
  on_second-IsCalm (stopped w) l h = h

  move_lobby-IsCalm :
      (first_id second_id : Uuid) (m : Move) (l : Lobby)
      → MoveHasData m
      → IsCalm l.status
      → IsCalm (move_lobby wrap first_id second_id m l).status
  unfolding move_lobby abandon set_first set_second
  move_lobby-IsCalm first_id second_id (first_event e) l has h =
      set_first-IsCalm (move_side first_id l.canceled e l.first) l
        (move_side-SideIsCalm first_id l.canceled e l.first has) h
  move_lobby-IsCalm first_id second_id (second_event e) l has h =
      set_second-IsCalm (move_side second_id l.canceled e l.second) l
        (move_side-SideIsCalm second_id l.canceled e l.second has) h
  move_lobby-IsCalm first_id second_id first_lets_go l has h = h
  move_lobby-IsCalm first_id second_id second_lets_go l has h = h
  move_lobby-IsCalm first_id second_id hear_first l has h =
      main_move-IsCalm (on_first wrap l.first) l.status l h (on_first-IsCalm l.first l h)
  move_lobby-IsCalm first_id second_id hear_second l has h =
      main_move-IsCalm (on_second wrap l.second) l.status l h (on_second-IsCalm l.second l h)
  move_lobby-IsCalm first_id second_id deadline l has h =
      main_move-IsCalm
        (abandon "player did not connect" (wrap none "players took too long to connect")) l.status l
        h tt

  pub run_lobby-IsCalm :
      (first_id second_id : Uuid) (ms : List Move) (l : Lobby)
      → All MoveHasData ms
      → IsCalm l.status
      → IsCalm (run_lobby wrap first_id second_id ms l).status
  unfolding run_lobby
  run_lobby-IsCalm first_id second_id [] l has h = h
  run_lobby-IsCalm first_id second_id (m ∷ ms) l has h =
      run_lobby-IsCalm first_id second_id ms (move_lobby wrap first_id second_id m l) has.1
        (move_lobby-IsCalm first_id second_id m l has.0 h)
