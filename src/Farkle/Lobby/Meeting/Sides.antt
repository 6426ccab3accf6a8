-- ===== src/Farkle/Lobby/Meeting/Sides.antt =====
-- What a lobby keeps while its two goroutines move (game/farkle/internal/lobby/loop.go).
use dice_server.Prelude.{◌≡◌, refl, Bool, true, false, Option, none, some, if_intro, sym, ◌∙◌}
use dice_server.Connect.{Uuid, LobbyPlayer}
use dice_server.Farkle.Lobby.Ready.{
  Waiting, Event, arrives, interval, client_closes, cancel, Round, keeps_on, is_ready, client_gone,
  was_canceled, crash, on_event, ask, drop_turn,
}
use dice_server.Farkle.Lobby.Ready.Dice.{
  IsEquipped, RoundEquipped, on_event-RoundEquipped, ask-IsEquipped, drop_turn-IsEquipped,
}
use dice_server.Farkle.Lobby.Meeting.{
  Side, running, connected, blocked, stopped, Status, meeting, started, returned, crashed, Lobby,
  side_round, can_come, leave_blocked, let_go, move_side, player_of, set_first, set_second,
}

abbrev pub waiting_of : Side → Waiting
waiting_of (running w) = w
waiting_of (connected w) = w
waiting_of (blocked w) = w
waiting_of (stopped w) = w

abbrev pub is_connected : Side → Bool
is_connected (running w) = false
is_connected (connected w) = true
is_connected (blocked w) = false
is_connected (stopped w) = false

abbrev pub SideEquipped : LobbyPlayer → Side → Type 0
SideEquipped p s = IsEquipped p.dice_set p (waiting_of s)

abbrev pub IsFairStatus : Side → Side → Bool → Bool → Status → Type 0
IsFairStatus first second canceled closed meeting = Unit {0}
IsFairStatus first second canceled closed (started a b) =
    (is_connected first ≡ true)
    × (is_connected second ≡ true)
    × (a ≡ player_of first)
    × (b ≡ player_of second)
IsFairStatus first second canceled closed (returned err) = (canceled ≡ true) × (closed ≡ true)
IsFairStatus first second canceled closed crashed = Unit {0}

pub record IsFair (p q : LobbyPlayer) (l : Lobby) : Type 0 where
  pub first_equipped : SideEquipped p l.first
  pub second_equipped : SideEquipped q l.second
  pub first_heard : l.first_is_done ≡ true → is_connected l.first ≡ true
  pub second_heard : l.second_is_done ≡ true → is_connected l.second ≡ true
  pub fair : IsFairStatus l.first l.second l.canceled l.game_closed l.status

abbrev Stays : Side → Side → Type 0
Stays s s' = is_connected s ≡ true → (is_connected s' ≡ true) × (player_of s' ≡ player_of s)

-- A side after a move: still equipped, and connected if it was, with the same player.
abbrev pub IsSideMove : LobbyPlayer → Side → Option Side → Type 0
IsSideMove p s none = Unit {0}
IsSideMove p s (some s') = SideEquipped p s' × Stays s s'

side_round-IsSideMove :
    (p : LobbyPlayer) (w : Waiting) (r : Round)
    → RoundEquipped p.dice_set p r
    → IsSideMove p (running w) (side_round r)
unfolding side_round
side_round-IsSideMove p w (keeps_on u) e = (e, λ c. cc)
side_round-IsSideMove p w (is_ready u) e = (e, λ c. cc)
side_round-IsSideMove p w (client_gone u) e = (e, λ c. cc)
side_round-IsSideMove p w (was_canceled u) e = (drop_turn-IsEquipped p.dice_set p u e, λ c. cc)
side_round-IsSideMove p w crash e = tt

leave_blocked-IsSideMove :
    (p : LobbyPlayer) (canceled : Bool) (e : Event) (w : Waiting)
    → IsEquipped p.dice_set p w
    → IsSideMove p (blocked w) (some (leave_blocked canceled e w))
unfolding leave_blocked
leave_blocked-IsSideMove p false e w s = (s, λ c. (c, refl))
leave_blocked-IsSideMove p true cancel w s = (drop_turn-IsEquipped p.dice_set p w s, λ c. cc)
leave_blocked-IsSideMove p true (arrives msg) w s = (s, λ c. (c, refl))
leave_blocked-IsSideMove p true interval w s = (s, λ c. (c, refl))
leave_blocked-IsSideMove p true client_closes w s = (s, λ c. (c, refl))

pub move_side-IsSideMove :
    (p : LobbyPlayer) (id : Uuid) (canceled : Bool) (e : Event) (s : Side)
    → SideEquipped p s
    → IsSideMove p s (move_side id canceled e s)
unfolding move_side
move_side-IsSideMove p id canceled e (running w) s =
    if_intro (IsSideMove p (running w)) (can_come canceled e) _ _
      (side_round-IsSideMove p w (on_event id e (ask w))
        (on_event-RoundEquipped p.dice_set p id e (ask w) (ask-IsEquipped p.dice_set p w s)))
      (s, λ c. (c, refl))
move_side-IsSideMove p id canceled e (connected w) s = (s, λ c. (c, refl))
move_side-IsSideMove p id canceled e (blocked w) s = leave_blocked-IsSideMove p canceled e w s
move_side-IsSideMove p id canceled e (stopped w) s = (s, λ c. (c, refl))

pub let_go-IsSideMove :
    (p : LobbyPlayer) (s : Side) → SideEquipped p s → IsSideMove p s (some (let_go s))
unfolding let_go player_of drop_turn
let_go-IsSideMove p (running w) e = (e, λ c. cc)
let_go-IsSideMove p (connected w) e = (drop_turn-IsEquipped p.dice_set p w e, λ c. (refl, refl))
let_go-IsSideMove p (blocked w) e = (e, λ c. cc)
let_go-IsSideMove p (stopped w) e = (e, λ c. cc)

status-set_first :
    (s s' second : Side) (canceled closed : Bool) (status : Status)
    → Stays s s'
    → IsFairStatus s second canceled closed status
    → IsFairStatus s' second canceled closed status
status-set_first s s' second canceled closed meeting same f = tt
status-set_first s s' second canceled closed (started a b) same (up, rest, is_a, is_b) =
    let (still, player) = same up in (still, rest, is_a ∙ sym player, is_b)
status-set_first s s' second canceled closed (returned err) same f = f
status-set_first s s' second canceled closed crashed same f = tt

pub set_first-IsFair :
    (p q : LobbyPlayer) (l : Lobby) (o : Option Side)
    → IsSideMove p l.first o
    → IsFair p q l
    → IsFair p q (set_first o l)
unfolding set_first
set_first-IsFair p q l none m f = record {
  first_equipped = f.first_equipped;
  second_equipped = f.second_equipped;
  first_heard = f.first_heard;
  second_heard = f.second_heard;
  fair = tt;
}
set_first-IsFair p q l (some s) (equipped, same) f = record {
  first_equipped = equipped;
  second_equipped = f.second_equipped;
  first_heard = λ d. (same (f.first_heard d)).0;
  second_heard = f.second_heard;
  fair = status-set_first l.first s l.second l.canceled l.game_closed l.status same f.fair;
}

status-set_second :
    (s s' first : Side) (canceled closed : Bool) (status : Status)
    → Stays s s'
    → IsFairStatus first s canceled closed status
    → IsFairStatus first s' canceled closed status
status-set_second s s' first canceled closed meeting same f = tt
status-set_second s s' first canceled closed (started a b) same (rest, up, is_a, is_b) =
    let (still, player) = same up in (rest, still, is_a, is_b ∙ sym player)
status-set_second s s' first canceled closed (returned err) same f = f
status-set_second s s' first canceled closed crashed same f = tt

pub set_second-IsFair :
    (p q : LobbyPlayer) (l : Lobby) (o : Option Side)
    → IsSideMove q l.second o
    → IsFair p q l
    → IsFair p q (set_second o l)
unfolding set_second
set_second-IsFair p q l none m f = record {
  first_equipped = f.first_equipped;
  second_equipped = f.second_equipped;
  first_heard = f.first_heard;
  second_heard = f.second_heard;
  fair = tt;
}
set_second-IsFair p q l (some s) (equipped, same) f = record {
  first_equipped = f.first_equipped;
  second_equipped = equipped;
  first_heard = f.first_heard;
  second_heard = λ d. (same (f.second_heard d)).0;
  fair = status-set_second l.second s l.first l.canceled l.game_closed l.status same f.fair;
}
