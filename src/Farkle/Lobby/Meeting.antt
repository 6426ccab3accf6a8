-- ===== src/Farkle/Lobby/Meeting.antt =====
-- game/farkle/internal/lobby/loop.go: `runLobby` from the start of the two waiting goroutines, and
-- `abandonConnecting`.
--
-- A `Side` is one goroutine with its channel `connected`: it runs, has closed the channel, blocks in
-- sending an error on it, or has returned after a cancellation. A run is a list of moves in any order;
-- a move whose condition does not hold changes nothing, since it cannot be made. `wrap` is
-- `errors.Wrap`; `none` is a nil error.
pub mod Sides
pub mod Fair
pub mod Calm
use dice_server.Prelude.{
  ℕ, String, Bool, true, false, ◌&&◌, Option, none, some, List, [], ◌∷◌, if◌then◌else◌,
}
use dice_server.Connect.{Uuid, LobbyPlayer}
use dice_server.Farkle.Message.{Message, player_joining, terminate}
use dice_server.Farkle.Lobby.Ready.{
  Waiting, Event, arrives, interval, client_closes, cancel, Round, keeps_on, is_ready, client_gone,
  was_canceled, crash, on_event, ask, drop_turn,
}

pub data Side : Type 0 where
  running : Waiting → Side
  connected : Waiting → Side
  blocked : Waiting → Side
  stopped : Waiting → Side

pub data Status : Type 0 where
  meeting : Status
  started : LobbyPlayer → LobbyPlayer → Status
  returned : Option String → Status
  crashed : Status

-- `game_closed` says whether `CloseGame` was called; `goodbye` is what was then sent to both.
pub record Lobby : Type 0 where
  pub first : Side
  pub second : Side
  pub first_is_done : Bool
  pub second_is_done : Bool
  pub canceled : Bool
  pub game_closed : Bool
  pub goodbye : List Message
  pub status : Status

-- `hear_first` and `hear_second` are the receives of the main loop; `first_lets_go` and
-- `second_lets_go` the deferred `SetTurn(false)` of a goroutine that has closed its channel.
pub data Move : Type 0 where
  first_event second_event : Event → Move
  first_lets_go second_lets_go : Move
  hear_first hear_second deadline : Move

-- One round of `waitForReady`, in which a cancellation is taken only if there is one; `none` is a
-- panic. Behind `close(connected)` the main loop can go on before the deferred `SetTurn(false)`, which is
-- `let_go`.
unfoldable pub side_round : Round → Option Side
unfolding drop_turn
side_round (keeps_on w) = some (running w)
side_round (is_ready w) = some (connected w)
side_round (client_gone w) = some (blocked w)
side_round (was_canceled w) = some (stopped (drop_turn w))
side_round crash = none

unfoldable pub let_go : Side → Side
unfolding drop_turn
let_go (running w) = running w
let_go (connected w) = connected (drop_turn w)
let_go (blocked w) = blocked w
let_go (stopped w) = stopped w

-- A cancellation can only be taken where there is one.
unfoldable pub can_come : Bool → Event → Bool
can_come canceled (arrives msg) = true
can_come canceled interval = true
can_come canceled client_closes = true
can_come canceled cancel = canceled

-- The inner `select` of a goroutine whose client has closed.
unfoldable pub leave_blocked : Bool → Event → Waiting → Side
unfolding drop_turn
leave_blocked true cancel w = stopped (drop_turn w)
leave_blocked canceled e w = blocked w

unfoldable pub move_side : Uuid → Bool → Event → Side → Option Side
unfolding side_round on_event ask leave_blocked can_come
move_side player_id canceled e (running w) =
    if can_come canceled e then side_round (on_event player_id e (ask w)) else some (running w)
move_side player_id canceled e (blocked w) = some (leave_blocked canceled e w)
move_side player_id canceled e (connected w) = some (connected w)
move_side player_id canceled e (stopped w) = some (stopped w)

unfoldable pub player_of : Side → LobbyPlayer
player_of (running w) = w.player
player_of (connected w) = w.player
player_of (blocked w) = w.player
player_of (stopped w) = w.player

-- `close(canceled)`, `abandonConnecting` and the return.
unfoldable pub abandon : String → Option String → Lobby → Lobby
abandon reason err l = record l {
  canceled = true;
  game_closed = true;
  goodbye = terminate reason ∷ [];
  status = returned err;
}

-- The condition of the main loop, and the game behind it.
unfoldable pub check_done : Lobby → Lobby
unfolding player_of
check_done l =
    if l.first_is_done && l.second_is_done
    then record l { status = started (player_of l.first) (player_of l.second) }
    else l

unfoldable pub set_first : Option Side → Lobby → Lobby
set_first none l = record l { status = crashed }
set_first (some s) l = record l { first = s }

unfoldable pub set_second : Option Side → Lobby → Lobby
set_second none l = record l { status = crashed }
set_second (some s) l = record l { second = s }

-- A move of the main loop, which runs only while the lobby meets.
unfoldable pub main_move : (Lobby → Lobby) → Status → Lobby → Lobby
main_move f meeting l = f l
main_move f (started p q) l = l
main_move f (returned err) l = l
main_move f crashed l = l

-- The two clients have just been created; `SetTurn(true)` is in `createPlayer`.
unfoldable pub start_waiting : LobbyPlayer → (ℕ → Uuid) → List Message → Waiting
start_waiting player ids sent = record {
  player = player;
  has_turn = true;
  ids = ids;
  mine = sent;
  others = [];
}

-- `runLobby` when the second player has joined.
unfoldable pub gather : LobbyPlayer → LobbyPlayer → (ℕ → Uuid) → (ℕ → Uuid) → Lobby
unfolding start_waiting
gather p q ids ids' = record {
  first = running (start_waiting p ids (player_joining q ∷ []));
  second = running (start_waiting q ids' []);
  first_is_done = false;
  second_is_done = false;
  canceled = false;
  game_closed = false;
  goodbye = [];
  status = meeting;
}

module _ (wrap : Option String → String → Option String) where
  unfoldable pub on_first : Side → Lobby → Lobby
  unfolding check_done abandon drop_turn
  on_first (connected w) l = check_done (record l { first_is_done = true })
  on_first (blocked w) l =
      abandon "player failed to connect"
        (wrap (some "client closed") "first player failed to connect")
        (record l { first = stopped (drop_turn w) })
  on_first (running w) l = l
  on_first (stopped w) l = l

  unfoldable pub on_second : Side → Lobby → Lobby
  unfolding check_done abandon drop_turn
  on_second (connected w) l = check_done (record l { second_is_done = true })
  on_second (blocked w) l =
      abandon "player failed to connect"
        (wrap (some "client closed") "second player failed to connect")
        (record l { second = stopped (drop_turn w) })
  on_second (running w) l = l
  on_second (stopped w) l = l

  unfoldable pub move_lobby : Uuid → Uuid → Move → Lobby → Lobby
  unfolding set_first set_second move_side let_go main_move on_first on_second abandon
  move_lobby first_id second_id (first_event e) l =
      set_first (move_side first_id l.canceled e l.first) l
  move_lobby first_id second_id (second_event e) l =
      set_second (move_side second_id l.canceled e l.second) l
  move_lobby first_id second_id first_lets_go l = set_first (some (let_go l.first)) l
  move_lobby first_id second_id second_lets_go l = set_second (some (let_go l.second)) l
  move_lobby first_id second_id hear_first l = main_move (on_first l.first) l.status l
  move_lobby first_id second_id hear_second l = main_move (on_second l.second) l.status l
  move_lobby first_id second_id deadline l =
      main_move (abandon "player did not connect" (wrap none "players took too long to connect"))
        l.status l

  unfoldable pub run_lobby : Uuid → Uuid → List Move → Lobby → Lobby
  unfolding move_lobby
  run_lobby first_id second_id [] l = l
  run_lobby first_id second_id (m ∷ ms) l =
      run_lobby first_id second_id ms (move_lobby first_id second_id m l)
