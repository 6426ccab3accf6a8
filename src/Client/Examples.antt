-- ===== src/Client/Examples.antt =====
-- Runs of the web socket clients and their manager (game/common/client), and the theorems at
-- concrete inputs.
use dice_server.Prelude.{ℕ, ◌≡◌, refl, true, false, none, some, List, [], ◌∷◌, ◌==◌}
use dice_server.Prelude.Assoc.{lookup, delete}
use dice_server.Client.Socket.{close, new_web_socket_client, send, reconnect, take_outgoing}
use dice_server.Client.Writing.{
  enters, takes, wakes, has_written, WireEvent, client_sends, client_reconnects, in_writer,
  new_wire, run_wire,
}
use dice_server.Client.Writing.Account.{IsAccounted, run_wire-new_wire-IsAccounted}
use dice_server.Client.Socket.Fifo.{
  Event, reads, sends, writes, receives, reconnects, closes, happen_all, fresh, IsFifo,
  happen_all-fresh-IsFifo,
}
use dice_server.Client.Manager.{
  WebSocketManager, new_web_socket_manager, get_client, close_game, close_manager, on_client,
}
use dice_server.Client.Manager.Lookups.{GetsClient}
use dice_server.Client.Manager.Calls.{Call, gets, upgrades, ends, run_calls, run_calls-GetsClient}
use dice_server.Client.Manager.Closing.{close_manager-close_game}
use dice_server.Client.Manager.Ending.{EndsGame, close_game-EndsGame}

abbrev day : List (Event ℕ ℕ)
day =
    reconnects 5
    ∷ sends 1
    ∷ sends 2
    ∷ writes
    ∷ reads 9
    ∷ reconnects 6
    ∷ sends 3
    ∷ receives
    ∷ closes
    ∷ []

happen_all-fresh-IsFifo_example : IsFifo (happen_all day fresh)
happen_all-fresh-IsFifo_example = happen_all-fresh-IsFifo day

-- Game 1 has player 10 with client 0.
abbrev busy : WebSocketManager ℕ ℕ
busy = record {
  games = (1, (10, 0) ∷ []) ∷ (2, []) ∷ [];
  all_closed = false;
  store =
      record {
        conn = some 5;
        generation = 1;
        closing = false;
        incoming = [];
        outgoing = [];
        hung_up = [];
      }
      ∷ [];
}

-- Two players of a game, one of which is connected, and a game that has ended.
abbrev calls : List Call
calls = gets 1 10 ∷ gets 2 10 ∷ upgrades 1 11 5 ∷ ends 2 ∷ []

run_calls-GetsClient_example :
    let m : WebSocketManager ℕ ℕ = run_calls calls new_web_socket_manager in
    GetsClient 2 10 m (get_client 2 10 m)
run_calls-GetsClient_example = run_calls-GetsClient calls 2 10

abbrev less_busy : WebSocketManager ℕ ℕ
less_busy = record {
  games = (2, []) ∷ [];
  all_closed = false;
  store =
      record {
        conn = some 5;
        generation = 1;
        closing = true;
        incoming = [];
        outgoing = [];
        hung_up = 5 ∷ [];
      }
      ∷ [];
}

busy_closes : close_game 1 busy ≡ some less_busy
unfolding close_game lookup delete on_client close
busy_closes = refl

close_game-EndsGame_example : EndsGame 1 busy less_busy
close_game-EndsGame_example = close_game-EndsGame 1 busy less_busy busy_closes

close_manager-close_game_example : close_game 3 (close_manager busy) ≡ none
close_manager-close_game_example = close_manager-close_game 3 busy

-- The loop of the first connection writes while the client reconnects, and goes on with the new channel:
-- it takes the second message for the connection that was closed.
abbrev reconnected_while_writing : List (WireEvent ℕ)
reconnected_while_writing =
    client_reconnects 5
    ∷ in_writer 0 enters
    ∷ client_sends 1
    ∷ in_writer 0 takes
    ∷ client_reconnects 6
    ∷ in_writer 0 (has_written true)
    ∷ in_writer 0 enters
    ∷ client_sends 2
    ∷ in_writer 0 wakes
    ∷ in_writer 0 takes
    ∷ in_writer 0 (has_written false)
    ∷ []

one_lost : (run_wire {A = ℕ} reconnected_while_writing new_wire).lost ≡ 2 ∷ []
unfolding run_wire new_wire new_web_socket_client send reconnect take_outgoing
one_lost = refl

run_wire-new_wire-IsAccounted_example :
    IsAccounted (λ msg. msg == 2) (run_wire {A = ℕ} reconnected_while_writing new_wire)
run_wire-new_wire-IsAccounted_example =
    run_wire-new_wire-IsAccounted ℕ reconnected_while_writing (λ msg. msg == 2)
