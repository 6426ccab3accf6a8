-- ===== src/Farkle/Player.antt =====
-- game/farkle/internal/data/player.go: a player's client, a buffered channel of the messages that
-- arrive in the player's turn over the web socket client. `connection` is that underlying client.
pub mod Turns
pub mod Drained
use dice_server.Prelude.{
  ℕ, Bool, true, false, not, Option, none, some, List, [], ◌∷◌, ◌++◌, ltb, str_eq, if◌then◌else◌,
  length,
}
use dice_server.Farkle.State.{GameState}
use dice_server.Farkle.Message.{Message, sync_state, Incoming, var_please_sync}

abbrev pub message_limit : ℕ
message_limit = 16

pub record PlayerClient : Type 0 where
  pub has_turn : Bool
  pub incoming : List Incoming
  pub game_state_handler : Option (Option GameState)

unfoldable pub new_player_client : PlayerClient
new_player_client = record { has_turn = false; incoming = []; game_state_handler = none }

-- The state that the handler answers, `none` where there is no handler or it answers nil.
unfoldable pub state_now : Option (Option GameState) → Option GameState
state_now none = none
state_now (some answer) = answer

unfoldable pub sync_reply : Option GameState → List Message
sync_reply none = []
sync_reply (some state) = sync_state state ∷ []

-- What `readingLoop` does with a message before the last `select`: the message, if it comes to that,
-- and what is sent back.
unfoldable pub sort_message : PlayerClient → Incoming → Option Incoming × List Message
unfolding state_now sync_reply
sort_message c msg =
    if str_eq msg.variant var_please_sync
    then (none, sync_reply (state_now c.game_state_handler))
    else if not c.has_turn
    then (none, [])
    else (some msg, [])

-- The last `select` of `readingLoop`.
unfoldable pub put_message : Incoming → PlayerClient → PlayerClient
put_message msg c =
    if ltb (length c.incoming) message_limit
    then record c { incoming = c.incoming ++ msg ∷ [] }
    else c

-- The message that a `Receive` gets out of the channel, if one is there.
unfoldable pub take_incoming : List Incoming → PlayerClient → Option (Incoming × PlayerClient)
take_incoming [] c = none
take_incoming (msg ∷ rest) c = some (msg, record c { incoming = rest })

unfoldable pub set_turn : PlayerClient → Bool → PlayerClient
set_turn c is_my_turn = record c { has_turn = is_my_turn }

unfoldable pub set_game_state_handler : PlayerClient → Option GameState → PlayerClient
set_game_state_handler c answer = record c { game_state_handler = some answer }

unfoldable pub drain_messages : PlayerClient → PlayerClient
drain_messages c = record c { incoming = [] }

pub data Error : Type 0 where
  client_closed recv_timeout : Error

-- What can wake a blocked `Receive`.
pub data Wake : Type 0 where
  closing : Wake
  delivered : Incoming → Wake
  timer : Wake

pub data Received : Type 0 where
  received : Incoming → Received
  failure : Error → Received
  blocked : Received

-- `Receive`, and the same code of `WebSocketClient.Receive`: one `select`, of which only the second
-- has a case for the timer. `overdue` is `timeout < 0`.
unfoldable pub receive : Bool → Wake → Received
receive overdue closing = failure client_closed
receive overdue (delivered msg) = received msg
receive true timer = blocked
receive false timer = failure recv_timeout
