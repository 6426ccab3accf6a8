-- ===== src/Client/Socket.antt =====
-- game/common/client/client.go: a web socket client and its two buffered channels. A connection is a
-- number. `generation` counts the `reconnected` channels: all but the last one are closed. `hung_up`
-- are the connections that the client has closed. One step of each loop is a function; the sockets
-- and the choice of the next step are outside.
pub mod Fifo
use dice_server.Prelude.{
  ℕ, ◌+◌, Bool, true, false, Option, none, some, List, [], ◌∷◌, ◌++◌, ltb, if◌then◌else◌, length,
}

abbrev pub message_buffer_limit : ℕ
message_buffer_limit = 32

-- `A` is what comes in, `B` what goes out.
pub record WebSocketClient (A B : Type 0) : Type 0 where
  pub conn : Option ℕ
  pub generation : ℕ
  pub closing : Bool
  pub incoming : List A
  pub outgoing : List B
  pub hung_up : List ℕ

-- `conn.Close()`, where there is a connection.
unfoldable pub hang_up : Option ℕ → List ℕ → List ℕ
hang_up none closed = closed
hang_up (some c) closed = c ∷ closed

module _ {A B : Type 0} where
  unfoldable pub new_web_socket_client : WebSocketClient A B
  new_web_socket_client = record {
    conn = none;
    generation = 0;
    closing = false;
    incoming = [];
    outgoing = [];
    hung_up = [];
  }

  -- The `select` of `readingLoop` on a message that was read.
  unfoldable pub read_one : A → WebSocketClient A B → WebSocketClient A B
  read_one msg client =
      if ltb (length client.incoming) message_buffer_limit
      then record client { incoming = client.incoming ++ msg ∷ [] }
      else client

  -- `Send`: whether the message was taken, and the client afterwards.
  unfoldable pub send : B → WebSocketClient A B → Bool × WebSocketClient A B
  send msg client =
      if ltb (length client.outgoing) message_buffer_limit
      then (true, record client { outgoing = client.outgoing ++ msg ∷ [] })
      else (false, client)

  unfoldable pub take_from : List B → WebSocketClient A B → Option (B × WebSocketClient A B)
  take_from [] client = none
  take_from (msg ∷ rest) client = some (msg, record client { outgoing = rest })

  -- The message that `writingLoop` takes out of the channel, if one is there.
  unfoldable pub take_outgoing : WebSocketClient A B → Option (B × WebSocketClient A B)
  unfolding take_from
  take_outgoing client = take_from client.outgoing client

  unfoldable pub receive_from : List A → WebSocketClient A B → Option (A × WebSocketClient A B)
  receive_from [] client = none
  receive_from (msg ∷ rest) client = some (msg, record client { incoming = rest })

  -- The message that `Receive` takes out of the channel, if one is there; which case of its `select`
  -- is taken is in Farkle.Player.
  unfoldable pub receive_next : WebSocketClient A B → Option (A × WebSocketClient A B)
  unfolding receive_from
  receive_next client = receive_from client.incoming client

  unfoldable pub reconnect : ℕ → WebSocketClient A B → WebSocketClient A B
  unfolding hang_up
  reconnect conn client = record client {
    conn = some conn;
    generation = client.generation + 1;
    hung_up = hang_up client.conn client.hung_up;
  }

  unfoldable pub close : WebSocketClient A B → WebSocketClient A B
  unfolding hang_up
  close client = record client { closing = true; hung_up = hang_up client.conn client.hung_up }
