-- ===== src/Client/Writing.antt =====
-- game/common/client/client.go: the writing loops of a client, one for each connection that it has had,
-- in any order with its other methods. A loop that writes while the client reconnects reads the new
-- `reconnected` channel in its next `select`.
pub mod Account
use dice_server.Prelude.{
  ℕ, Bool, true, false, not, ◌&&◌, ◌==◌, Option, none, some, List, [], ◌∷◌, ◌++◌, if◌then◌else◌,
  get_elem?, set,
}
use dice_server.Client.Socket.{
  WebSocketClient, new_web_socket_client, send, take_outgoing, reconnect, close,
}

-- Where a loop stands: before its `select`; in it, with the `reconnected` channel that it has read;
-- in `WriteJSON`; returned.
pub data Writing (B : Type 0) : Type 0 where
  looping : Writing B
  selecting : ℕ → Writing B
  writing : B → Writing B
  ended : Writing B

pub record Writer (B : Type 0) : Type 0 where
  pub conn : ℕ
  pub stands : Writing B

-- `accepted` are the messages that `Send` took, `written` those that went over a connection, `lost`
-- those whose writing failed.
pub record Wire (A B : Type 0) : Type 0 where
  pub client : WebSocketClient A B
  pub writers : List (Writer B)
  pub accepted : List B
  pub written : List (ℕ × B)
  pub lost : List B

-- `enters` is the beginning of the `select`; `takes`, `wakes` are its cases, the last one for both
-- channels that can be closed; `has_written` is the result of `WriteJSON`, true without an error.
pub data WriterEvent : Type 0 where
  enters takes wakes : WriterEvent
  has_written : Bool → WriterEvent

pub data WireEvent (B : Type 0) : Type 0 where
  client_sends : B → WireEvent B
  client_reconnects : ℕ → WireEvent B
  client_closes : WireEvent B
  in_writer : ℕ → WriterEvent → WireEvent B

module _ {A B : Type 0} where
  unfoldable pub new_wire : Wire A B
  unfolding new_web_socket_client
  new_wire = record {
    client = new_web_socket_client;
    writers = [];
    accepted = [];
    written = [];
    lost = [];
  }

  unfoldable pub move_writer : ℕ → Writer B → Writing B → Wire A B → Wire A B
  move_writer i w stands r = record r { writers = set r.writers i (record w { stands = stands }) }

  unfoldable pub write_taken : ℕ → Writer B → Option (B × WebSocketClient A B) → Wire A B → Wire A B
  unfolding move_writer
  write_taken i w none r = r
  write_taken i w (some (msg, client)) r =
      move_writer i w (writing msg) (record r { client = client })

  -- The reconnected channel with this number, or the closing channel, is closed.
  unfoldable pub is_woken : ℕ → WebSocketClient A B → Bool
  is_woken generation client = not (generation == client.generation && not client.closing)

  unfoldable pub after_write : ℕ → Writer B → B → Bool → Wire A B → Wire A B
  unfolding move_writer
  after_write i w msg true r =
      move_writer i w looping (record r { written = r.written ++ (w.conn, msg) ∷ [] })
  after_write i w msg false r = move_writer i w ended (record r { lost = r.lost ++ msg ∷ [] })

  -- One step of the loop; an event that cannot happen changes nothing.
  unfoldable pub writer_step : ℕ → Writer B → Writing B → WriterEvent → Wire A B → Wire A B
  unfolding move_writer write_taken is_woken after_write
  writer_step i w looping enters r = move_writer i w (selecting r.client.generation) r
  writer_step i w (selecting generation) takes r = write_taken i w (take_outgoing r.client) r
  writer_step i w (selecting generation) wakes r =
      if is_woken generation r.client then move_writer i w ended r else r
  writer_step i w (writing msg) (has_written ok) r = after_write i w msg ok r
  writer_step i w stands e r = r

  unfoldable pub writer_at : ℕ → Option (Writer B) → WriterEvent → Wire A B → Wire A B
  unfolding writer_step
  writer_at i none e r = r
  writer_at i (some w) e r = writer_step i w w.stands e r

  unfoldable pub after_send : B → Bool × WebSocketClient A B → Wire A B → Wire A B
  after_send msg (true, client) r = record r { client = client; accepted = r.accepted ++ msg ∷ [] }
  after_send msg (false, client) r = record r { client = client }

  -- `reconnect` starts a writing loop.
  unfoldable pub wire_step : WireEvent B → Wire A B → Wire A B
  unfolding writer_at after_send
  wire_step (client_sends msg) r = after_send msg (send msg r.client) r
  wire_step (client_reconnects conn) r = record r {
    client = reconnect conn r.client;
    writers = r.writers ++ record { conn = conn; stands = looping } ∷ [];
  }
  wire_step client_closes r = record r { client = close r.client }
  wire_step (in_writer i e) r = writer_at i (get_elem? r.writers i) e r

  unfoldable pub run_wire : List (WireEvent B) → Wire A B → Wire A B
  unfolding wire_step
  run_wire [] r = r
  run_wire (e ∷ es) r = run_wire es (wire_step e r)
