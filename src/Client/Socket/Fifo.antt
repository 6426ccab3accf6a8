-- ===== src/Client/Socket/Fifo.antt =====
-- The channels of a web socket client keep their order and their bound
-- (game/common/client/client.go).
use mathlib.Core.Path.{subst}
use mathlib.Core.List.{Sublist, nil-sublist, append_assoc, sublist-append_left}
use mathlib.Core.List.Sublist as Sub
use dice_server.Prelude.{
  ℕ, ◌≤◌, ◌≡◌, refl, sym, ap, ◌∙◌, Bool, true, false, Option, none, some, List, [], ◌∷◌, ◌++◌,
  length, length-append, ltb, if_intro, arith,
}
use dice_server.Client.Socket.{
  WebSocketClient, message_buffer_limit, new_web_socket_client, read_one, send, take_from,
  take_outgoing, receive_from, receive_next, reconnect, close,
}

-- What can happen to a client, in any order.
pub data Event (A B : Type 0) : Type 0 where
  reads : A → Event A B
  sends : B → Event A B
  writes : Event A B
  receives : Event A B
  reconnects : ℕ → Event A B
  closes : Event A B

-- A client, with the messages that `Send` has taken and those that the writing loops got, those that
-- were read and those that `Receive` has given, in order.
pub record History (A B : Type 0) : Type 0 where
  pub client : WebSocketClient A B
  pub accepted : List B
  pub taken : List B
  pub heard : List A
  pub received : List A

module _ {A B : Type 0} where
  abbrev after_send : B → History A B → Bool × WebSocketClient A B → History A B
  after_send msg h (true, client) = record h { client = client; accepted = h.accepted ++ msg ∷ [] }
  after_send msg h (false, client) = record h { client = client }

  abbrev after_take : History A B → Option (B × WebSocketClient A B) → History A B
  after_take h none = h
  after_take h (some (msg, client)) = record h { client = client; taken = h.taken ++ msg ∷ [] }

  abbrev after_receive : History A B → Option (A × WebSocketClient A B) → History A B
  after_receive h none = h
  after_receive h (some (msg, client)) = record h {
    client = client;
    received = h.received ++ msg ∷ [];
  }

  abbrev happen : Event A B → History A B → History A B
  happen (reads msg) h = record h { client = read_one msg h.client; heard = h.heard ++ msg ∷ [] }
  happen (sends msg) h = after_send msg h (send msg h.client)
  happen writes h = after_take h (take_outgoing h.client)
  happen receives h = after_receive h (receive_next h.client)
  happen (reconnects conn) h = record h { client = reconnect conn h.client }
  happen closes h = record h { client = close h.client }

  abbrev pub happen_all : List (Event A B) → History A B → History A B
  happen_all [] h = h
  happen_all (e ∷ es) h = happen_all es (happen e h)

  abbrev pub fresh : History A B
  fresh = record {
    client = new_web_socket_client;
    accepted = [];
    taken = [];
    heard = [];
    received = [];
  }

  -- The channels are within their capacity; what was accepted is what was taken and what waits; and
  -- what was received and what waits was read, in this order.
  pub record IsFifo (h : History A B) : Type 0 where
    pub room_in : length h.client.incoming ≤ message_buffer_limit
    pub room_out : length h.client.outgoing ≤ message_buffer_limit
    pub in_order : h.accepted ≡ h.taken ++ h.client.outgoing
    pub was_read : Sublist (h.received ++ h.client.incoming) h.heard

  take-IsFifo :
      (out : List B) (h : History A B)
      → h.client.outgoing ≡ out
      → IsFifo h
      → IsFifo (after_take h (take_from out h.client))
  unfolding take_from
  take-IsFifo [] h e f = f
  take-IsFifo (msg ∷ rest) h e f = record {
    room_in = f.room_in;
    room_out = ground (arith, ap length e, f.room_out);
    in_order = f.in_order ∙ ap (◌++◌ h.taken) e ∙ sym (append_assoc h.taken (msg ∷ []) rest);
    was_read = f.was_read;
  }

  receive-IsFifo :
      (waiting : List A) (h : History A B)
      → h.client.incoming ≡ waiting
      → IsFifo h
      → IsFifo (after_receive h (receive_from waiting h.client))
  unfolding receive_from
  receive-IsFifo [] h e f = f
  receive-IsFifo (msg ∷ rest) h e f = record {
    room_in = ground (arith, ap length e, f.room_in);
    room_out = f.room_out;
    in_order = f.in_order;
    was_read =
        subst (λ x. Sublist x h.heard)
          (ap (◌++◌ h.received) e ∙ sym (append_assoc h.received (msg ∷ []) rest)) f.was_read;
  }

  read-IsFifo : (msg : A) (h : History A B) → IsFifo h → IsFifo (happen (reads msg) h)
  unfolding read_one
  read-IsFifo msg h f = record {
    room_in = ground (arith, f.room_in, length-append h.client.incoming (msg ∷ []));
    room_out = ground (arith, f.room_out);
    in_order = ground (arith, f.in_order);
    was_read =
        if_intro {A = WebSocketClient A B}
          (λ c. Sublist (h.received ++ WebSocketClient.incoming c) (h.heard ++ msg ∷ []))
          (ltb (length h.client.incoming) message_buffer_limit) _ _
          (subst (λ x. Sublist x (h.heard ++ msg ∷ []))
            (append_assoc h.received h.client.incoming (msg ∷ []))
            (Sub.append f.was_read (Sub.refl (msg ∷ []))))
          (Sub.trans f.was_read (sublist-append_left h.heard (msg ∷ [])));
  }

  send-IsFifo : (msg : B) (h : History A B) → IsFifo h → IsFifo (happen (sends msg) h)
  unfolding send
  send-IsFifo msg h f = record {
    room_in = ground (arith, f.room_in);
    room_out = ground (arith, f.room_out, length-append h.client.outgoing (msg ∷ []));
    in_order = ground (arith, f.in_order, append_assoc h.taken h.client.outgoing (msg ∷ []));
    was_read =
        if_intro {A = Bool × WebSocketClient A B}
          (λ x.
            Sublist ((after_send msg h x).received ++ (after_send msg h x).client.incoming)
              (after_send msg h x).heard)
          (ltb (length h.client.outgoing) message_buffer_limit) _ _ f.was_read f.was_read;
  }

  happen-IsFifo : (e : Event A B) (h : History A B) → IsFifo h → IsFifo (happen e h)
  unfolding take_outgoing receive_next reconnect close
  happen-IsFifo (reads msg) h f = read-IsFifo msg h f
  happen-IsFifo (sends msg) h f = send-IsFifo msg h f
  happen-IsFifo writes h f = take-IsFifo h.client.outgoing h refl f
  happen-IsFifo receives h f = receive-IsFifo h.client.incoming h refl f
  happen-IsFifo (reconnects conn) h f = record {
    room_in = f.room_in;
    room_out = f.room_out;
    in_order = f.in_order;
    was_read = f.was_read;
  }
  happen-IsFifo closes h f = record {
    room_in = f.room_in;
    room_out = f.room_out;
    in_order = f.in_order;
    was_read = f.was_read;
  }

  happen_all-IsFifo :
      (es : List (Event A B)) (h : History A B) → IsFifo h → IsFifo (happen_all es h)
  happen_all-IsFifo [] h f = f
  happen_all-IsFifo (e ∷ es) h f = happen_all-IsFifo es (happen e h) (happen-IsFifo e h f)

  fresh-IsFifo : IsFifo fresh
  unfolding new_web_socket_client
  fresh-IsFifo = record {
    room_in = omega arith;
    room_out = omega arith;
    in_order = refl;
    was_read = nil-sublist [];
  }

  -- Whatever happens to a client, neither channel ever holds more than its capacity of messages, and
  -- the messages that `Send` took go out once each and in order: those that the writing loops got so
  -- far, followed by those that still wait, are those that were accepted. What `Receive` has given and
  -- what waits for it was read, in this order, each message at most once.
  pub happen_all-fresh-IsFifo : (es : List (Event A B)) → IsFifo (happen_all es fresh)
  happen_all-fresh-IsFifo es = happen_all-IsFifo es fresh fresh-IsFifo
