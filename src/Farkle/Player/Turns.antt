-- ===== src/Farkle/Player/Turns.antt =====
-- What the channel of a player's client can hold (game/farkle/internal/data/player.go), with the
-- goroutine of `readingLoop` beside the one that plays: turns can begin and end, and the channel can
-- be drained, while the reader stands between its look at `hasTurn` and its last `select`.
use mathlib.Core.Path.{subst}
use mathlib.Core.List.{Sublist, nil-sublist, append_assoc, append-nil, sublist-append_right}
use mathlib.Core.List.Sublist as Sub
use dice_server.Prelude.{
  ◌≤◌, ◌≡◌, refl, sym, ap, ◌∙◌, Bool, not, ◌&&◌, Option, none, some, List, [], ◌∷◌, ◌++◌, ltb,
  if_intro, str_eq, if◌then◌else◌, length, length-append, arith,
}
use dice_server.Farkle.State.{GameState}
use dice_server.Farkle.Message.{Message, Incoming, var_please_sync}
use dice_server.Farkle.Player.{
  PlayerClient, message_limit, new_player_client, sort_message, put_message, take_incoming,
  set_turn, set_game_state_handler, drain_messages,
}

-- `in_hand` is the message with which the reader stands before its last `select`; `came` are the
-- messages that it has read, each with whose turn it was; `received` is what `Receive` has given.
pub record Reading : Type 0 where
  pub client : PlayerClient
  pub in_hand : Option Incoming
  pub came : List (Incoming × Bool)
  pub received : List Incoming
  pub replied : List Message

pub data PlayerEvent : Type 0 where
  comes : Incoming → PlayerEvent
  puts takes drains : PlayerEvent
  turns : Bool → PlayerEvent
  handles : Option GameState → PlayerEvent

abbrev after_sort : Incoming → Reading → Option Incoming × List Message → Reading
after_sort msg r (kept, replies) = record r {
  in_hand = kept;
  came = r.came ++ (msg, r.client.has_turn) ∷ [];
  replied = r.replied ++ replies;
}

-- The reader takes the next message only when it has none in hand.
abbrev pub come : Incoming → Option Incoming → Reading → Reading
come msg none r = after_sort msg r (sort_message r.client msg)
come msg (some held) r = r

abbrev pub put : Option Incoming → Reading → Reading
put none r = r
put (some msg) r = record r { client = put_message msg r.client; in_hand = none }

abbrev pub take : Option (Incoming × PlayerClient) → Reading → Reading
take none r = r
take (some (msg, client)) r = record r { client = client; received = r.received ++ msg ∷ [] }

abbrev pub happen : PlayerEvent → Reading → Reading
happen (comes msg) r = come msg r.in_hand r
happen puts r = put r.in_hand r
happen takes r = take (take_incoming r.client.incoming r.client) r
happen drains r = record r { client = drain_messages r.client }
happen (turns b) r = record r { client = set_turn r.client b }
happen (handles answer) r = record r { client = set_game_state_handler r.client answer }

abbrev pub happen_all : List PlayerEvent → Reading → Reading
happen_all [] r = r
happen_all (e ∷ es) r = happen_all es (happen e r)

abbrev pub begin : Reading
begin = record {
  client = new_player_client;
  in_hand = none;
  came = [];
  received = [];
  replied = [];
}

abbrev pub hand : Option Incoming → List Incoming
hand none = []
hand (some msg) = msg ∷ []

-- The messages that came in the player's turn and do not ask for the state.
abbrev heard_one : Incoming × Bool → List Incoming
heard_one (msg, in_turn) =
    if in_turn && not (str_eq msg.variant var_please_sync) then msg ∷ [] else []

abbrev pub heard : List (Incoming × Bool) → List Incoming
heard [] = []
heard (x ∷ xs) = heard_one x ++ heard xs

heard-append :
    (xs : List (Incoming × Bool)) (x : Incoming × Bool)
    → heard (xs ++ x ∷ []) ≡ heard xs ++ heard_one x
heard-append [] x = append-nil (heard_one x)
heard-append (y ∷ ys) x =
    ap (◌++◌ (heard_one y)) (heard-append ys x)
    ∙ sym (append_assoc (heard_one y) (heard ys) (heard_one x))

-- Within the capacity; and what was received, waits in the channel or is in hand was heard, in this
-- order, each message at most once.
pub record IsHeard (r : Reading) : Type 0 where
  pub room : length r.client.incoming ≤ message_limit
  pub in_turn : Sublist (r.received ++ (r.client.incoming ++ hand r.in_hand)) (heard r.came)

hand-sort_message :
    (c : PlayerClient) (msg : Incoming) → hand (sort_message c msg).0 ≡ heard_one (msg, c.has_turn)
unfolding sort_message
hand-sort_message c msg = ground arith

with_hand :
    (held : Option Incoming) (r : Reading)
    → r.in_hand ≡ held
    → IsHeard r
    → Sublist (r.received ++ (r.client.incoming ++ hand held)) (heard r.came)
with_hand held r at h =
    subst (λ x. Sublist (r.received ++ (r.client.incoming ++ hand x)) (heard r.came)) at h.in_turn

-- A message comes into the hand.
hear : (a b h l : List Incoming) → Sublist (a ++ (b ++ [])) l → Sublist (a ++ (b ++ h)) (l ++ h)
hear a b h l s =
    subst (λ x. Sublist x (l ++ h)) (append_assoc a (b ++ []) h ∙ ap (◌++◌ a) (append_assoc b [] h))
      (Sub.append s (Sub.refl h))

-- The message in hand is dropped.
pub let_go : (a b h l : List Incoming) → Sublist (a ++ (b ++ h)) l → Sublist (a ++ (b ++ [])) l
let_go a b h l s = Sub.trans (Sub.append (Sub.refl a) (Sub.append (Sub.refl b) (nil-sublist h))) s

-- The message in hand comes into the channel.
pub hand_in :
    (a b h l : List Incoming) → Sublist (a ++ (b ++ h)) l → Sublist (a ++ ((b ++ h) ++ [])) l
hand_in a b h l s = subst (λ x. Sublist (a ++ x) l) (sym (append-nil (b ++ h))) s

come-IsHeard :
    (msg : Incoming) (held : Option Incoming) (r : Reading)
    → r.in_hand ≡ held
    → IsHeard r
    → IsHeard (come msg held r)
come-IsHeard msg none r at h = record {
  room = h.room;
  in_turn =
      rw (hand-sort_message r.client msg, heard-append r.came (msg, r.client.has_turn))
        (hear r.received r.client.incoming (heard_one (msg, r.client.has_turn)) (heard r.came)
          (with_hand none r at h));
}
come-IsHeard msg (some held) r at h = h

put-IsHeard :
    (held : Option Incoming) (r : Reading) → r.in_hand ≡ held → IsHeard r → IsHeard (put held r)
unfolding put_message
put-IsHeard none r at h = h
put-IsHeard (some msg) r at h =
    let s : Sublist (r.received ++ (r.client.incoming ++ msg ∷ [])) (heard r.came) =
      with_hand (some msg) r at h in
    record {
      room = ground (arith, h.room, length-append r.client.incoming (msg ∷ []));
      in_turn =
          if_intro (λ c. Sublist (r.received ++ (PlayerClient.incoming c ++ [])) (heard r.came))
            (ltb (length r.client.incoming) message_limit) _ _
            (hand_in r.received r.client.incoming (msg ∷ []) (heard r.came) s)
            (let_go r.received r.client.incoming (msg ∷ []) (heard r.came) s);
    }

take-IsHeard :
    (waiting : List Incoming) (r : Reading)
    → r.client.incoming ≡ waiting
    → IsHeard r
    → IsHeard (take (take_incoming waiting r.client) r)
unfolding take_incoming
take-IsHeard [] r at h = h
take-IsHeard (msg ∷ rest) r at h = record {
  room = ground (arith, ap length at, h.room);
  in_turn =
      rw (append_assoc r.received (msg ∷ []) (rest ++ hand r.in_hand))
        (subst (λ x. Sublist (r.received ++ (x ++ hand r.in_hand)) (heard r.came)) at h.in_turn);
}

drain-IsHeard : (r : Reading) → IsHeard r → IsHeard (happen drains r)
unfolding drain_messages
drain-IsHeard r h = record {
  room = omega arith;
  in_turn =
      Sub.trans
        (Sub.append (Sub.refl r.received) (sublist-append_right r.client.incoming (hand r.in_hand)))
        h.in_turn;
}

happen-IsHeard : (e : PlayerEvent) (r : Reading) → IsHeard r → IsHeard (happen e r)
unfolding set_turn set_game_state_handler
happen-IsHeard (comes msg) r h = come-IsHeard msg r.in_hand r refl h
happen-IsHeard puts r h = put-IsHeard r.in_hand r refl h
happen-IsHeard takes r h = take-IsHeard r.client.incoming r refl h
happen-IsHeard drains r h = drain-IsHeard r h
happen-IsHeard (turns b) r h = record { room = h.room; in_turn = h.in_turn }
happen-IsHeard (handles answer) r h = record { room = h.room; in_turn = h.in_turn }

happen_all-IsHeard : (es : List PlayerEvent) (r : Reading) → IsHeard r → IsHeard (happen_all es r)
happen_all-IsHeard [] r h = h
happen_all-IsHeard (e ∷ es) r h = happen_all-IsHeard es (happen e r) (happen-IsHeard e r h)

-- Whatever happens to a player's client, its channel holds at most 16 messages, and what `Receive` has
-- given, what waits and what the reader holds came in the player's turn, does not ask for the state,
-- and is in the order in which it came, each message at most once.
pub happen_all-begin-IsHeard : (es : List PlayerEvent) → IsHeard (happen_all es begin)
unfolding new_player_client
happen_all-begin-IsHeard es =
    happen_all-IsHeard es begin (record { room = omega arith; in_turn = nil-sublist [] })
