-- ===== src/Farkle/Player/Drained.antt =====
-- What is left for a player's next turn once the channel has been drained
-- (game/farkle/internal/data/player.go, drained by internal/lobby/loop.go before the game).
use mathlib.Core.Path.{subst}
use mathlib.Core.List.{Sublist, sublist-append_left, sublist-append_right}
use mathlib.Core.List.Sublist as Sub
use dice_server.Prelude.{
  ◌≡◌, refl, false, Option, none, some, List, [], ◌∷◌, ◌++◌, All, ltb, if_intro, length, arith,
}
use dice_server.Farkle.Message.{Incoming}
use dice_server.Farkle.Player.{
  PlayerClient, message_limit, sort_message, put_message, take_incoming, set_turn,
  set_game_state_handler, drain_messages,
}
use dice_server.Farkle.Player.Turns.{
  Reading, PlayerEvent, comes, puts, takes, drains, turns, handles, come, put, take, happen,
  happen_all, hand, let_go, hand_in,
}

-- Anything but the beginning of a turn.
abbrev pub IsOffTurn : PlayerEvent → Type 0
IsOffTurn (comes msg) = Unit {0}
IsOffTurn puts = Unit {0}
IsOffTurn takes = Unit {0}
IsOffTurn drains = Unit {0}
IsOffTurn (turns b) = b ≡ false
IsOffTurn (handles answer) = Unit {0}

-- Out of turn, with nothing in the channel or in hand but some of these messages.
record IsLeft (left : List Incoming) (r : Reading) : Type 0 where
  no_turn : r.client.has_turn ≡ false
  only : Sublist (r.client.incoming ++ hand r.in_hand) left

with_hand :
    (left : List Incoming) (held : Option Incoming) (r : Reading)
    → r.in_hand ≡ held
    → IsLeft left r
    → Sublist (r.client.incoming ++ hand held) left
with_hand left held r at h = subst (λ x. Sublist (r.client.incoming ++ hand x) left) at h.only

hand-sort_message-off :
    (c : PlayerClient) (msg : Incoming) → c.has_turn ≡ false → hand (sort_message c msg).0 ≡ []
unfolding sort_message
hand-sort_message-off c msg off = ground arith

come-IsLeft :
    (left : List Incoming) (msg : Incoming) (held : Option Incoming) (r : Reading)
    → r.in_hand ≡ held
    → IsLeft left r
    → IsLeft left (come msg held r)
come-IsLeft left msg none r at h = record {
  no_turn = h.no_turn;
  only = rw (hand-sort_message-off r.client msg h.no_turn) (with_hand left none r at h);
}
come-IsLeft left msg (some held) r at h = h

put-IsLeft :
    (left : List Incoming) (held : Option Incoming) (r : Reading)
    → r.in_hand ≡ held
    → IsLeft left r
    → IsLeft left (put held r)
unfolding put_message
put-IsLeft left none r at h = h
put-IsLeft left (some msg) r at h =
    let s : Sublist (r.client.incoming ++ msg ∷ []) left = with_hand left (some msg) r at h in
    record {
      no_turn = ground (arith, h.no_turn);
      only =
          if_intro (λ c. Sublist (PlayerClient.incoming c ++ []) left)
            (ltb (length r.client.incoming) message_limit) _ _
            (hand_in [] r.client.incoming (msg ∷ []) left s)
            (let_go [] r.client.incoming (msg ∷ []) left s);
    }

take-IsLeft :
    (left waiting : List Incoming) (r : Reading)
    → r.client.incoming ≡ waiting
    → IsLeft left r
    → IsLeft left (take (take_incoming waiting r.client) r)
unfolding take_incoming
take-IsLeft left [] r at h = h
take-IsLeft left (msg ∷ rest) r at h = record {
  no_turn = h.no_turn;
  only =
      Sub.trans (sublist-append_right (msg ∷ []) (rest ++ hand r.in_hand))
        (subst (λ x. Sublist (x ++ hand r.in_hand) left) at h.only);
}

happen-IsLeft :
    (left : List Incoming) (e : PlayerEvent) (r : Reading)
    → IsOffTurn e
    → IsLeft left r
    → IsLeft left (happen e r)
unfolding set_turn set_game_state_handler drain_messages
happen-IsLeft left (comes msg) r o h = come-IsLeft left msg r.in_hand r refl h
happen-IsLeft left puts r o h = put-IsLeft left r.in_hand r refl h
happen-IsLeft left takes r o h = take-IsLeft left r.client.incoming r refl h
happen-IsLeft left drains r o h = record {
  no_turn = h.no_turn;
  only = Sub.trans (sublist-append_right r.client.incoming (hand r.in_hand)) h.only;
}
happen-IsLeft left (turns b) r o h = record { no_turn = o; only = h.only }
happen-IsLeft left (handles answer) r o h = record { no_turn = h.no_turn; only = h.only }

happen_all-IsLeft :
    (left : List Incoming) (es : List PlayerEvent) (r : Reading)
    → All IsOffTurn es
    → IsLeft left r
    → IsLeft left (happen_all es r)
happen_all-IsLeft left [] r o h = h
happen_all-IsLeft left (e ∷ es) r (oe, os) h =
    happen_all-IsLeft left es (happen e r) os (happen-IsLeft left e r oe h)

-- Once a player's channel is drained out of turn, nothing is in it until the next turn begins, whatever
-- comes, but at most the one message that the reader already held as it was drained.
pub incoming-happen_all-drains :
    (es : List PlayerEvent) (r : Reading)
    → r.client.has_turn ≡ false
    → All IsOffTurn es
    → Sublist (happen_all es (happen drains r)).client.incoming (hand r.in_hand)
unfolding drain_messages
incoming-happen_all-drains es r off o =
    let h =
      happen_all-IsLeft (hand r.in_hand) es (happen drains r) o
        (record { no_turn = off; only = Sub.refl (hand r.in_hand) }) in
    Sub.trans
      (sublist-append_left (happen_all es (happen drains r)).client.incoming
        (hand (happen_all es (happen drains r)).in_hand))
      h.only
