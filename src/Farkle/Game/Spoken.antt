-- ===== src/Farkle/Game/Spoken.antt =====
-- What a turn sends to a client (game/farkle/internal/logic/game.go, `diceSelection` and `turnLoop`).
pub mod Choosing
pub mod Turning
use mathlib.Core.Path.{subst}
use dice_server.Prelude.{
  ℕ, zero, suc, ◌+◌, ◌*◌, ◌/◌, ◌≡◌, refl, sym, ap, ◌∙◌, Bool, true, false, not, Option, none, some,
  List, [], ◌∷◌, map, ◌==◌, str_eq, if◌then◌else◌, if_intro, length, arith,
}
use dice_server.Connect.{Uuid, LobbyPlayer}
use dice_server.Farkle.Dice.{Dice, Roller}
use dice_server.Farkle.Message.{
  Message, Decoded, decoded, bad_data, nil_pointer, VariantDiceTouch, Incoming, unmarshal_data,
  var_dice_touch, var_score_roll, var_end_turn, update_score, dice_touched, turn_timeout,
  turn_begin,
}
use dice_server.Farkle.Player.{
  Wake, Received, received, failure, blocked, receive, recv_timeout, client_closed,
}
use dice_server.Farkle.Game.{roll_dice, touch_dice}
use dice_server.Farkle.Game.Table.{
  Table, broadcast, reply, set_scores, nanoseconds, Step, again, chosen, crash, score_touched,
  on_dice_touch, on_score_roll, on_end_turn, selection_step, Selection, picked, failed, waiting,
  panicked, after_step, after_receive, dice_selection, is_overdue,
}
use dice_server.Farkle.Game.Turn.{
  show_roll, roll_phase, bust, time_out, keep_selected, bank, announce_score, Turn, ended, broken,
  idle, fault, out_of_fuel, after_selection, after_roll, turn_rounds, begin_turn, end_of_turn,
  turn_loop,
}
use dice_server.Farkle.Protocol.{
  Phase, before, resting, rolling, showing_bust, choosing, touched, scored, closing, say, hear,
  next, only_of,
}
use dice_server.Farkle.Protocol.Hearing.{times, hear-append, hear-map}

-- The client has heard a conversation that stands here, in a turn of this seat.
pub record Speaks (player : ℕ → Uuid) (count start client k : ℕ) (info : LobbyPlayer) (cs : List ℕ)
    (phase : Phase) (t : Table) : Type 0 where
  pub heard : hear player count client t.sent (some (before start)) ≡ some phase
  pub seat : t.client ≡ k
  pub who : t.player.info ≡ info
  pub all : t.clients ≡ cs

pub only_of_lem :
    (player : ℕ → Uuid) (count i : ℕ) (u : Uuid) (phase : Phase)
    → u ≡ player i
    → only_of player count i u phase ≡ some phase
only_of_lem player count i u phase same = ground arith

-- A client, and the turn that is on: the index of its player, and what does not change in it.
pub record Place : Type 0 where
  pub player : ℕ → Uuid
  pub count : ℕ
  pub start : ℕ
  pub client : ℕ
  pub i : ℕ
  pub k : ℕ
  pub info : LobbyPlayer
  pub cs : List ℕ
  pub named : info.user_id ≡ player i
  pub once : times client cs ≡ 1

module _ (z : Place) where
  abbrev pub In : Phase → Table → Type 0
  In = Speaks z.player z.count z.start z.client z.k z.info z.cs

  pub tell :
      (p q : Phase) (msg : Message) (t : Table)
      → In p t
      → say z.player z.count p msg ≡ some q
      → In q (broadcast msg t)
  unfolding broadcast
  tell p q msg t h e = record {
    heard =
        hear-append z.player z.count z.client t.sent (map (λ c. (c, msg)) t.clients)
          (some (before z.start))
        ∙ ap (hear z.player z.count z.client (map (λ c. (c, msg)) t.clients)) h.heard
        ∙ hear-map z.player z.count z.client msg t.clients (some p)
            (ap (times z.client) h.all ∙ z.once)
        ∙ e;
    seat = h.seat;
    who = h.who;
    all = h.all;
  }

  pub kept :
      (p : Phase) (t t' : Table)
      → t'.sent ≡ t.sent
      → t'.client ≡ t.client
      → t'.player.info ≡ t.player.info
      → t'.clients ≡ t.clients
      → In p t
      → In p t'
  kept p t t' sent seat who all h = record {
    heard = ap (λ l. hear z.player z.count z.client l (some (before z.start))) sent ∙ h.heard;
    seat = seat ∙ h.seat;
    who = who ∙ h.who;
    all = all ∙ h.all;
  }

  -- A message that names the player of the turn.
  pub tell_own :
      (p q : Phase) (msg : Message) (t : Table)
      → In p t
      → say z.player z.count p msg ≡ only_of z.player z.count z.i t.player.info.user_id q
      → In q (broadcast msg t)
  tell_own p q msg t h e = tell p q msg t h (
      e
      ∙ only_of_lem z.player z.count z.i t.player.info.user_id q
          (ap (λ x. x.user_id) h.who ∙ z.named))

  pub answer :
      (p : Phase) (msg : Message) (t : Table)
      → In p t
      → say z.player z.count p msg ≡ some p
      → In p (reply msg t)
  unfolding reply
  answer p msg t h e = record {
    heard =
        hear-append z.player z.count z.client t.sent ((t.client, msg) ∷ []) (some (before z.start))
        ∙ ap (hear z.player z.count z.client ((t.client, msg) ∷ [])) h.heard
        ∙ if_intro (λ x. x ≡ some p) (t.client == z.client) _ _ e refl;
    seat = h.seat;
    who = h.who;
    all = h.all;
  }
