-- ===== src/Farkle/Game/Heard.antt =====
-- What is sent to a client in a whole game (game/farkle/internal/logic/game.go, `gameLoop` and `Play`).
use mathlib.Core.Path.{subst}
use dice_server.Prelude.{
  ℕ, zero, suc, ◌+◌, ◌%◌, ◌≡◌, refl, sym, ap, ◌∙◌, Bool, true, false, Option, none, some, List, map,
  if_intro, leb, length, get_elem?, map-set, get_elem?-map, length-set,
}
use dice_server.Connect.{Uuid, LobbyPlayer}
use dice_server.Farkle.Message.{Message, game_begin, game_end, update_score, error}
use dice_server.Farkle.Game.Table.{Table}
use dice_server.Farkle.Game.Turn.{Turn, ended, broken, idle, fault, out_of_fuel, turn_loop}
use dice_server.Farkle.Game.Match.{
  Seat, Game, seat_of, Outcome, finished, aborted, pending, crashed, unfinished, table_of, put_back,
  end_with, judge_turn, after_turn, take_turn, game_loop, broadcast_game, close_play, play,
  state_of,
}
use dice_server.Farkle.Game.Spoken.{Place, Speaks, only_of_lem}
use dice_server.Farkle.Game.Spoken.Turning.{HeardTurn, turn_loop-heard}
use dice_server.Farkle.Protocol.{
  Phase, before, resting, choosing, closing, over, breaking, closed, say, hear, next, only_of,
}
use dice_server.Farkle.Protocol.Hearing.{times, hear-append, hear-map}

-- The client has heard a conversation that stands here, and the seats are those of the players.
pub record Hears (player : ℕ → Uuid) (count start client : ℕ) (infos : List LobbyPlayer)
    (cs : List ℕ) (phase : Phase) (g : Game) : Type 0 where
  pub heard : hear player count client g.sent (some (before start)) ≡ some phase
  pub seated : length g.seats ≡ count
  pub who : map (λ s. s.player.info) g.seats ≡ infos
  pub all : map (λ s. s.client) g.seats ≡ cs

-- How far the conversation has come, by how the game comes out.
abbrev pub FollowsProtocol : (ℕ → Uuid) → ℕ → ℕ → ℕ → Outcome → Type 0
FollowsProtocol player count start client (finished w g) =
    ((i : ℕ) × (w ≡ player i))
    × (hear player count client g.sent (some (before start)) ≡ some (closed (some w)))
FollowsProtocol player count start client (aborted e g) =
    hear player count client g.sent (some (before start)) ≡ some (closed none)
FollowsProtocol player count start client (pending g) =
    (i : ℕ) × (hear player count client g.sent (some (before start)) ≡ some (choosing i))
FollowsProtocol player count start client crashed = Unit {0}
FollowsProtocol player count start client (unfinished i g) =
    (behind : Bool) × (hear player count client g.sent (some (before start))
      ≡ some (resting behind i))

module _ (player : ℕ → Uuid) (count start client : ℕ) (infos : List LobbyPlayer) (cs : List ℕ)
    (named : (i : ℕ) (p : LobbyPlayer) → get_elem? infos i ≡ some p → p.user_id ≡ player i)
    (once : times client cs ≡ 1) where
  abbrev pub At : Phase → Game → Type 0
  At = Hears player count start client infos cs

  named_seat :
      (p : Phase) (g : Game) (i : ℕ) (s : Seat)
      → At p g
      → get_elem? g.seats i ≡ some s
      → s.player.info.user_id ≡ player i
  named_seat p g i s h at_i = named i s.player.info (
      ap (λ xs. get_elem? xs i) (sym h.who) ∙ get_elem?-map (λ s'. s'.player.info) g.seats i s at_i)

  -- A turn of a seat, for the client.
  abbrev place : (i : ℕ) (s : Seat) → s.player.info.user_id ≡ player i → Place
  place i s own = record {
    player = player;
    count = count;
    start = start;
    client = client;
    i = i;
    k = s.client;
    info = s.player.info;
    cs = cs;
    named = own;
    once = once;
  }

  tell_all :
      (p q : Phase) (msg : Message) (g : Game)
      → At p g
      → say player count p msg ≡ some q
      → At q (broadcast_game msg g)
  unfolding broadcast_game
  tell_all p q msg g h e =
      let clients = map (λ s. s.client) g.seats in
      record {
        heard =
            hear-append player count client g.sent (map (λ c. (c, msg)) clients)
              (some (before start))
            ∙ ap (hear player count client (map (λ c. (c, msg)) clients)) h.heard
            ∙ hear-map player count client msg clients (some p) (ap (times client) h.all ∙ once)
            ∙ e;
        seated = h.seated;
        who = h.who;
        all = h.all;
      }

  put_back-heard :
      (i : ℕ) (p q : Phase) (s : Seat) (t : Table) (g : Game)
      → At p g
      → get_elem? g.seats i ≡ some s
      → Speaks player count start client s.client s.player.info cs q t
      → At q (put_back i t g)
  unfolding put_back
  put_back-heard i p q s t g h at_i spoken = record {
    heard = spoken.heard;
    seated = length-set g.seats i (seat_of t) ∙ h.seated;
    who = map-set (λ s'. s'.player.info) g.seats i s (seat_of t) at_i spoken.who ∙ h.who;
    all = map-set (λ s'. s'.client) g.seats i s (seat_of t) at_i spoken.seat ∙ h.all;
  }

  abbrev pub HeardSoFar : Outcome → Type 0
  HeardSoFar (finished w g) = ((i : ℕ) × (w ≡ player i)) × At (over w) g
  HeardSoFar (aborted e g) = (i : ℕ) × At (choosing i) g
  HeardSoFar (pending g) = (i : ℕ) × At (choosing i) g
  HeardSoFar crashed = Unit {0}
  HeardSoFar (unfinished i g) = (behind : Bool) × At (resting behind i) g

  abbrev IsHeardGame : (ℕ → Game → Outcome) → Type 0
  IsHeardGame loop =
      (behind : Bool) (i : ℕ) (g : Game) → At (resting behind i) g → HeardSoFar (loop i g)

  -- A winner is told by its own id.
  tell_winner :
      (p : Phase) (i : ℕ) (u : Uuid) (g : Game)
      → At p g
      → u ≡ player i
      → say player count p (game_end u) ≡ only_of player count i u (over (player i))
      → ((j : ℕ) × (u ≡ player j)) × At (over u) (broadcast_game (game_end u) g)
  tell_winner p i u g h same e = (
    (i, same),
    tell_all p (over u) (game_end u) g h (
        e
        ∙ only_of_lem player count i u (over (player i)) same
        ∙ ap (λ w. some (over w)) (sym same)),
  )

  end_with-heard :
      (i : ℕ) (o : Option Seat) (g : Game)
      → At (closing i) g
      → get_elem? g.seats (next player count i) ≡ o
      → HeardSoFar (end_with o g)
  unfolding end_with
  end_with-heard i none g h e = tt
  end_with-heard i (some s) g h e =
      tell_winner (closing i) (next player count i) s.player.info.user_id g h
        (named_seat (closing i) g (next player count i) s h e) refl

  judge_turn-heard :
      (loop : ℕ → Game → Outcome) (i : ℕ) (t : Table) (g : Game)
      → IsHeardGame loop
      → t.player.info.user_id ≡ player i
      → At (closing i) g
      → HeardSoFar (judge_turn loop i t g)
  unfolding judge_turn
  judge_turn-heard loop i t g l own h =
      let u = t.player.info.user_id in
      let g1 = broadcast_game (update_score u t.player.scores) g in
      let h1 : At (resting true i) g1 =
        tell_all (closing i) (resting true i) (update_score u t.player.scores) g h
          (only_of_lem player count i u (resting true i) own) in
      if_intro HeardSoFar (leb 2 t.timeouts) _ _
        (end_with-heard i (get_elem? g.seats ((i + 1) % length g.seats)) g h
          (ap (λ n. get_elem? g.seats ((i + 1) % n)) (sym h.seated)))
        (if_intro HeardSoFar (leb g.target t.player.scores.total) _ _
          (tell_winner (resting true i) i u g1 h1 own refl) (l true i g1 h1))

  after_turn-heard :
      (loop : ℕ → Game → Outcome) (i : ℕ) (p : Phase) (s : Seat) (g : Game) (r : Turn)
      → IsHeardGame loop
      → At p g
      → get_elem? g.seats i ≡ some s
      → (own : s.player.info.user_id ≡ player i) → HeardTurn (place i s own) r
      → HeardSoFar (after_turn loop i g r)
  unfolding after_turn
  after_turn-heard loop i p s g (ended t) l h at_i own spoken =
      judge_turn-heard loop i t (put_back i t g) l (ap (λ x. x.user_id) spoken.who ∙ own)
        (put_back-heard i p (closing i) s t g h at_i spoken)
  after_turn-heard loop i p s g (broken e t) l h at_i own spoken =
      (i, put_back-heard i p (choosing i) s t g h at_i spoken)
  after_turn-heard loop i p s g (idle t) l h at_i own spoken =
      (i, put_back-heard i p (choosing i) s t g h at_i spoken)
  after_turn-heard loop i p s g fault l h at_i own spoken = tt
  after_turn-heard loop i p s g (out_of_fuel t) l h at_i own spoken = tt

  take_turn-heard :
      (loop : ℕ → Game → Outcome) (behind : Bool) (prev i : ℕ) (o : Option Seat) (g : Game)
      → IsHeardGame loop
      → next player count prev ≡ i
      → At (resting behind prev) g
      → get_elem? g.seats i ≡ o
      → HeardSoFar (take_turn loop i g o)
  unfolding take_turn table_of
  take_turn-heard loop behind prev i none g l follows h e = tt
  take_turn-heard loop behind prev i (some s) g l follows h e =
      let g1 = record g { current_player = s.player.info.user_id } in
      let h1 : At (resting behind prev) g1 = record {
        heard = h.heard;
        seated = h.seated;
        who = h.who;
        all = h.all;
      } in
      let own = named_seat (resting behind prev) g i s h e in
      after_turn-heard loop i (resting behind prev) s g1 (turn_loop (table_of g1 s)) l h1 e own (
        turn_loop-heard (place i s own) behind prev (table_of g1 s) follows
          (record { heard = h.heard; seat = refl; who = refl; all = h.all }))

  game_loop-heard :
      (n : ℕ) (behind : Bool) (i : ℕ) (g : Game)
      → At (resting behind i) g
      → HeardSoFar (game_loop n i g)
  unfolding game_loop
  game_loop-heard zero behind i g h = (behind, h)
  game_loop-heard (suc n) behind i g h =
      let i' = (i + 1) % length g.seats in
      take_turn-heard (game_loop n) behind i i' (get_elem? g.seats i') g (game_loop-heard n)
        (ap (λ m. (i + 1) % m) (sym h.seated)) h refl

  abbrev pub Heard : Outcome → Type 0
  Heard (finished w g) = ((i : ℕ) × (w ≡ player i)) × At (closed (some w)) g
  Heard (aborted e g) = At (closed none) g
  Heard (pending g) = (i : ℕ) × At (choosing i) g
  Heard crashed = Unit {0}
  Heard (unfinished i g) = (behind : Bool) × At (resting behind i) g

  close_play-Heard : (o : Outcome) → HeardSoFar o → Heard (close_play o)
  unfolding close_play
  close_play-Heard (finished w g) (one, h) = (one, tell_all (over w) (closed (some w)) _ g h refl)
  close_play-Heard (aborted e g) (i, h) =
      let g1 = broadcast_game (error "farkle-server" "server error") g in
      tell_all breaking (closed none) _ g1 (tell_all (choosing i) breaking _ g h refl) refl
  close_play-Heard (pending g) h = h
  close_play-Heard crashed h = tt
  close_play-Heard (unfinished i g) h = h

  pub play-Heard :
      (turns first : ℕ) (g : Game)
      → first % count ≡ start
      → At (before start) g
      → Heard (play turns first g)
  unfolding play
  play-Heard turns first g e h =
      let g1 = broadcast_game (game_begin (state_of g)) g in
      close_play-Heard _ (
        game_loop-heard turns false (first % length g.seats) g1 (
          subst (λ j. At (resting false j) g1) (sym (ap (λ n. first % n) h.seated ∙ e))
            (tell_all (before start) (resting false start) (game_begin (state_of g)) g h refl)))

  pub Heard-FollowsProtocol : (o : Outcome) → Heard o → FollowsProtocol player count start client o
  Heard-FollowsProtocol (finished w g) (one, h) = (one, h.heard)
  Heard-FollowsProtocol (aborted e g) h = h.heard
  Heard-FollowsProtocol (pending g) (i, h) = (i, h.heard)
  Heard-FollowsProtocol crashed h = tt
  Heard-FollowsProtocol (unfinished i g) (behind, h) = (behind, h.heard)
