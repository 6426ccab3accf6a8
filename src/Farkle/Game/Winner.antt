-- ===== src/Farkle/Game/Winner.antt =====
-- How a game comes out (game/farkle/internal/logic/game.go, `gameLoop`).
use mathlib.Core.Path.{subst}
use dice_server.Prelude.{
  ℕ, zero, suc, ◌+◌, ◌%◌, ◌≤◌, ◌<◌, ◌≡◌, ◌⊎◌, inl, inr, refl, ap, sym, ◌∙◌, some, List, [], ◌∷◌,
  length, get_elem?, set, length-set, All, All-get_elem?, All-set, leb, if_elim, arith,
}
use dice_server.Connect.{Uuid}
use dice_server.Farkle.Scoring.Counting.{HasFaces}
use dice_server.Farkle.Message.{update_score}
use dice_server.Farkle.Game.Table.{Table}
use dice_server.Farkle.Game.Turn.{Turn, ended, broken, idle, fault, out_of_fuel, turn_loop}
use dice_server.Farkle.Game.Selection.{HasNoNil}
use dice_server.Farkle.Game.Accounts.{TurnOutcome, turn_loop-outcome}
use dice_server.Farkle.Game.Match.{
  Seat, Game, seat_of, Outcome, finished, aborted, pending, crashed, unfinished, table_of, put_back,
  end_with, judge_turn, after_turn, take_turn, game_loop, broadcast_game,
}

-- A seat of a game that goes on: nobody has won yet.
pub record IsPlaying (target : ℕ) (s : Seat) : Type 0 where
  pub faces : HasFaces s.player.dice
  pub six : length s.player.dice ≤ 6
  pub short : s.player.scores.total < target
  pub in_time : s.timeouts < 2

pub record IsLive (g : Game) : Type 0 where
  pub two : length g.seats ≡ 2
  pub playing : All (IsPlaying g.target) g.seats

abbrev pub IsClean : Game → Type 0
IsClean g = All (λ s. All HasNoNil s.inbox) g.seats

-- Why the winner has won: the target is reached, or the other player has timed out twice.
abbrev pub Wins : Uuid → Game → Type 0
Wins w g =
    (i : ℕ) × (s : Seat) × (o : Seat) × (get_elem? g.seats i ≡ some s)
    × (get_elem? g.seats ((i + 1) % 2) ≡ some o)
    × (o.player.scores.total < g.target)
    × (((w ≡ s.player.info.user_id) × (g.target ≤ s.player.scores.total) × (s.timeouts < 2))
        ⊎ ((w ≡ o.player.info.user_id) × (s.timeouts ≡ 2)))

abbrev pub GameOutcome : Game → Outcome → Type 0
GameOutcome g (finished w g') = (g'.target ≡ g.target) × Wins w g'
GameOutcome g (aborted e g') = All (λ s. s.player.scores.total < g'.target) g'.seats
GameOutcome g (pending g') = All (λ s. s.player.scores.total < g'.target) g'.seats
GameOutcome g crashed = ¬ IsClean g
GameOutcome g (unfinished i g') = IsLive g'

-- The two seats: each index has one, and a write at one leaves the other.
seats_cases :
    (xs : List Seat) (i : ℕ)
    → length xs ≡ 2
    → i < 2
    → (s : Seat) × (o : Seat) × (get_elem? xs i ≡ some s)
      × ((v : Seat)
          → (get_elem? (set xs i v) i ≡ some v) × (get_elem? (set xs i v) ((i + 1) % 2) ≡ some o))
      × (get_elem? xs ((i + 1) % 2) ≡ some o)
seats_cases [] i two h = absurd (omega arith)
seats_cases (a ∷ []) i two h = absurd (omega arith)
seats_cases (a ∷ b ∷ []) zero two h = (a, b, refl, (λ v. (refl, refl)), refl)
seats_cases (a ∷ b ∷ []) (suc zero) two h = (b, a, refl, (λ v. (refl, refl)), refl)
seats_cases (a ∷ b ∷ []) (suc (suc i)) two h = absurd (omega arith)
seats_cases (a ∷ b ∷ c ∷ xs) i two h = absurd (omega arith)

short_totals :
    (target : ℕ) (xs : List Seat)
    → All (IsPlaying target) xs
    → All (λ s. s.player.scores.total < target) xs
short_totals target [] h = tt
short_totals target (x ∷ xs) h = (h.0.short, short_totals target xs h.1)

pub outcome_weaken :
    (g h : Game) (r : Outcome)
    → h.target ≡ g.target
    → (IsClean g → IsClean h)
    → GameOutcome h r
    → GameOutcome g r
outcome_weaken g h (finished w g') e c (same, wins) = (same ∙ e, wins)
outcome_weaken g h (aborted x g') e c o = o
outcome_weaken g h (pending g') e c o = o
outcome_weaken g h crashed e c o = λ clean. o (c clean)
outcome_weaken g h (unfinished i g') e c o = o

abbrev IsGoodLoop : (ℕ → Game → Outcome) → Type 0
IsGoodLoop loop = (i : ℕ) (g : Game) → i < 2 → IsLive g → GameOutcome g (loop i g)

judge_turn-good :
    (loop : ℕ → Game → Outcome)
    → IsGoodLoop loop
    → (i : ℕ) (t : Table) (g : Game) (s o : Seat) → i < 2
    → length g.seats ≡ 2
    → get_elem? g.seats i ≡ some s
    → s.player ≡ t.player
    → s.timeouts ≡ t.timeouts
    → get_elem? g.seats ((i + 1) % 2) ≡ some o
    → o.player.scores.total < g.target
    → t.timeouts ≤ 2
    → (t.player.scores.total < g.target → t.timeouts < 2 → All (IsPlaying g.target) g.seats)
    → GameOutcome g (judge_turn loop i t g)
unfolding judge_turn end_with broadcast_game
judge_turn-good loop l i t g s o small two at_i player timeouts other short late live =
    if_elim (GameOutcome g) (leb 2 t.timeouts) _ _
      (λ out.
        subst (λ x. GameOutcome g (end_with x g))
          (sym (ap (λ n. get_elem? g.seats ((i + 1) % n)) two ∙ other))
          (refl, (i, s, o, at_i, other, short, inr (refl, ground arith))))
      (λ in_time.
        if_elim (GameOutcome g) (leb g.target t.player.scores.total) _ _
          (λ reached. (
            refl,
            (
              i,
              s,
              o,
              at_i,
              other,
              short,
              inl (ap (λ p. p.info.user_id) (sym player), ground arith, ground arith),
            ),
          ))
          (λ more.
            let g1 = broadcast_game (update_score t.player.info.user_id t.player.scores) g in
            outcome_weaken g g1 (loop i g1) refl (λ c. c)
              (l i g1 small (record { two = two; playing = live (ground arith) (ground arith) }))))

after_turn-good :
    (loop : ℕ → Game → Outcome)
    → IsGoodLoop loop
    → (i : ℕ) (g : Game) (s : Seat) (r : Turn) → i < 2
    → IsLive g
    → get_elem? g.seats i ≡ some s
    → TurnOutcome (table_of g s) r
    → GameOutcome g (after_turn loop i g r)
unfolding after_turn table_of
after_turn-good loop l i g s (ended t) small live at_i (closed, _, ending) =
    let (s', o, at_i', written, other) = seats_cases g.seats i live.two small in
    let p = All-get_elem? (IsPlaying g.target) g.seats i s live.playing at_i in
    let q = All-get_elem? (IsPlaying g.target) g.seats ((i + 1) % 2) o live.playing other in
    outcome_weaken g (put_back i t g) (judge_turn loop i t (put_back i t g)) refl
      (λ clean.
        All-set (λ s. All HasNoNil s.inbox) g.seats i (seat_of t) clean
          (closed.clean (All-get_elem? (λ s. All HasNoNil s.inbox) g.seats i s clean at_i)))
      (judge_turn-good loop l i t (put_back i t g) (seat_of t) o small
        (length-set g.seats i (seat_of t) ∙ live.two) (written (seat_of t)).0 refl refl
        (written (seat_of t)).1 q.short (ground (arith, p.in_time, ending))
        (λ short in_time.
          All-set (IsPlaying g.target) g.seats i (seat_of t) live.playing
            (record { faces = closed.faces; six = closed.six; short = short; in_time = in_time })))
after_turn-good loop l i g s (broken e t) small live at_i (_, _, total, _) =
    All-set (λ s'. s'.player.scores.total < g.target) g.seats i (seat_of t)
      (short_totals g.target g.seats live.playing)
      (omega (arith, (All-get_elem? (IsPlaying g.target) g.seats i s live.playing at_i).short))
after_turn-good loop l i g s (idle t) small live at_i (total, _) =
    All-set (λ s'. s'.player.scores.total < g.target) g.seats i (seat_of t)
      (short_totals g.target g.seats live.playing)
      (omega (arith, (All-get_elem? (IsPlaying g.target) g.seats i s live.playing at_i).short))
after_turn-good loop l i g s fault small live at_i o =
    λ clean. o (All-get_elem? (λ s. All HasNoNil s.inbox) g.seats i s clean at_i)
after_turn-good loop l i g s (out_of_fuel t) small live at_i o = absurd o

take_turn-good :
    (loop : ℕ → Game → Outcome)
    → IsGoodLoop loop
    → (i : ℕ) (g : Game) (s : Seat) → i < 2
    → IsLive g
    → get_elem? g.seats i ≡ some s
    → GameOutcome g (take_turn loop i g (some s))
unfolding take_turn
take_turn-good loop l i g s small live at_i =
    let g1 = record g { current_player = s.player.info.user_id } in
    let p = All-get_elem? (IsPlaying g.target) g.seats i s live.playing at_i in
    outcome_weaken g g1 (after_turn loop i g1 (turn_loop (table_of g1 s))) refl (λ c. c)
      (after_turn-good loop l i g1 s (turn_loop (table_of g1 s)) small
        (record { two = live.two; playing = live.playing }) at_i
        (turn_loop-outcome (table_of g1 s) (unfold table_of in p.faces) (unfold table_of in p.six)))

-- A game of two players, each with at most six dice that show faces, below the target and with fewer
-- than two timeouts, over any number of turns: if it ends with a winner, one player has reached the
-- target while the other has not, and has won, or one has timed out for the second time, and the
-- other has won. If it is broken off or still waits, no one has reached the target; if it goes on, no
-- one has won yet; and it crashes only if some dice touch has no data.
pub game_loop-outcome : (turns i : ℕ) (g : Game) → IsLive g → GameOutcome g (game_loop turns i g)
unfolding game_loop
game_loop-outcome zero i g live = live
game_loop-outcome (suc n) i g live =
    let next = (i + 1) % length g.seats in
    let small : next < 2 = omega (arith, live.two) in
    let (s, _, at_next, _, _) = seats_cases g.seats next live.two small in
    subst (λ x. GameOutcome g (take_turn (game_loop n) next g x)) (sym at_next)
      (take_turn-good (game_loop n) (λ j h _ l. game_loop-outcome n j h l) next g s small live
        at_next)
