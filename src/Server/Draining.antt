-- ===== src/Server/Draining.antt =====
-- A game server that is told to end does end (game/farkle/main.go and internal/lobby/worker.go).
use dice_server.Prelude.{
  ◌≡◌, inl, inr, refl, sym, ap, ◌∙◌, String, Bool, true, false, ◌||◌, Option, none, some, List, [],
  ◌∷◌, ◌==◌, if_elim, Bool-cases, Option-cases, arith,
}
use dice_server.Connect.{Uuid}
use dice_server.Auth.Signing.{Jwt}
use dice_server.Client.Manager.{
  WebSocketManager, is_empty, get_client, close_game, try_wait_for_all_closed,
}
use dice_server.Client.Manager.Open.{close_game-none, close_game-all_closed, all_closed-get_client}
use dice_server.Farkle.Entry
use dice_server.Farkle.Entry.{Entry, after_client, after_upgrade, after_token, entry_handler}
use dice_server.Farkle.Lobby.Worker.{WorkerLog, shutting_down, worker_loop, run_worker}
use dice_server.Server.{
  Event, works, moves_on, enters, joins, game_ends, shutdown_timeout, web_fails, Reason,
  worker_result, Serving, serving, leaving, tested, waiting, ended, crashed, await_games,
  after_work, after_entry, after_closing, after_closing_one, work, on_manager, fail_web, move_on,
  run_out, end_game, handle, serve,
}
use dice_server.Server.Presence.{
  has_game, SameGames, some_entry, is_empty-is_there, has_game-close_game, entry-SameGames,
  get_client-has_game,
}
use dice_server.Server.Ending.{IsServing, all_closed-entry, handle-IsServing}
use mathlib.Core.Path.{subst}

-- Whether a game ends.
abbrev pub ends_among : Uuid → List Event → Bool
ends_among g [] = false
ends_among g (game_ends h ∷ es) = h == g || ends_among g es
ends_among g (e ∷ es) = ends_among g es

-- What happens while a server drains: a player joins only a game that ends later, and neither does the
-- time run out nor the web server fail.
abbrev pub IsQuiet : List Event → Type 0
IsQuiet [] = Unit
IsQuiet (works e ∷ es) = IsQuiet es
IsQuiet (moves_on ∷ es) = IsQuiet es
IsQuiet (enters now auth upgraded ∷ es) = IsQuiet es
IsQuiet (joins game user ∷ es) = (ends_among game es ≡ true) × IsQuiet es
IsQuiet (game_ends game ∷ es) = IsQuiet es
IsQuiet (shutdown_timeout ∷ es) = ⊥
IsQuiet (web_fails err ∷ es) = ⊥

module _ (A B : Type 0) (wrap : String → String → String) (jwt : Jwt) (config : Entry.Config) where
  -- The worker has sent a result, and this is what `main` goes on with.
  abbrev pub HasEnded : Reason → Serving A B → Type 0
  HasEnded r (serving log m) = ⊥
  HasEnded r (leaving err m) = ⊥
  HasEnded r (tested err m m') = ⊥
  HasEnded r (waiting err m m') = ⊥
  HasEnded r (ended reason m m') = reason ≡ r
  HasEnded r crashed = ⊥

  -- A result is final, and no game that ends later makes the server crash.
  handle-HasEnded :
      (e : Event) (r : Reason) (s : Serving A B)
      → IsServing wrap s
      → HasEnded r s
      → HasEnded r (handle wrap jwt config e s)
  unfolding handle work move_on on_manager run_out fail_web end_game after_closing_one
  handle-HasEnded (works e) r (ended reason m m') h there = there
  handle-HasEnded moves_on r (ended reason m m') h there = there
  handle-HasEnded (enters now auth upgraded) r (ended reason m m') h there = there
  handle-HasEnded (joins game user) r (ended reason m m') h there = there
  handle-HasEnded (game_ends game) r (ended reason m m') (up, verdict) there =
      elim (Option-cases (close_game game m')) [
        | inl panics ↦ absurd (close_game-none game m' up panics)
        | inr (m2, closes) ↦
            subst (λ o. HasEnded r (after_closing_one (ended reason m) o)) (sym closes) there
      ]
  handle-HasEnded shutdown_timeout r (ended reason m m') h there = there
  handle-HasEnded (web_fails err) r (ended reason m m') h there = there
  handle-HasEnded e r (serving log m) h there = absurd there
  handle-HasEnded e r (leaving err m) h there = absurd there
  handle-HasEnded e r (tested err m m') h there = absurd there
  handle-HasEnded e r (waiting err m m') h there = absurd there
  handle-HasEnded e r crashed h there = absurd there

  serve-HasEnded :
      (es : List Event) (r : Reason) (s : Serving A B)
      → IsServing wrap s
      → HasEnded r s
      → HasEnded r (serve wrap jwt config es s)
  unfolding serve
  serve-HasEnded [] r s h there = there
  serve-HasEnded (e ∷ es) r s h there =
      serve-HasEnded es r _ (handle-IsServing wrap jwt config e s h) (handle-HasEnded e r s h there)

  abbrev Ends : String → List Event → Serving A B → Type 0
  Ends err es s = HasEnded (worker_result err) (serve wrap jwt config es s)

  -- Every game that is there ends.
  abbrev pub IsCovered : List Event → WebSocketManager A B → Type 0
  IsCovered es m = (g : Uuid) → has_game g m ≡ true → ends_among g es ≡ true

  abbrev Draining : List Event → Type 0
  Draining es =
      (err : String) (m m' : WebSocketManager A B)
      → m'.all_closed ≡ false
      → is_empty m'.games ≡ false
      → IsCovered es m'
      → Ends err es (waiting err m m')

  after_closing-Ends :
      (es : List Event) (err : String) (g : Uuid) (m m' : WebSocketManager A B)
      (o : Option (WebSocketManager A B))
      → Draining es
      → close_game g m' ≡ o
      → m'.all_closed ≡ false
      → is_empty m'.games ≡ false
      → IsCovered (game_ends g ∷ es) m'
      → Ends err es (after_closing wrap err m o)
  unfolding after_closing run_worker try_wait_for_all_closed
  after_closing-Ends es err g m m' none rest e up some_left covered =
      absurd (close_game-none g m' up e)
  after_closing-Ends es err g m m' (some m2) rest e up some_left covered =
      if_elim (Ends err es) (is_empty m2.games) _ _
        (λ none_left.
          serve-HasEnded es (worker_result err) _
            (close_game-all_closed g m' m2 up e, (err, ground arith)) refl)
        (λ more. rest err m m2 (close_game-all_closed g m' m2 up e) more (λ h there.
          let (before, other) = has_game-close_game g h m' m2 e there in
          ground (arith, covered h before)))

  entry-Ends :
      (es : List Event) (err : String) (m m' m2 : WebSocketManager A B)
      → Draining es
      → m'.all_closed ≡ false
      → m2.all_closed ≡ m'.all_closed
      → is_empty m'.games ≡ false
      → SameGames m' m2
      → IsCovered es m'
      → Ends err es (waiting err m m2)
  entry-Ends es err m m' m2 rest up same_up some_left same covered =
      rest err m m2 (same_up ∙ up)
        (let (g, there) = some_entry m'.games some_left in
          is_empty-is_there g m2.games (same g ∙ there))
        (λ g there. covered g (sym (same g) ∙ there))

  joined-Ends :
      (es : List Event) (err : String) (g u : Uuid) (m m' : WebSocketManager A B)
      → Draining es
      → ends_among g es ≡ true
      → m'.all_closed ≡ false
      → is_empty m'.games ≡ false
      → IsCovered es m'
      → Ends err es (waiting err m (get_client g u m').1)
  joined-Ends es err g u m m' rest ends up some_left covered =
      let m2 = (get_client g u m').1 in
      rest err m m2 (all_closed-get_client g u m' ∙ up)
        (let (h, there) = some_entry m'.games some_left in
          is_empty-is_there h m2.games (get_client-has_game g u h m' ∙ ground arith))
        (λ h there. elim (Bool-cases (g == h)) [
          | inl same ↦
              let is_h : g ≡ h = ground arith in ap (λ k. ends_among k es) (sym is_h) ∙ ends
          | inr other ↦ covered h (ground (arith, get_client-has_game g u h m'))
        ])

  serve-Draining : (es : List Event) → IsQuiet es → Draining es
  unfolding serve handle work on_manager end_game move_on
  serve-Draining [] quiet err m m' up some_left covered =
      let (g, there) = some_entry m'.games some_left in absurd (ground (arith, covered g there))
  serve-Draining (works e ∷ es) quiet err m m' up some_left covered =
      serve-Draining es quiet err m m' up some_left covered
  serve-Draining (moves_on ∷ es) quiet err m m' up some_left covered =
      serve-Draining es quiet err m m' up some_left covered
  serve-Draining (enters now auth upgraded ∷ es) quiet err m m' up some_left covered =
      entry-Ends es err m m' (after_entry m' (entry_handler jwt config now auth upgraded m'))
        (serve-Draining es quiet) up (all_closed-entry wrap jwt config now auth upgraded m')
        some_left (entry-SameGames jwt config now auth upgraded m') covered
  serve-Draining (joins game user ∷ es) (ends, quiet) err m m' up some_left covered =
      joined-Ends es err game user m m' (serve-Draining es quiet) ends up some_left covered
  serve-Draining (game_ends game ∷ es) quiet err m m' up some_left covered =
      after_closing-Ends es err game m m' (close_game game m') (serve-Draining es quiet) refl up
        some_left covered
  serve-Draining (shutdown_timeout ∷ es) quiet err m m' up some_left covered = absurd quiet
  serve-Draining (web_fails text ∷ es) quiet err m m' up some_left covered = absurd quiet

  -- A server that is told to end does end: when the worker's context is canceled, and from then on
  -- every game that the manager has ends at some time, in any order, whoever comes in meanwhile and
  -- whatever else the worker would get, the worker gives its result, that is not the error of a timeout,
  -- and no closing of a game panics. This needs that the worker looks at the games and then waits for
  -- them before one of them ends (it misses the last one otherwise), that a player who joins meanwhile
  -- joins a game that ends later, that the half hour is not over, the web server does not fail, and the
  -- manager is not closed.
  pub serve-shutting_down :
      (es : List Event) (log : WorkerLog) (m : WebSocketManager A B)
      → IsQuiet es
      → m.all_closed ≡ false
      → IsCovered es m
      → HasEnded
          (worker_result "worker consumer shutting down")
          (serve wrap jwt config (works shutting_down ∷ moves_on ∷ moves_on ∷ es) (serving log m))
  unfolding serve handle work after_work worker_loop move_on await_games run_worker
      try_wait_for_all_closed
  serve-shutting_down es log m quiet up covered =
      let err : String = "worker consumer shutting down" in
      if_elim (λ s. Ends err (moves_on ∷ es) s) (is_empty m.games) _ _
        (λ none_there. serve-HasEnded es (worker_result err) _ (up, (err, ground arith)) refl)
        (λ some_there. serve-Draining es quiet err m m up some_there covered)
