-- ===== src/Server/Ending.antt =====
-- How the servers end (game/farkle/main.go and game-master/main.go).
use dice_server.Prelude.{
  ℕ, ◌≡◌, refl, ◌∙◌, String, false, Option, none, some, List, [], ◌∷◌, ◌==◌, not, if◌then◌else◌,
  if_intro, if_elim, arith,
}
use dice_server.Connect.{Uuid}
use dice_server.Auth.{GameToken}
use dice_server.Auth.Signing.{Jwt, validate_game_token}
use dice_server.Client.Manager.{WebSocketManager, is_empty, close_game, try_wait_for_all_closed}
use dice_server.Farkle.Entry
use dice_server.Farkle.Entry.{
  Entry, refused, entered, after_client, after_upgrade, after_token, entry_handler,
}
use dice_server.Client.Manager.Open.{
  close_game-none, close_game-all_closed, all_closed-get_client, all_closed-upgrade_client,
}
use dice_server.Farkle.Lobby.Worker.{WorkerEvent, Worker, working, stopped, worker_loop, run_worker}
use dice_server.Server.{
  Event, works, moves_on, enters, joins, game_ends, shutdown_timeout, web_fails, Reason,
  worker_result, web_result, Serving, serving, leaving, tested, waiting, ended, crashed,
  await_games, after_work, after_entry, after_closing, after_closing_one, work, on_manager,
  fail_web, move_on, run_out, end_game, handle, serve,
}

module _ {A B : Type 0} where
  all_closed-after_client :
      (m : WebSocketManager A B) (o : Option (ℕ × WebSocketManager A B))
      → ((c : ℕ) (m' : WebSocketManager A B) → o ≡ some (c, m') → m'.all_closed ≡ m.all_closed)
      → (after_entry m (after_client o)).all_closed ≡ m.all_closed
  unfolding after_client after_entry
  all_closed-after_client m none same = refl
  all_closed-after_client m (some (c, m')) same = same c m' refl

  all_closed-after_token :
      (config : Entry.Config) (upgraded : Option ℕ) (m : WebSocketManager A B)
      (token : Option GameToken)
      → (after_entry m (after_token config upgraded m token)).all_closed ≡ m.all_closed
  unfolding after_token after_upgrade after_entry
  all_closed-after_token config upgraded m none = refl
  all_closed-after_token config none m (some token) =
      if_intro (λ e. (after_entry m e).all_closed ≡ m.all_closed)
        (not (token.server_id == config.server_id)) _ _ refl refl
  all_closed-after_token config (some conn) m (some token) =
      if_intro (λ e. (after_entry m e).all_closed ≡ m.all_closed)
        (not (token.server_id == config.server_id)) _ _ refl
        (all_closed-after_client m _
          (λ c m' e. all_closed-upgrade_client token.game_id token.user_id conn c m m' e))

-- Why the worker says that it ended, and whether the server then has games.
abbrev pub Verdict :
    {A B : Type 0} → (String → String → String) → Reason → WebSocketManager A B → Type 0
Verdict wrap (worker_result text) m =
    (err : String) × (text ≡ (if is_empty m.games then err else wrap err "game shutdown timeout"))
Verdict wrap (web_result err) m = Unit

module _ {A B : Type 0} (wrap : String → String → String) where
  abbrev pub IsServing : Serving A B → Type 0
  IsServing (serving log m) = m.all_closed ≡ false
  IsServing (leaving err m) = m.all_closed ≡ false
  IsServing (tested err m m') = (is_empty m.games ≡ false) × (m'.all_closed ≡ false)
  IsServing (waiting err m m') = (is_empty m.games ≡ false) × (m'.all_closed ≡ false)
  IsServing (ended reason m m') = (m'.all_closed ≡ false) × Verdict wrap reason m
  IsServing crashed = ⊥

  await_games-IsServing :
      (err : String) (m : WebSocketManager A B)
      → m.all_closed ≡ false
      → IsServing (await_games wrap err m)
  unfolding await_games run_worker try_wait_for_all_closed
  await_games-IsServing err m up =
      if_elim IsServing (is_empty m.games) _ _ (λ none_left. (up, (err, ground arith)))
        (λ games. (games, up))

  after_work-IsServing :
      (w : Worker) (m : WebSocketManager A B) → m.all_closed ≡ false → IsServing (after_work w m)
  unfolding after_work
  after_work-IsServing (working log) m up = up
  after_work-IsServing (stopped err log) m up = up

  work-IsServing : (e : WorkerEvent) (s : Serving A B) → IsServing s → IsServing (work e s)
  unfolding work
  work-IsServing e (serving log m) up = after_work-IsServing (worker_loop (e ∷ []) log) m up
  work-IsServing e (leaving err m) h = h
  work-IsServing e (tested err m m') h = h
  work-IsServing e (waiting err m m') h = h
  work-IsServing e (ended reason m m') h = h
  work-IsServing e crashed h = h

  on_manager-IsServing :
      (f : WebSocketManager A B → WebSocketManager A B)
      → ((m : WebSocketManager A B) → (f m).all_closed ≡ m.all_closed)
      → (s : Serving A B) → IsServing s
      → IsServing (on_manager f s)
  unfolding on_manager
  on_manager-IsServing f keeps (serving log m) up = keeps m ∙ up
  on_manager-IsServing f keeps (leaving err m) up = keeps m ∙ up
  on_manager-IsServing f keeps (tested err m m') (games, up) = (games, keeps m' ∙ up)
  on_manager-IsServing f keeps (waiting err m m') (games, up) = (games, keeps m' ∙ up)
  on_manager-IsServing f keeps (ended reason m m') (up, verdict) = (keeps m' ∙ up, verdict)
  on_manager-IsServing f keeps crashed h = h

  fail_web-IsServing : (err : String) (s : Serving A B) → IsServing s → IsServing (fail_web err s)
  unfolding fail_web
  fail_web-IsServing err (serving log m) up = (up, tt)
  fail_web-IsServing err (leaving err' m) up = (up, tt)
  fail_web-IsServing err (tested err' m m') (games, up) = (up, tt)
  fail_web-IsServing err (waiting err' m m') (games, up) = (up, tt)
  fail_web-IsServing err (ended reason m m') h = h
  fail_web-IsServing err crashed h = h

  move_on-IsServing : (s : Serving A B) → IsServing s → IsServing (move_on wrap s)
  unfolding move_on
  move_on-IsServing (serving log m) h = h
  move_on-IsServing (leaving err m) up = await_games-IsServing err m up
  move_on-IsServing (tested err m m') h = h
  move_on-IsServing (waiting err m m') h = h
  move_on-IsServing (ended reason m m') h = h
  move_on-IsServing crashed h = h

  run_out-IsServing : (s : Serving A B) → IsServing s → IsServing (run_out wrap s)
  unfolding run_out run_worker try_wait_for_all_closed
  run_out-IsServing (serving log m) h = h
  run_out-IsServing (leaving err m) h = h
  run_out-IsServing (tested err m m') h = h
  run_out-IsServing (waiting err m m') (games, up) = (up, (err, ground arith))
  run_out-IsServing (ended reason m m') h = h
  run_out-IsServing crashed h = h

  after_closing-IsServing :
      (err : String) (g : Uuid) (m m' : WebSocketManager A B) (o : Option (WebSocketManager A B))
      → close_game g m' ≡ o
      → is_empty m.games ≡ false
      → m'.all_closed ≡ false
      → IsServing (after_closing wrap err m o)
  unfolding after_closing run_worker try_wait_for_all_closed
  after_closing-IsServing err g m m' none e games up = close_game-none g m' up e
  after_closing-IsServing err g m m' (some m2) e games up =
      let up2 = close_game-all_closed g m' m2 up e in
      if_elim IsServing (is_empty m2.games) _ _ (λ none_left. (up2, (err, ground arith)))
        (λ more. (games, up2))

  after_closing_one-IsServing :
      (go_on : WebSocketManager A B → Serving A B) (g : Uuid) (m : WebSocketManager A B)
      (o : Option (WebSocketManager A B))
      → close_game g m ≡ o
      → m.all_closed ≡ false
      → ((m' : WebSocketManager A B) → m'.all_closed ≡ false → IsServing (go_on m'))
      → IsServing (after_closing_one go_on o)
  unfolding after_closing_one
  after_closing_one-IsServing go_on g m none e up goes_on = close_game-none g m up e
  after_closing_one-IsServing go_on g m (some m') e up goes_on =
      goes_on m' (close_game-all_closed g m m' up e)

  end_game-IsServing : (g : Uuid) (s : Serving A B) → IsServing s → IsServing (end_game wrap g s)
  unfolding end_game
  end_game-IsServing g (serving log m) up =
      after_closing_one-IsServing (serving log) g m (close_game g m) refl up (λ m' h. h)
  end_game-IsServing g (leaving err m) up =
      after_closing_one-IsServing (leaving err) g m (close_game g m) refl up (λ m' h. h)
  end_game-IsServing g (tested err m m') (games, up) =
      after_closing_one-IsServing (tested err m) g m' (close_game g m') refl up (λ m2 h. (games, h))
  end_game-IsServing g (waiting err m m') (games, up) =
      after_closing-IsServing err g m m' (close_game g m') refl games up
  end_game-IsServing g (ended reason m m') (up, verdict) =
      after_closing_one-IsServing (ended reason m) g m' (close_game g m') refl up
        (λ m2 h. (h, verdict))
  end_game-IsServing g crashed h = h

module _ {A B : Type 0} (wrap : String → String → String) (jwt : Jwt) (config : Entry.Config) where
  pub all_closed-entry :
      (now : ℕ) (auth : String) (upgraded : Option ℕ) (m : WebSocketManager A B)
      → (after_entry m (entry_handler jwt config now auth upgraded m)).all_closed ≡ m.all_closed
  unfolding entry_handler
  all_closed-entry now auth upgraded m =
      all_closed-after_token config upgraded m (validate_game_token jwt config.secret now auth)

  pub handle-IsServing :
      (e : Event) (s : Serving A B) → IsServing wrap s → IsServing wrap (handle wrap jwt config e s)
  unfolding handle
  handle-IsServing (works e) s h = work-IsServing wrap e s h
  handle-IsServing moves_on s h = move_on-IsServing wrap s h
  handle-IsServing (enters now auth upgraded) s h =
      on_manager-IsServing wrap _ (all_closed-entry now auth upgraded) s h
  handle-IsServing (joins game user) s h =
      on_manager-IsServing wrap _ (all_closed-get_client game user) s h
  handle-IsServing (game_ends game) s h = end_game-IsServing wrap game s h
  handle-IsServing shutdown_timeout s h = run_out-IsServing wrap s h
  handle-IsServing (web_fails err) s h = fail_web-IsServing wrap err s h

  pub serve-IsServing :
      (es : List Event) (s : Serving A B)
      → IsServing wrap s
      → IsServing wrap (serve wrap jwt config es s)
  unfolding serve
  serve-IsServing [] s h = h
  serve-IsServing (e ∷ es) s h = serve-IsServing es _ (handle-IsServing e s h)
