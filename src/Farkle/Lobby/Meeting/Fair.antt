-- ===== src/Farkle/Lobby/Meeting/Fair.antt =====
-- When a lobby starts its game (game/farkle/internal/lobby/loop.go).
use mathlib.Core.Path.{subst}
use dice_server.Prelude.{
  ℕ, ◌≡◌, refl, String, true, ◌&&◌, Option, none, some, List, [], ◌∷◌, length, All, if_elim, arith,
  sym, ap, ◌∙◌,
}
use dice_server.Connect.{Uuid, LobbyPlayer}
use dice_server.Farkle.Message.{Message, player_joining}
use dice_server.Farkle.Lobby.Ready.{drop_turn}
use dice_server.Farkle.Lobby.Ready.Dice.{IsKnown, announced, IsEquipped, drop_turn-IsEquipped}
use dice_server.Farkle.Lobby.Meeting.{
  Side, running, connected, blocked, stopped, Status, meeting, started, returned, crashed, Lobby,
  Move, first_event, second_event, first_lets_go, second_lets_go, let_go, hear_first, hear_second,
  deadline, move_side, player_of, abandon, check_done, main_move, start_waiting, gather, on_first,
  on_second, move_lobby, run_lobby,
}
use dice_server.Farkle.Lobby.Meeting.Sides.{
  waiting_of, is_connected, SideEquipped, IsFairStatus, IsFair, move_side-IsSideMove,
  let_go-IsSideMove, set_first-IsFair, set_second-IsFair,
}

check_done-IsFair : (p q : LobbyPlayer) (l : Lobby) → IsFair p q l → IsFair p q (check_done l)
unfolding check_done
check_done-IsFair p q l f =
    if_elim (IsFair p q) (l.first_is_done && l.second_is_done) _ _
      (λ both. record {
        first_equipped = f.first_equipped;
        second_equipped = f.second_equipped;
        first_heard = f.first_heard;
        second_heard = f.second_heard;
        fair = (f.first_heard (ground arith), f.second_heard (ground arith), refl, refl);
      })
      (λ _. f)

abandon-IsFair :
    (p q : LobbyPlayer) (reason : String) (err : Option String) (l : Lobby)
    → SideEquipped p l.first
    → SideEquipped q l.second
    → (l.first_is_done ≡ true → is_connected l.first ≡ true)
    → (l.second_is_done ≡ true → is_connected l.second ≡ true)
    → IsFair p q (abandon reason err l)
unfolding abandon
abandon-IsFair p q reason err l e e' h h' = record {
  first_equipped = e;
  second_equipped = e';
  first_heard = h;
  second_heard = h';
  fair = (refl, refl);
}

pub start_waiting-IsEquipped :
    (p : LobbyPlayer) (ids : ℕ → Uuid) (sent : List Message)
    → length p.dice_set ≡ 6
    → All IsKnown p.dice_set
    → announced p.dice_set sent ≡ p.dice_set
    → IsEquipped p.dice_set p (start_waiting p ids sent)
unfolding start_waiting
start_waiting-IsEquipped p ids sent six known quiet = record {
  same_id = refl;
  same_name = refl;
  six = six;
  known = known;
  told = quiet;
  told_other = refl;
}

pub gather-IsFair :
    (p q : LobbyPlayer) (ids ids' : ℕ → Uuid)
    → (length p.dice_set ≡ 6) × All IsKnown p.dice_set
    → (length q.dice_set ≡ 6) × All IsKnown q.dice_set
    → IsFair p q (gather p q ids ids')
unfolding gather
gather-IsFair p q ids ids' (six, known) (six', known') = record {
  first_equipped = start_waiting-IsEquipped p ids (player_joining q ∷ []) six known refl;
  second_equipped = start_waiting-IsEquipped q ids' [] six' known' refl;
  first_heard = λ d. cc;
  second_heard = λ d. cc;
  fair = tt;
}

-- What the game is given for a player: six dice of known variants, under the player's name and id.
pub record IsSeated (p a : LobbyPlayer) : Type 0 where
  pub same_id : a.user_id ≡ p.user_id
  pub same_name : a.username ≡ p.username
  pub six : length a.dice_set ≡ 6
  pub known : All IsKnown a.dice_set

player_of_lem : (s : Side) → player_of s ≡ (waiting_of s).player
unfolding player_of
player_of_lem (running w) = refl
player_of_lem (connected w) = refl
player_of_lem (blocked w) = refl
player_of_lem (stopped w) = refl

player_of-IsSeated :
    (p a : LobbyPlayer) (s : Side) → a ≡ player_of s → SideEquipped p s → IsSeated p a
player_of-IsSeated p a s is_a e =
    subst (IsSeated p) (sym (is_a ∙ player_of_lem s))
      (record { same_id = e.same_id; same_name = e.same_name; six = e.six; known = e.known })

module _ (wrap : Option String → String → Option String) where
  on_first-IsFair :
      (p q : LobbyPlayer) (s : Side) (l : Lobby)
      → l.first ≡ s
      → l.status ≡ meeting
      → IsFair p q l
      → IsFair p q (on_first wrap s l)
  unfolding on_first
  on_first-IsFair p q (connected w) l e m f =
      check_done-IsFair p q (record l { first_is_done = true })
        (record {
          first_equipped = f.first_equipped;
          second_equipped = f.second_equipped;
          first_heard = λ _. ap is_connected e;
          second_heard = f.second_heard;
          fair = f.fair;
        })
  on_first-IsFair p q (blocked w) l e m f =
      abandon-IsFair p q "player failed to connect"
        (wrap (some "client closed") "first player failed to connect")
        (record l { first = stopped (drop_turn w) })
        (drop_turn-IsEquipped p.dice_set p w (subst (SideEquipped p) e f.first_equipped))
        f.second_equipped (λ d. sym (ap is_connected e) ∙ f.first_heard d) f.second_heard
  on_first-IsFair p q (running w) l e m f = f
  on_first-IsFair p q (stopped w) l e m f = f

  on_second-IsFair :
      (p q : LobbyPlayer) (s : Side) (l : Lobby)
      → l.second ≡ s
      → l.status ≡ meeting
      → IsFair p q l
      → IsFair p q (on_second wrap s l)
  unfolding on_second
  on_second-IsFair p q (connected w) l e m f =
      check_done-IsFair p q (record l { second_is_done = true })
        (record {
          first_equipped = f.first_equipped;
          second_equipped = f.second_equipped;
          first_heard = f.first_heard;
          second_heard = λ _. ap is_connected e;
          fair = f.fair;
        })
  on_second-IsFair p q (blocked w) l e m f =
      abandon-IsFair p q "player failed to connect"
        (wrap (some "client closed") "second player failed to connect")
        (record l { second = stopped (drop_turn w) }) f.first_equipped
        (drop_turn-IsEquipped q.dice_set q w (subst (SideEquipped q) e f.second_equipped))
        f.first_heard (λ d. sym (ap is_connected e) ∙ f.second_heard d)
  on_second-IsFair p q (running w) l e m f = f
  on_second-IsFair p q (stopped w) l e m f = f

  main_move-IsFair :
      (p q : LobbyPlayer) (move : Lobby → Lobby) (status : Status) (l : Lobby)
      → IsFair p q l
      → (status ≡ meeting → IsFair p q (move l))
      → IsFair p q (main_move move status l)
  unfolding main_move
  main_move-IsFair p q move meeting l f next = next refl
  main_move-IsFair p q move (started a b) l f next = f
  main_move-IsFair p q move (returned err) l f next = f
  main_move-IsFair p q move crashed l f next = f

  move_lobby-IsFair :
      (p q : LobbyPlayer) (first_id second_id : Uuid) (m : Move) (l : Lobby)
      → IsFair p q l
      → IsFair p q (move_lobby wrap first_id second_id m l)
  unfolding move_lobby
  move_lobby-IsFair p q first_id second_id (first_event e) l f =
      set_first-IsFair p q l (move_side first_id l.canceled e l.first)
        (move_side-IsSideMove p first_id l.canceled e l.first f.first_equipped) f
  move_lobby-IsFair p q first_id second_id (second_event e) l f =
      set_second-IsFair p q l (move_side second_id l.canceled e l.second)
        (move_side-IsSideMove q second_id l.canceled e l.second f.second_equipped) f
  move_lobby-IsFair p q first_id second_id first_lets_go l f =
      set_first-IsFair p q l (some (let_go l.first)) (let_go-IsSideMove p l.first f.first_equipped)
        f
  move_lobby-IsFair p q first_id second_id second_lets_go l f =
      set_second-IsFair p q l (some (let_go l.second))
        (let_go-IsSideMove q l.second f.second_equipped) f
  move_lobby-IsFair p q first_id second_id hear_first l f =
      main_move-IsFair p q (on_first wrap l.first) l.status l f
        (λ m. on_first-IsFair p q l.first l refl m f)
  move_lobby-IsFair p q first_id second_id hear_second l f =
      main_move-IsFair p q (on_second wrap l.second) l.status l f
        (λ m. on_second-IsFair p q l.second l refl m f)
  move_lobby-IsFair p q first_id second_id deadline l f =
      main_move-IsFair p q
        (abandon "player did not connect" (wrap none "players took too long to connect")) l.status l
        f
        (λ m.
          abandon-IsFair p q "player did not connect" (wrap none "players took too long to connect")
            l f.first_equipped f.second_equipped f.first_heard f.second_heard)

  -- Every step of a lobby, whichever of the two goroutines or the main loop makes it and in whatever
  -- order, keeps this: both players keep six dice of known variants, which both were told last; a
  -- player is only counted as done who is ready; a game is only started when both are, and then with
  -- these players; and a lobby that returns has closed the game and canceled the waiting.
  pub run_lobby-IsFair :
      (p q : LobbyPlayer) (first_id second_id : Uuid) (ms : List Move) (l : Lobby)
      → IsFair p q l
      → IsFair p q (run_lobby wrap first_id second_id ms l)
  unfolding run_lobby
  run_lobby-IsFair p q first_id second_id [] l f = f
  run_lobby-IsFair p q first_id second_id (m ∷ ms) l f =
      run_lobby-IsFair p q first_id second_id ms (move_lobby wrap first_id second_id m l)
        (move_lobby-IsFair p q first_id second_id m l f)

  -- Two players with six dice of known variants each: if the lobby starts a game, in whatever order
  -- the two goroutines and the main loop have moved, both goroutines have closed their channels as ready, and the game
  -- gets for each of them six dice of known variants under the player's name and id.
  pub run_lobby-IsSeated :
      (p q a b : LobbyPlayer) (ids ids' : ℕ → Uuid) (ms : List Move)
      → (length p.dice_set ≡ 6) × All IsKnown p.dice_set
      → (length q.dice_set ≡ 6) × All IsKnown q.dice_set
      → (run_lobby wrap p.user_id q.user_id ms (gather p q ids ids')).status ≡ started a b
      → (is_connected (run_lobby wrap p.user_id q.user_id ms (gather p q ids ids')).first ≡ true)
        × (is_connected (run_lobby wrap p.user_id q.user_id ms (gather p q ids ids')).second ≡ true)
        × IsSeated p a
        × IsSeated q b
  run_lobby-IsSeated p q a b ids ids' ms dice dice' e =
      let l = run_lobby wrap p.user_id q.user_id ms (gather p q ids ids') in
      let f =
        run_lobby-IsFair p q p.user_id q.user_id ms (gather p q ids ids')
          (gather-IsFair p q ids ids' dice dice') in
      let (up, up', is_a, is_b) =
        subst (IsFairStatus l.first l.second l.canceled l.game_closed) e f.fair in
      (
        up,
        up',
        player_of-IsSeated p a l.first is_a f.first_equipped,
        player_of-IsSeated q b l.second is_b f.second_equipped,
      )
