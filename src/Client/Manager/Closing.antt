-- ===== src/Client/Manager/Closing.antt =====
-- Closing a game (game/common/client/manager.go).
use dice_server.Prelude.{
  ℕ, suc, zero, ◌<◌, ◌≡◌, inl, inr, refl, ap, ltb, Bool, true, false, none, some, List, [], ◌∷◌,
  length, ◌==◌, ◌&&◌, if◌then◌else◌, Option-cases, Bool-cases, arith,
}
use dice_server.Prelude.Assoc.{lookup, insert, delete, lookup-insert, lookup-delete}
use dice_server.Connect.{Uuid}
use dice_server.Client.Socket.{WebSocketClient, close}
use dice_server.Client.Manager.Lookups.{find_client}
use dice_server.Client.Manager.{
  GameClients, WebSocketManager, try_get_game, on_client, close_clients, close_game, close_manager,
}

module _ {A B : Type 0} where
  -- A closed game is not there any more, and every other game is as it was.
  pub close_game-try_get_game :
      (g g' : Uuid) (m m' : WebSocketManager A B)
      → close_game g m ≡ some m'
      → try_get_game g' m' ≡ (if g == g' then none else try_get_game g' m)
  unfolding close_game try_get_game
  close_game-try_get_game g g' m m' e = elim (Option-cases (lookup g m.games)) [
    | inl f ↦
        ground (arith, lookup-delete g g' (insert g [] m.games), lookup-insert g g' [] m.games)
    | inr (cs, f) ↦ ground (arith, lookup-delete g g' m.games)
  ]

  -- After `Close` of the manager, closing any game is a panic: the channel `allClosed` is closed a
  -- second time.
  pub close_manager-close_game :
      (g : Uuid) (m : WebSocketManager A B) → close_game g (close_manager m) ≡ none
  unfolding close_manager close_game
  close_manager-close_game g m = unfold lookup delete insert in ground arith

  abbrev pub is_closing : ℕ → List (WebSocketClient A B) → Bool
  is_closing i [] = false
  is_closing zero (c ∷ cs) = c.closing
  is_closing (suc i) (c ∷ cs) = is_closing i cs

  on_client-is_closing :
      (c d : ℕ) (store : List (WebSocketClient A B))
      → is_closing d (on_client close c store)
        ≡ (if c == d && ltb d (length store) then true else is_closing d store)
  unfolding on_client close
  on_client-is_closing c d [] = ground arith
  on_client-is_closing zero zero (w ∷ ws) = ground arith
  on_client-is_closing zero (suc d) (w ∷ ws) = ground arith
  on_client-is_closing (suc c) zero (w ∷ ws) = ground arith
  on_client-is_closing (suc c) (suc d) (w ∷ ws) = ground (arith, on_client-is_closing c d ws)

  pub length-on_client :
      (c : ℕ) (store : List (WebSocketClient A B)) → length (on_client close c store) ≡ length store
  unfolding on_client
  length-on_client c [] = refl
  length-on_client zero (w ∷ ws) = refl
  length-on_client (suc c) (w ∷ ws) = ap suc (length-on_client c ws)

  close_clients-stays :
      (cs : GameClients) (d : ℕ) (store : List (WebSocketClient A B))
      → is_closing d store ≡ true
      → is_closing d (close_clients cs store) ≡ true
  unfolding close_clients
  close_clients-stays [] d store h = h
  close_clients-stays ((u, c) ∷ cs) d store h =
      close_clients-stays cs d (on_client close c store)
        (ground (arith, on_client-is_closing c d store))

  close_clients-is_closing :
      (cs : GameClients) (u c : ℕ) (store : List (WebSocketClient A B))
      → lookup u cs ≡ some c
      → c < length store
      → is_closing c (close_clients cs store) ≡ true
  unfolding close_clients lookup
  close_clients-is_closing [] u c store e h = cc
  close_clients-is_closing ((v, d) ∷ cs) u c store e h = elim (Bool-cases (v == u)) [
    | inl here ↦
        close_clients-stays cs c (on_client close d store)
          (ground (arith, on_client-is_closing d c store))
    | inr there ↦
        close_clients-is_closing cs u c (on_client close d store) (ground arith)
          (ground (arith, length-on_client d store))
  ]

  -- Closing a game closes the client of each of its players.
  pub close_game-is_closing :
      (g u c : ℕ) (m m' : WebSocketManager A B)
      → find_client g u m ≡ some c
      → c < length m.store
      → close_game g m ≡ some m'
      → is_closing c m'.store ≡ true
  unfolding close_game
  close_game-is_closing g u c m m' e h closed = elim (Option-cases (lookup g m.games)) [
    | inl f ↦ ground arith
    | inr (cs, f) ↦ ground (arith, close_clients-is_closing cs u c m.store)
  ]
