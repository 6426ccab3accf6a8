-- ===== src/Client/Manager/Ending.antt =====
-- What closing a game does to all games and all clients (game/common/client/manager.go).
use mathlib.Core.Path.{subst}
use dice_server.Prelude.{
  ℕ, suc, zero, ◌≡◌, inl, inr, refl, sym, ap, Bool, true, false, ◌||◌, Option, none, some, List, [],
  ◌∷◌, get_elem?, ◌==◌, if◌then◌else◌, Option-cases, Bool-cases, arith,
}
use mathlib.Core.Option
use dice_server.Prelude.Assoc.{lookup}
use dice_server.Connect.{Uuid}
use dice_server.Client.Socket.{WebSocketClient, close}
use dice_server.Client.Manager.{
  GameClients, WebSocketManager, try_get_game, on_client, close_clients, close_game,
}
use dice_server.Client.Manager.Closing.{close_game-try_get_game}

-- Whether a client is one of a game's.
abbrev is_among : ℕ → GameClients → Bool
is_among d [] = false
is_among d ((user, c) ∷ cs) = c == d || is_among d cs

abbrev is_of : ℕ → Option GameClients → Bool
is_of d none = false
is_of d (some cs) = is_among d cs

module _ {A B : Type 0} where
  abbrev is_shut : Option (WebSocketClient A B) → Bool
  is_shut none = true
  is_shut (some c) = c.closing

  -- A client of the game is closing, any other is as it was.
  abbrev Fate : Bool → Option (WebSocketClient A B) → Option (WebSocketClient A B) → Type 0
  Fate true before after = is_shut after ≡ true
  Fate false before after = after ≡ before

  on_client-get_elem? :
      (c d : ℕ) (store : List (WebSocketClient A B))
      → get_elem? (on_client close c store) d
        ≡ (if c == d then Option.map close (get_elem? store d) else get_elem? store d)
  unfolding on_client
  on_client-get_elem? c d [] = ground arith
  on_client-get_elem? zero zero (w ∷ ws) = ground arith
  on_client-get_elem? zero (suc d) (w ∷ ws) = ground arith
  on_client-get_elem? (suc c) zero (w ∷ ws) = ground arith
  on_client-get_elem? (suc c) (suc d) (w ∷ ws) = ground (arith, on_client-get_elem? c d ws)

  is_shut-map : (c : Option (WebSocketClient A B)) → is_shut (Option.map close c) ≡ true
  unfolding close
  is_shut-map none = refl
  is_shut-map (some c) = refl

  close_clients-is_shut :
      (cs : GameClients) (d : ℕ) (store : List (WebSocketClient A B))
      → is_shut (get_elem? store d) ≡ true
      → is_shut (get_elem? (close_clients cs store) d) ≡ true
  unfolding close_clients
  close_clients-is_shut [] d store h = h
  close_clients-is_shut ((u, c) ∷ cs) d store h =
      close_clients-is_shut cs d (on_client close c store)
        (ground (arith, on_client-get_elem? c d store, is_shut-map (get_elem? store d)))

  close_clients-Fate :
      (cs : GameClients) (d : ℕ) (store : List (WebSocketClient A B))
      → Fate (is_among d cs) (get_elem? store d) (get_elem? (close_clients cs store) d)
  unfolding close_clients
  close_clients-Fate [] d store = refl
  close_clients-Fate ((u, c) ∷ cs) d store = elim (Bool-cases (c == d)) [
    | inl here ↦ rw here (
        close_clients-is_shut cs d (on_client close c store)
          (ground (arith, on_client-get_elem? c d store, is_shut-map (get_elem? store d))))
    | inr other ↦ rw other (
        subst
          (λ x. Fate (is_among d cs) x (get_elem? (close_clients cs (on_client close c store)) d))
          (ground (arith, on_client-get_elem? c d store))
          (close_clients-Fate cs d (on_client close c store)))
  ]

  pub record EndsGame (g : Uuid) (m m' : WebSocketManager A B) : Type 0 where
    pub games : (g' : Uuid) → try_get_game g' m' ≡ (if g == g' then none else try_get_game g' m)
    pub clients :
        (d : ℕ) → Fate (is_of d (try_get_game g m)) (get_elem? m.store d) (get_elem? m'.store d)

  close_game-Fate :
      (g : Uuid) (m m' : WebSocketManager A B) (d : ℕ)
      → close_game g m ≡ some m'
      → Fate (is_of d (try_get_game g m)) (get_elem? m.store d) (get_elem? m'.store d)
  unfolding close_game try_get_game close_clients
  close_game-Fate g m m' d e = elim (Option-cases (lookup g m.games)) [
    | inl missing ↦
        let same : m'.store ≡ m.store = ground arith in
        subst (λ o. Fate (is_of d o) (get_elem? m.store d) (get_elem? m'.store d)) (sym missing)
          (ap (λ s. get_elem? s d) same)
    | inr (cs, there) ↦
        let closed : close_clients cs m.store ≡ m'.store = ground arith in
        subst (λ o. Fate (is_of d o) (get_elem? m.store d) (get_elem? m'.store d)) (sym there)
          (subst (λ s. Fate (is_among d cs) (get_elem? m.store d) (get_elem? s d)) closed
            (close_clients-Fate cs d m.store))
  ]

  -- A closed game is not there any more, and every other game is as it was; each client of the game is
  -- closing, and every other client of the server is as it was.
  pub close_game-EndsGame :
      (g : Uuid) (m m' : WebSocketManager A B) → close_game g m ≡ some m' → EndsGame g m m'
  close_game-EndsGame g m m' e = record {
    games = λ g'. close_game-try_get_game g g' m m' e;
    clients = λ d. close_game-Fate g m m' d e;
  }
