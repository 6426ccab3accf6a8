-- ===== src/Client/Manager.antt =====
-- game/common/client/manager.go: the games of a server, with the clients of their players.
--
-- A `*WebSocketClient` is its place in `store`, which only grows. `all_closed` says whether the
-- channel `allClosed` is closed. An operation is the part between a lock and its unlock, or a
-- composition of such parts, run without another operation in between; `Races` is about one that
-- comes in between.
pub mod Lookups
pub mod Closing
pub mod Races
pub mod Open
pub mod Ending
pub mod Calls
use dice_server.Prelude.{
  ℕ, zero, suc, Bool, true, false, Option, none, some, List, [], ◌∷◌, ◌++◌, length, get_elem?, set,
  ◌==◌, if◌then◌else◌,
}
use dice_server.Prelude.Assoc.{lookup, insert, delete}
use dice_server.Connect.{Uuid}
use dice_server.Client.Socket.{WebSocketClient, new_web_socket_client, reconnect, close}

abbrev pub GameClients : Type 0
GameClients = List (Uuid × ℕ)

abbrev pub is_empty : List (Uuid × GameClients) → Bool
is_empty [] = true
is_empty (g ∷ gs) = false

module _ (A B : Type 0) where
  pub record WebSocketManager : Type 0 where
    pub games : List (Uuid × GameClients)
    pub all_closed : Bool
    pub store : List (WebSocketClient A B)

module _ {A B : Type 0} where
  unfoldable pub new_web_socket_manager : WebSocketManager A B
  new_web_socket_manager = record { games = []; all_closed = false; store = [] }

  unfoldable pub try_get_game : Uuid → WebSocketManager A B → Option GameClients
  try_get_game game manager = lookup game manager.games

  -- The part of `getOrCreateGame` behind the test, under a lock of its own.
  unfoldable pub create_game : Uuid → WebSocketManager A B → WebSocketManager A B
  create_game game manager = record manager { games = insert game [] manager.games }

  unfoldable pub get_or_create_game :
      Uuid → WebSocketManager A B → GameClients × WebSocketManager A B
  get_or_create_game game manager = elim (try_get_game game manager) [
    | some clients ↦ (clients, manager)
    | none ↦ ([], create_game game manager)
  ]

  -- `getOrCreateClient` on the clients of a game: the client, and the manager afterwards.
  unfoldable pub get_or_create_client :
      Uuid → Uuid → GameClients → WebSocketManager A B → ℕ × WebSocketManager A B
  get_or_create_client game user clients manager = elim (lookup user clients) [
    | some client ↦ (client, manager)
    | none ↦
        let client = length manager.store in
        (
          client,
          record manager {
            games = insert game (insert user client clients) manager.games;
            store = manager.store ++ new_web_socket_client ∷ [];
          },
        )
  ]

  unfoldable pub get_client : Uuid → Uuid → WebSocketManager A B → ℕ × WebSocketManager A B
  unfolding get_or_create_game get_or_create_client try_get_game create_game
  get_client game user manager =
      let (clients, manager') = get_or_create_game game manager in
      get_or_create_client game user clients manager'

  -- A method of the client behind a pointer.
  unfoldable pub on_client :
      (WebSocketClient A B → WebSocketClient A B)
      → ℕ
      → List (WebSocketClient A B)
      → List (WebSocketClient A B)
  on_client f client [] = []
  on_client f zero (c ∷ cs) = f c ∷ cs
  on_client f (suc i) (c ∷ cs) = c ∷ on_client f i cs

  -- `none` is the `false` of a game that is not there.
  unfoldable pub upgrade_client :
      Uuid → Uuid → ℕ → WebSocketManager A B → Option (ℕ × WebSocketManager A B)
  unfolding try_get_game get_or_create_client on_client
  upgrade_client game user conn manager = elim (try_get_game game manager) [
    | none ↦ none
    | some clients ↦
        let (client, manager') = get_or_create_client game user clients manager in
        some (client, record manager' { store = on_client (reconnect conn) client manager'.store })
  ]

  -- `gameClients.close`: the order of the map does not matter, since each close is of one client.
  unfoldable pub close_clients :
      GameClients → List (WebSocketClient A B) → List (WebSocketClient A B)
  unfolding on_client
  close_clients [] store = store
  close_clients ((user, client) ∷ rest) store = close_clients rest (on_client close client store)

  -- `none` is the panic of closing a closed channel.
  unfoldable pub close_game : Uuid → WebSocketManager A B → Option (WebSocketManager A B)
  unfolding get_or_create_game try_get_game create_game close_clients
  close_game game manager =
      let (clients, manager') = get_or_create_game game manager in
      let closed = record manager' {
        games = delete game manager'.games;
        store = close_clients clients manager'.store;
      } in
      if is_empty closed.games
      then if manager'.all_closed then none else some (record closed { all_closed = false })
      else some closed

  unfoldable pub close_games :
      List (Uuid × GameClients) → List (WebSocketClient A B) → List (WebSocketClient A B)
  unfolding close_clients
  close_games [] store = store
  close_games ((game, clients) ∷ rest) store = close_games rest (close_clients clients store)

  -- `Close`.
  unfoldable pub close_manager : WebSocketManager A B → WebSocketManager A B
  unfolding close_games
  close_manager manager = record {
    games = [];
    all_closed = true;
    store = close_games manager.games manager.store;
  }

  -- `TryWaitForAllClosed`: `none` is that the channel was closed first, otherwise the time ran out and
  -- the manager is looked at again.
  unfoldable pub try_wait_for_all_closed :
      WebSocketManager A B → Option (WebSocketManager A B) → Bool
  try_wait_for_all_closed manager none = true
  try_wait_for_all_closed manager (some later) =
      if is_empty manager.games then true else is_empty later.games
