-- ===== src/Client/Manager/Lookups.antt =====
-- Which client a player gets (game/common/client/manager.go).
use mathlib.Core.Path.{subst}
use dice_server.Prelude.{
  ℕ, ◌+◌, ◌<◌, ◌≡◌, ◌⊎◌, inl, inr, refl, ap, sym, ◌∙◌, Option, none, some, [], ◌∷◌, ◌++◌, ◌&&◌,
  length, length-append, ◌==◌, if◌then◌else◌, Option-cases, arith,
}
use dice_server.Prelude.Assoc.{lookup, insert, lookup-insert}
use dice_server.Connect.{Uuid}
use dice_server.Client.Socket.{new_web_socket_client, reconnect}
use dice_server.Client.Manager.{
  GameClients, WebSocketManager, get_client, on_client, upgrade_client,
}

abbrev pub client_in : Uuid → Option GameClients → Option ℕ
client_in user none = none
client_in user (some clients) = lookup user clients

pub lookup-nil : {V : Type 0} (k : ℕ) → lookup {V = V} k [] ≡ none
unfolding lookup
lookup-nil k = refl

module _ {A B : Type 0} where
  -- The client of a player, if it has been made.
  abbrev pub find_client : Uuid → Uuid → WebSocketManager A B → Option ℕ
  find_client game user m = client_in user (lookup game m.games)

  -- The three ways through `GetClient`: the client is there, the game is, or neither.
  pub get_client_cases :
      (g u : Uuid) (m : WebSocketManager A B)
      → ((c : ℕ) × (find_client g u m ≡ some c) × (get_client g u m ≡ (c, m)))
        ⊎ ((find_client g u m ≡ none)
            × ((get_client g u m).0 ≡ length m.store)
            × ((get_client g u m).1.store ≡ m.store ++ new_web_socket_client ∷ [])
            × ((g' u' : Uuid)
                → find_client g' u' (get_client g u m).1
                  ≡ (if g == g' && u == u' then some (length m.store) else find_client g' u' m)))
  unfolding get_client
  get_client_cases g u m = elim (Option-cases (lookup g m.games)) [
    | inl e ↦ inr (
      ground arith,
      ground (arith, lookup-nil {V = ℕ} u),
      ground (arith, lookup-nil {V = ℕ} u),
      λ g' u'. ground (
        arith,
        lookup-nil {V = ℕ} u,
        lookup-nil {V = ℕ} u',
        lookup-insert g g' [] m.games,
        lookup-insert g g' (insert u (length m.store) []) (insert g [] m.games),
        lookup-insert u u' (length m.store) [],
      ),
    )
    | inr (cs, e) ↦ elim (Option-cases (lookup u cs)) [
      | inl f ↦ inr (
        ground arith,
        ground arith,
        ground arith,
        λ g' u'. ground (
          arith,
          lookup-insert g g' (insert u (length m.store) cs) m.games,
          lookup-insert u u' (length m.store) cs,
        ),
      )
      | inr (c, f) ↦ inl (c, ground arith, ground arith)
    ]
  ]

module _ {A B : Type 0} where
  pub find_client-get_client :
      (g u : Uuid) (m : WebSocketManager A B)
      → find_client g u (get_client g u m).1 ≡ some (get_client g u m).0
  find_client-get_client g u m = elim (get_client_cases g u m) [
    | inl (c, e, same) ↦ ground arith
    | inr (fresh, id, store, found) ↦ ground (arith, found g u)
  ]

  -- A player whose client is there is connected with it.
  pub upgrade_client-found :
      (g u : Uuid) (conn c : ℕ) (m : WebSocketManager A B)
      → find_client g u m ≡ some c
      → upgrade_client g u conn m
        ≡ some (c, record m { store = on_client (reconnect conn) c m.store })
  unfolding upgrade_client
  upgrade_client-found g u conn c m e = elim (Option-cases (lookup g m.games)) [
    | inl missing ↦ absurd (ground arith)
    | inr (cs, there) ↦ ground arith
  ]

  -- Every client is in the store, and no two players share one.
  pub record IsSound (m : WebSocketManager A B) : Type 0 where
    pub below : (g u c : ℕ) → find_client g u m ≡ some c → c < length m.store
    pub apart :
        (g u g' u' c : ℕ)
        → find_client g u m ≡ some c
        → find_client g' u' m ≡ some c
        → (g ≡ g') × (u ≡ u')

  -- What `GetClient` promises of its result and the manager afterwards.
  abbrev pub GetsClient : Uuid → Uuid → WebSocketManager A B → ℕ × WebSocketManager A B → Type 0
  GetsClient g u m (c, m') =
      IsSound m'
      × (find_client g u m' ≡ some c)
      × ((g' u' d : ℕ) → find_client g' u' m ≡ some d → find_client g' u' m' ≡ some d)

  pub new_client-IsSound :
      (g u : Uuid) (m m' : WebSocketManager A B)
      → IsSound m
      → length m'.store ≡ length m.store + 1
      → ((g' u' : Uuid)
          → find_client g' u' m'
            ≡ (if g == g' && u == u' then some (length m.store) else find_client g' u' m))
      → IsSound m'
  new_client-IsSound g u m m' sound longer found = record {
    below = λ g' u' c e. ground (arith, found g' u', sound.below g' u' c, longer);
    apart = λ g' u' h v c e f. ground (
      arith,
      found g' u',
      found h v,
      sound.apart g' u' h v c,
      sound.below g' u' c,
      sound.below h v c,
    );
  }

  -- `GetClient` yields the client that the player then has: the one it had, or a new one that no
  -- other player has. All other players keep theirs, and no two players share a client, where none did.
  pub get_client-GetsClient :
      (g u : Uuid) (m : WebSocketManager A B) → IsSound m → GetsClient g u m (get_client g u m)
  get_client-GetsClient g u m sound = elim (get_client_cases g u m) [
    | inl (c, e, same) ↦ subst (GetsClient g u m) (sym same) (sound, e, λ g' u' d f. f)
    | inr (none_yet, id, store, found) ↦ (
      new_client-IsSound g u m (get_client g u m).1 sound
          (ap length store ∙ length-append m.store (new_web_socket_client ∷ [])) found,
      ground (arith, found g u),
      λ g' u' d f. ground (arith, found g' u'),
    )
  ]
