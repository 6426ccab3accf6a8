-- ===== src/Client/Manager/Calls.antt =====
-- The methods of the manager called one after another (game/common/client/manager.go).
use mathlib.Core.Path.{subst}
use dice_server.Prelude.{
  ℕ, suc, zero, ◌≡◌, inl, inr, refl, sym, ap, ◌∙◌, Option, none, some, List, [], ◌∷◌, ◌++◌, length,
  length-append, ◌==◌, Option-cases, Bool-cases, arith,
}
use dice_server.Prelude.Assoc.{lookup, insert, lookup-insert}
use dice_server.Connect.{Uuid}
use dice_server.Client.Socket.{WebSocketClient, new_web_socket_client, reconnect}
use dice_server.Client.Manager.{
  GameClients, WebSocketManager, new_web_socket_manager, try_get_game, get_client, upgrade_client,
  on_client, close_clients, close_game, close_manager,
}
use dice_server.Client.Manager.Lookups.{
  find_client, client_in, IsSound, GetsClient, new_client-IsSound, get_client-GetsClient,
}
use dice_server.Client.Manager.Closing.{close_game-try_get_game, length-on_client}

pub data Call : Type 0 where
  gets : Uuid → Uuid → Call
  upgrades : Uuid → Uuid → ℕ → Call
  ends : Uuid → Call
  closes : Call

module _ {A B : Type 0} where
  abbrev upgraded : Option (ℕ × WebSocketManager A B) → WebSocketManager A B → WebSocketManager A B
  upgraded none m = m
  upgraded (some (client, m')) m = m'

  -- A panic ends the program, and leaves the manager.
  abbrev ended : Option (WebSocketManager A B) → WebSocketManager A B → WebSocketManager A B
  ended none m = m
  ended (some m') m = m'

  abbrev run_call : Call → WebSocketManager A B → WebSocketManager A B
  run_call (gets game user) m = (get_client game user m).1
  run_call (upgrades game user conn) m = upgraded (upgrade_client game user conn m) m
  run_call (ends game) m = ended (close_game game m) m
  run_call closes m = close_manager m

  abbrev pub run_calls : List Call → WebSocketManager A B → WebSocketManager A B
  run_calls [] m = m
  run_calls (c ∷ cs) m = run_calls cs (run_call c m)

  -- The same players with the same clients, in a store of the same length.
  same-IsSound :
      (m m' : WebSocketManager A B)
      → IsSound m
      → length m'.store ≡ length m.store
      → ((g u c : ℕ) → find_client g u m' ≡ some c → find_client g u m ≡ some c)
      → IsSound m'
  same-IsSound m m' sound long same = record {
    below = λ g u c e. omega (arith, sound.below g u c (same g u c e), long);
    apart = λ g u g' u' c e f. sound.apart g u g' u' c (same g u c e) (same g' u' c f);
  }

  length-reconnected :
      (conn c : ℕ) (store : List (WebSocketClient A B))
      → length (on_client (reconnect conn) c store) ≡ length store
  unfolding on_client
  length-reconnected conn c [] = refl
  length-reconnected conn zero (w ∷ ws) = refl
  length-reconnected conn (suc c) (w ∷ ws) = ap suc (length-reconnected conn c ws)

  upgraded-IsSound :
      (g u : Uuid) (conn : ℕ) (m : WebSocketManager A B)
      → IsSound m
      → IsSound (upgraded (upgrade_client g u conn m) m)
  unfolding upgrade_client
  upgraded-IsSound g u conn m sound = elim (Option-cases (lookup g m.games)) [
    | inl missing ↦
        let refused : upgrade_client g u conn m ≡ none = ground arith in
        subst (λ o. IsSound (upgraded o m)) (sym refused) sound
    | inr (cs, there) ↦ elim (Option-cases (lookup u cs)) [
      | inl new ↦
          let m' = record m {
            games = insert g (insert u (length m.store) cs) m.games;
            store =
                on_client (reconnect conn) (length m.store) (m.store ++ new_web_socket_client ∷ []);
          } in
          let made : upgrade_client g u conn m ≡ some (length m.store, m') = ground arith in
          subst (λ o. IsSound (upgraded o m)) (sym made)
            (new_client-IsSound g u m m' sound
              (length-reconnected conn (length m.store) (m.store ++ new_web_socket_client ∷ [])
                ∙ length-append m.store (new_web_socket_client ∷ []))
              (λ g' u'. ground (
                arith,
                lookup-insert g g' (insert u (length m.store) cs) m.games,
                lookup-insert u u' (length m.store) cs,
              )))
      | inr (c, known) ↦
          let m' = record m { store = on_client (reconnect conn) c m.store } in
          let kept : upgrade_client g u conn m ≡ some (c, m') = ground arith in
          subst (λ o. IsSound (upgraded o m)) (sym kept)
            (same-IsSound m m' sound (length-reconnected conn c m.store) (λ g' u' d f. f))
    ]
  ]

  length-close_clients :
      (cs : GameClients) (store : List (WebSocketClient A B))
      → length (close_clients cs store) ≡ length store
  unfolding close_clients
  length-close_clients [] store = refl
  length-close_clients ((u, c) ∷ cs) store = length-close_clients cs _ ∙ length-on_client c store

  length-close_game :
      (g : Uuid) (m m' : WebSocketManager A B)
      → close_game g m ≡ some m'
      → length m'.store ≡ length m.store
  unfolding close_game close_clients
  length-close_game g m m' e = elim (Option-cases (lookup g m.games)) [
    | inl missing ↦ ground arith
    | inr (cs, there) ↦ ground (arith, length-close_clients cs m.store)
  ]

  find_client-close_game :
      (g g' u c : ℕ) (m m' : WebSocketManager A B)
      → close_game g m ≡ some m'
      → find_client g' u m' ≡ some c
      → find_client g' u m ≡ some c
  unfolding try_get_game
  find_client-close_game g g' u c m m' e f = elim (Bool-cases (g == g')) [
    | inl gone ↦ absurd (ground (arith, close_game-try_get_game g g' m m' e))
    | inr other ↦ ap (client_in u) (sym (close_game-try_get_game g g' m m' e ∙ rw other refl)) ∙ f
  ]

  ended-IsSound :
      (g : Uuid) (m : WebSocketManager A B) (o : Option (WebSocketManager A B))
      → close_game g m ≡ o
      → IsSound m
      → IsSound (ended o m)
  ended-IsSound g m none e sound = sound
  ended-IsSound g m (some m') e sound =
      same-IsSound m m' sound (length-close_game g m m' e)
        (λ g' u c. find_client-close_game g g' u c m m' e)

  run_call-IsSound : (c : Call) (m : WebSocketManager A B) → IsSound m → IsSound (run_call c m)
  run_call-IsSound (gets g u) m sound = (get_client-GetsClient g u m sound).0
  run_call-IsSound (upgrades g u conn) m sound = upgraded-IsSound g u conn m sound
  run_call-IsSound (ends g) m sound = ended-IsSound g m (close_game g m) refl sound
  run_call-IsSound closes m sound =
      unfold close_manager in
      unfold lookup in record { below = λ g u c e. absurd cc; apart = λ g u g' u' c e f. absurd cc }

  run_calls-IsSound :
      (cs : List Call) (m : WebSocketManager A B) → IsSound m → IsSound (run_calls cs m)
  run_calls-IsSound [] m sound = sound
  run_calls-IsSound (c ∷ cs) m sound =
      run_calls-IsSound cs (run_call c m) (run_call-IsSound c m sound)

  pub new_web_socket_manager-IsSound : IsSound (new_web_socket_manager {A = A} {B = B})
  unfolding new_web_socket_manager lookup
  new_web_socket_manager-IsSound = record {
    below = λ g u c e. absurd cc;
    apart = λ g u g' u' c e f. absurd cc;
  }

  -- After any calls of the manager's methods, one after another from a new manager, `GetClient` yields
  -- the client that the player then has: the one it had, or a new one that no other player has. All
  -- other players keep theirs, and no two players share a client. Calls that come between the two parts
  -- of another are not among these.
  pub run_calls-GetsClient :
      (cs : List Call) (g u : Uuid)
      → let m : WebSocketManager A B = run_calls cs new_web_socket_manager in
        GetsClient g u m (get_client g u m)
  run_calls-GetsClient cs g u =
      let m : WebSocketManager A B = run_calls cs new_web_socket_manager in
      get_client-GetsClient g u m
        (run_calls-IsSound cs new_web_socket_manager new_web_socket_manager-IsSound)
