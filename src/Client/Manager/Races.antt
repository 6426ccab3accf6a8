-- ===== src/Client/Manager/Races.antt =====
-- `getOrCreateGame` tests and creates under two locks (game/common/client/manager.go).
use dice_server.Prelude.{ℕ, ◌≡◌, none, some, [], arith}
use dice_server.Prelude.Assoc.{lookup-insert}
use dice_server.Connect.{Uuid}
use dice_server.Client.Manager.{WebSocketManager, try_get_game, create_game, get_client}
use dice_server.Client.Manager.Lookups.{find_client, lookup-nil, find_client-get_client}

module _ {A B : Type 0} where
  -- The race: a thread has found no game and has not yet created it. Meanwhile another one gets a
  -- client of that game, any client of any player. The first thread then puts a new game in its
  -- place, and the client that was handed out is found no more.
  pub late_create_loses :
      (g u : Uuid) (m : WebSocketManager A B)
      → try_get_game g m ≡ none
      → (find_client g u (get_client g u m).1 ≡ some (get_client g u m).0)
        × (find_client g u (create_game g (get_client g u m).1) ≡ none)
  unfolding create_game try_get_game
  late_create_loses g u m none_yet =
      let m' = (get_client g u m).1 in
      let lost : find_client g u (create_game g m') ≡ none =
        ground (arith, lookup-insert g g [] m'.games, lookup-nil {V = ℕ} u) in
      (find_client-get_client g u m, lost)
