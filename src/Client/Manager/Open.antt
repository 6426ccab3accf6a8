-- ===== src/Client/Manager/Open.antt =====
-- The channel `allClosed` of a manager that is not closed (game/common/client/manager.go): no operation
-- leaves it closed, so closing a game does not panic.
use dice_server.Prelude.{
  ℕ, ◌≡◌, ◌≢◌, inl, inr, false, none, some, [], Option-cases, Bool-cases, arith,
}
use dice_server.Prelude.Assoc.{lookup, insert, delete}
use dice_server.Connect.{Uuid}
use dice_server.Client.Manager.{WebSocketManager, is_empty, get_client, upgrade_client, close_game}
use dice_server.Client.Manager.Lookups.{lookup-nil}

module _ {A B : Type 0} where
  pub close_game-none :
      (g : Uuid) (m : WebSocketManager A B) → m.all_closed ≡ false → close_game g m ≢ none
  unfolding close_game
  close_game-none g m up e = elim (Option-cases (lookup g m.games)) [
    | inl missing ↦ elim (Bool-cases (is_empty (delete g (insert g [] m.games)))) [
      | inl last ↦ ground arith
      | inr more ↦ ground arith
    ]
    | inr (cs, there) ↦ elim (Bool-cases (is_empty (delete g m.games))) [
      | inl last ↦ ground arith
      | inr more ↦ ground arith
    ]
  ]

  pub close_game-all_closed :
      (g : Uuid) (m m' : WebSocketManager A B)
      → m.all_closed ≡ false
      → close_game g m ≡ some m'
      → m'.all_closed ≡ false
  unfolding close_game
  close_game-all_closed g m m' up e = elim (Option-cases (lookup g m.games)) [
    | inl missing ↦ elim (Bool-cases (is_empty (delete g (insert g [] m.games)))) [
      | inl last ↦ ground arith
      | inr more ↦ ground arith
    ]
    | inr (cs, there) ↦ elim (Bool-cases (is_empty (delete g m.games))) [
      | inl last ↦ ground arith
      | inr more ↦ ground arith
    ]
  ]

  pub all_closed-upgrade_client :
      (g u : Uuid) (conn c : ℕ) (m m' : WebSocketManager A B)
      → upgrade_client g u conn m ≡ some (c, m')
      → m'.all_closed ≡ m.all_closed
  unfolding upgrade_client
  all_closed-upgrade_client g u conn c m m' e = elim (Option-cases (lookup g m.games)) [
    | inl missing ↦ ground arith
    | inr (cs, there) ↦ elim (Option-cases (lookup u cs)) [
      | inl new ↦ ground arith
      | inr (d, known) ↦ ground arith
    ]
  ]

  pub all_closed-get_client :
      (g u : Uuid) (m : WebSocketManager A B) → (get_client g u m).1.all_closed ≡ m.all_closed
  unfolding get_client
  all_closed-get_client g u m = elim (Option-cases (lookup g m.games)) [
    | inl missing ↦ ground (arith, lookup-nil {V = ℕ} u)
    | inr (cs, there) ↦ elim (Option-cases (lookup u cs)) [
      | inl new ↦ ground arith
      | inr (c, known) ↦ ground arith
    ]
  ]
