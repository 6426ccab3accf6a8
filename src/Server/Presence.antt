-- ===== src/Server/Presence.antt =====
-- Which games a manager has, while players come in and games end
-- (game/common/client/manager.go and game/farkle/internal/web/entry.go).
use dice_server.Prelude.{
  ℕ, ◌≡◌, inl, inr, refl, sym, ap, ◌∙◌, String, Bool, true, false, ◌||◌, not, Option, none, some,
  List, [], ◌∷◌, ◌==◌, if_intro, Bool-cases, Option-cases, arith, length,
}
use dice_server.Prelude.Assoc.{lookup, insert, lookup-insert}
use dice_server.Connect.{Uuid}
use dice_server.Auth.{GameToken}
use dice_server.Auth.Signing.{Jwt, validate_game_token}
use dice_server.Client.Manager.{
  GameClients, WebSocketManager, is_empty, try_get_game, close_game, get_client, upgrade_client,
}
use dice_server.Client.Manager.Lookups.{lookup-nil}
use dice_server.Client.Manager.Closing.{close_game-try_get_game}
use dice_server.Farkle.Entry
use dice_server.Farkle.Entry.{Entry, after_client, after_upgrade, after_token, entry_handler}
use dice_server.Server.{after_entry}

abbrev pub is_there : Option GameClients → Bool
is_there none = false
is_there (some clients) = true

insert-is_there :
    (g h : Uuid) (cs cs' : GameClients) (games : List (Uuid × GameClients))
    → lookup g games ≡ some cs
    → is_there (lookup h (insert g cs' games)) ≡ is_there (lookup h games)
insert-is_there g h cs cs' games there = elim (Bool-cases (g == h)) [
  | inl same ↦
      let is_h : g ≡ h = ground arith in
      let there_h : lookup h games ≡ some cs = ap (λ k. lookup k games) (sym is_h) ∙ there in
      ground (arith, lookup-insert g h cs' games)
  | inr other ↦ ground (arith, lookup-insert g h cs' games)
]

pub some_entry :
    (games : List (Uuid × GameClients))
    → is_empty games ≡ false
    → (g : Uuid) × (is_there (lookup g games) ≡ true)
unfolding lookup
some_entry [] e = absurd cc
some_entry ((g, cs) ∷ games) e = (g, ground arith)

pub is_empty-is_there :
    (g : Uuid) (games : List (Uuid × GameClients))
    → is_there (lookup g games) ≡ true
    → is_empty games ≡ false
unfolding lookup
is_empty-is_there g [] e = absurd cc
is_empty-is_there g (x ∷ games) e = refl

module _ {A B : Type 0} where
  abbrev pub has_game : Uuid → WebSocketManager A B → Bool
  has_game g m = is_there (lookup g m.games)

  -- Coming in makes no game and ends none.
  abbrev pub SameGames : WebSocketManager A B → WebSocketManager A B → Type 0
  SameGames m m' = (g : Uuid) → has_game g m' ≡ has_game g m

  upgrade_client-SameGames :
      (g u : Uuid) (conn c : ℕ) (m m' : WebSocketManager A B)
      → upgrade_client g u conn m ≡ some (c, m')
      → SameGames m m'
  unfolding upgrade_client
  upgrade_client-SameGames g u conn c m m' e h = elim (Option-cases (lookup g m.games)) [
    | inl missing ↦ absurd (ground arith)
    | inr (cs, there) ↦ elim (Option-cases (lookup u cs)) [
      | inl new ↦
          ground (arith, insert-is_there g h cs (insert u (length m.store) cs) m.games there)
      | inr (d, known) ↦ ground arith
    ]
  ]

  after_client-SameGames :
      (m : WebSocketManager A B) (o : Option (ℕ × WebSocketManager A B))
      → ((c : ℕ) (m' : WebSocketManager A B) → o ≡ some (c, m') → SameGames m m')
      → SameGames m (after_entry m (after_client o))
  unfolding after_client after_entry
  after_client-SameGames m none same g = refl
  after_client-SameGames m (some (c, m')) same g = same c m' refl g

  after_token-SameGames :
      (config : Entry.Config) (upgraded : Option ℕ) (m : WebSocketManager A B)
      (token : Option GameToken)
      → SameGames m (after_entry m (after_token config upgraded m token))
  unfolding after_token after_upgrade after_entry
  after_token-SameGames config upgraded m none g = refl
  after_token-SameGames config none m (some token) g =
      if_intro (λ e. has_game g (after_entry m e) ≡ has_game g m)
        (not (token.server_id == config.server_id)) _ _ refl refl
  after_token-SameGames config (some conn) m (some token) g =
      if_intro (λ e. has_game g (after_entry m e) ≡ has_game g m)
        (not (token.server_id == config.server_id)) _ _ refl
        (after_client-SameGames m (upgrade_client token.game_id token.user_id conn m)
          (λ c m' e. upgrade_client-SameGames token.game_id token.user_id conn c m m' e) g)

  pub has_game-close_game :
      (g h : Uuid) (m m' : WebSocketManager A B)
      → close_game g m ≡ some m'
      → has_game h m' ≡ true
      → (has_game h m ≡ true) × ((g == h) ≡ false)
  unfolding try_get_game
  has_game-close_game g h m m' e there =
      let same = close_game-try_get_game g h m m' e in
      elim (Bool-cases (g == h)) [
        | inl gone ↦ absurd (ground arith)
        | inr other ↦ (ground arith, other)
      ]

  pub entry-SameGames :
      (jwt : Jwt) (config : Entry.Config) (now : ℕ) (auth : String) (upgraded : Option ℕ)
      (m : WebSocketManager A B)
      → SameGames m (after_entry m (entry_handler jwt config now auth upgraded m))
  unfolding entry_handler
  entry-SameGames jwt config now auth upgraded m =
      after_token-SameGames config upgraded m (validate_game_token jwt config.secret now auth)

  pub get_client-has_game :
      (g u h : Uuid) (m : WebSocketManager A B)
      → has_game h (get_client g u m).1 ≡ has_game h m || g == h
  unfolding get_client
  get_client-has_game g u h m = elim (Option-cases (lookup g m.games)) [
    | inl missing ↦ ground (
      arith,
      lookup-nil {V = ℕ} u,
      lookup-insert g h [] m.games,
      lookup-insert g h (insert u (length m.store) []) (insert g [] m.games),
    )
    | inr (cs, there) ↦
        let here : g == h ≡ true → has_game h m ≡ true = λ same.
          let is_h : g ≡ h = ground arith in
          ap (λ k. is_there (lookup k m.games)) (sym is_h) ∙ ap is_there there in
        elim (Option-cases (lookup u cs)) [
          | inl new ↦ ground (arith, here, lookup-insert g h (insert u (length m.store) cs) m.games)
          | inr (c, known) ↦ ground (arith, here)
        ]
  ]
