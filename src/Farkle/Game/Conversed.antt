-- ===== src/Farkle/Game/Conversed.antt =====
-- The conversation with each client of a new game (game/farkle/internal/logic/game.go,
-- `NewFarkleGame` and `Play`).
use dice_server.Prelude.{
  ℕ, zero, suc, ◌%◌, ◌<◌, ◌≡◌, refl, sym, ap, some, List, [], ◌∷◌, ◌==◌, if◌then◌else◌, get_elem?,
  arith,
}
use dice_server.Connect.{Uuid, LobbyPlayer, CreateFarkleRequest}
use dice_server.Farkle.Dice.{Roller}
use dice_server.Farkle.Player.{Wake}
use dice_server.Farkle.Game.Match.{make_player, play, new_farkle_game}
use dice_server.Farkle.Protocol.Hearing.{times}
use dice_server.Farkle.Game.Heard.{FollowsProtocol, play-Heard, Heard-FollowsProtocol}

abbrev pub id_of : LobbyPlayer → LobbyPlayer → ℕ → Uuid
id_of a b i = if i == 0 then a.user_id else b.user_id

named_seats :
    (a b : LobbyPlayer) (i : ℕ) (p : LobbyPlayer)
    → get_elem? (a ∷ b ∷ []) i ≡ some p
    → p.user_id ≡ id_of a b i
named_seats a b zero p e = let same : a ≡ p = cc in ap (λ x. x.user_id) (sym same)
named_seats a b (suc zero) p e = let same : b ≡ p = cc in ap (λ x. x.user_id) (sym same)
named_seats a b (suc (suc i)) p e = absurd cc

once_each : (client : ℕ) → client < 2 → times client (0 ∷ 1 ∷ []) ≡ 1
once_each zero small = refl
once_each (suc zero) small = refl
once_each (suc (suc n)) small = absurd (omega arith)

-- What a new game, over any number of turns, sends to each of the two clients is a conversation of the
-- protocol: the opening, then turns of the players in turn, beginning with the one behind the index
-- drawn, each message at its place and with the id of the right player, and nothing twice. If the game
-- has a winner, that is one of the two players, and the conversation is complete and names the winner;
-- if it is broken off, it ends with the error and the end, and no winner; if it waits, it has come to a
-- player's choice of dice, and if the turns run out, to the end of a turn. Nothing is said of a game
-- that crashes.
pub play-FollowsProtocol :
    (a b : LobbyPlayer) (create : CreateFarkleRequest) (wakes wakes' : List Wake) (roller : Roller)
    (clock : ℕ → ℕ) (turns first client : ℕ)
    → client < 2
    → FollowsProtocol
        (id_of a b)
        2
        (first % 2)
        client
        (play turns first (new_farkle_game a b create wakes wakes' roller clock))
unfolding new_farkle_game make_player
play-FollowsProtocol a b create wakes wakes' roller clock turns first client small =
    let player = id_of a b in
    let once = once_each client small in
    Heard-FollowsProtocol player 2 (first % 2) client (a ∷ b ∷ []) (0 ∷ 1 ∷ []) (named_seats a b)
      once _
      (play-Heard player 2 (first % 2) client (a ∷ b ∷ []) (0 ∷ 1 ∷ []) (named_seats a b) once turns
        first (new_farkle_game a b create wakes wakes' roller clock) refl
        (record { heard = refl; seated = refl; who = refl; all = refl }))
