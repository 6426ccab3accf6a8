-- ===== src/Auth/Lifetime.antt =====
-- When a token is valid (common/auth/token).
use dice_server.Prelude.{ℕ, ◌+◌, ◌≤◌, ◌<◌, ◌≡◌, ◌≢◌, ◌↔◌, String, false, none, some, str_eq, arith}
use dice_server.Connect.{Uuid}
use dice_server.Auth.{
  expired_token, GameToken, nil_uuid, game_token_lifetime, validate_registered_claims, validate,
  new_game_token,
}

-- The token names a user, a game, a server and a host.
abbrev pub IsComplete : GameToken → Type 0
IsComplete token =
    (token.user_id ≢ nil_uuid)
    × (token.game_id ≢ nil_uuid)
    × (token.server_id ≢ nil_uuid)
    × (str_eq token.server_host "" ≡ false)

pub new_game_token-IsComplete :
    (numeric_date : ℕ → ℕ) (user_id game_id server_id : Uuid) (host issuer : String) (issued_at : ℕ)
    → user_id ≢ nil_uuid
    → game_id ≢ nil_uuid
    → server_id ≢ nil_uuid
    → str_eq host "" ≡ false
    → IsComplete (new_game_token numeric_date user_id game_id server_id host issuer issued_at)
unfolding new_game_token
new_game_token-IsComplete numeric_date user_id game_id server_id host issuer issued_at user game
      server has_host =
    (user, game, server, has_host)

abbrev pub IsInTime : ℕ → GameToken → Type 0
IsInTime now token = (expires : ℕ) × (token.claims.expires_at ≡ some expires) × (now ≤ expires)

-- A token validates exactly if none of its ids is nil, its host is not empty, it has an expiry time,
-- and that is not before now.
pub validate_iff :
    (now : ℕ) (token : GameToken)
    → (validate now token ≡ none) ↔ (IsComplete token × IsInTime now token)
unfolding validate validate_registered_claims
validate_iff now token = ground arith

-- The library may round a time down, by less than a second.
abbrev pub RoundsDown : (ℕ → ℕ) → Type 0
RoundsDown numeric_date = (t : ℕ) → (numeric_date t ≤ t) × (t < numeric_date t + 1_000_000_000)

-- Where the JWT library rounds times down by less than a second, a new token with ids that are not
-- nil and a host that is not empty validates until a second before an hour after its issue.
pub new_game_token-valid :
    (numeric_date : ℕ → ℕ) (user_id game_id server_id : Uuid) (host issuer : String)
    (issued_at now : ℕ)
    → RoundsDown numeric_date
    → IsComplete (new_game_token numeric_date user_id game_id server_id host issuer issued_at)
    → now + 1_000_000_000 ≤ issued_at + game_token_lifetime
    → validate now (new_game_token numeric_date user_id game_id server_id host issuer issued_at)
      ≡ none
unfolding validate validate_registered_claims new_game_token
new_game_token-valid numeric_date user_id game_id server_id host issuer issued_at now rounds
      complete h =
    let (low, high) = rounds (issued_at + game_token_lifetime) in ground arith

-- Where the JWT library rounds times down, a new token with ids that are not nil and a host that is
-- not empty is expired an hour after its issue.
pub new_game_token-expired :
    (numeric_date : ℕ → ℕ) (user_id game_id server_id : Uuid) (host issuer : String)
    (issued_at now : ℕ)
    → RoundsDown numeric_date
    → IsComplete (new_game_token numeric_date user_id game_id server_id host issuer issued_at)
    → issued_at + game_token_lifetime < now
    → validate now (new_game_token numeric_date user_id game_id server_id host issuer issued_at)
      ≡ some expired_token
unfolding validate validate_registered_claims new_game_token
new_game_token-expired numeric_date user_id game_id server_id host issuer issued_at now rounds
      complete h =
    let (low, high) = rounds (issued_at + game_token_lifetime) in ground arith
