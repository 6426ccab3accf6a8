-- ===== src/Auth.antt =====
-- common/auth/token: the tokens with which a player enters a game server. A time is a number of
-- nanoseconds. `numeric_date` is `jwt.NewNumericDate`, of the JWT library. Signing and parsing are
-- that library's.
pub mod Lifetime
pub mod Signing
pub mod Sample
mod Examples
use dice_server.Prelude.{
  ℕ, ◌+◌, String, Bool, true, false, Option, none, some, ltb, ◌==◌, str_eq, if◌then◌else◌,
}
use dice_server.Connect.{Uuid}

pub data TokenError : Type 0 where
  missing_user_id missing_game_id missing_server_id missing_server_host expired_token : TokenError

pub record RegisteredClaims : Type 0 where
  pub issuer : String
  pub issued_at : Option ℕ
  pub expires_at : Option ℕ

pub record GameToken : Type 0 where
  pub user_id : Uuid
  pub game_id : Uuid
  pub server_id : Uuid
  pub server_host : String
  pub claims : RegisteredClaims

abbrev pub nil_uuid : Uuid
nil_uuid = 0

-- An hour.
abbrev pub game_token_lifetime : ℕ
game_token_lifetime = 3_600_000_000_000

-- `none` is a nil error.
unfoldable pub validate_registered_claims : ℕ → RegisteredClaims → Option TokenError
validate_registered_claims now claims = elim (claims.expires_at) [
  | none ↦ some expired_token
  | some expires ↦ if ltb expires now then some expired_token else none
]

unfoldable pub validate : ℕ → GameToken → Option TokenError
unfolding validate_registered_claims
validate now token =
    if token.user_id == nil_uuid
    then some missing_user_id
    else if token.game_id == nil_uuid
    then some missing_game_id
    else if token.server_id == nil_uuid
    then some missing_server_id
    else if str_eq token.server_host ""
    then some missing_server_host
    else validate_registered_claims now token.claims

unfoldable pub new_game_token : (ℕ → ℕ) → Uuid → Uuid → Uuid → String → String → ℕ → GameToken
new_game_token numeric_date user_id game_id server_id server_host issuer issued_at = record {
  user_id = user_id;
  game_id = game_id;
  server_id = server_id;
  server_host = server_host;
  claims = record {
    issuer = issuer;
    issued_at = some (numeric_date issued_at);
    expires_at = some (numeric_date (issued_at + game_token_lifetime));
  };
}
