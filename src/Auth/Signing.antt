-- ===== src/Auth/Signing.antt =====
-- common/auth/token: `ValidateGameToken` and `Sign` over the JWT library.
use dice_server.Prelude.{ℕ, ◌+◌, ◌≤◌, ◌<◌, ◌≡◌, refl, String, Option, none, some, arith}
use dice_server.Connect.{Uuid}
use dice_server.Auth.{GameToken, game_token_lifetime, validate, new_game_token}
use dice_server.Auth.Lifetime.{IsComplete, RoundsDown, new_game_token-valid}

pub data Method : Type 0 where
  hmac other : Method

-- The key function that `ValidateGameToken` gives to the library; `none` is `ErrMismatchedMethod`.
unfoldable pub key_for : String → Method → Option String
key_for secret hmac = some secret
key_for secret other = none

-- `jwt.ParseWithClaims` on a `GameToken`, with the key function and the time, and `SignedString` with
-- HS256 on a secret.
pub record Jwt : Type 0 where
  pub numeric_date : ℕ → ℕ
  pub parse_with_claims : (Method → Option String) → ℕ → String → Option GameToken
  pub signed_string : String → GameToken → Option String

-- `none` is an error of the library. The type assertion behind it holds, since the claims are the ones
-- that were passed in.
unfoldable pub validate_game_token : Jwt → String → ℕ → String → Option GameToken
unfolding key_for
validate_game_token jwt secret now text = jwt.parse_with_claims (key_for secret) now text

unfoldable pub sign : Jwt → String → GameToken → Option String
sign jwt secret token = jwt.signed_string secret token

-- What the code relies on: times are rounded down to the second; parsing calls the claims' `Validate`;
-- and a token whose times are rounded, signed with HS256, is read back with the same key, if its claims
-- validate and its expiry time is still to come.
pub record IsDocumented (jwt : Jwt) : Type 0 where
  pub rounds : RoundsDown jwt.numeric_date
  pub validates :
      (key : Method → Option String) (now : ℕ) (text : String) (token : GameToken)
      → jwt.parse_with_claims key now text ≡ some token
      → validate now token ≡ none
  pub reads_back :
      (key : Method → Option String) (secret text : String) (now issued expires : ℕ)
      (token : GameToken)
      → jwt.signed_string secret token ≡ some text
      → key hmac ≡ some secret
      → validate now token ≡ none
      → token.claims.issued_at ≡ some (jwt.numeric_date issued)
      → token.claims.expires_at ≡ some (jwt.numeric_date expires)
      → now < jwt.numeric_date expires
      → jwt.parse_with_claims key now text ≡ some token

-- A new token with ids that are not nil and a host, signed, is read back as it was with the same
-- secret, until a second before an hour after its issue. This rests on the JWT library rounding times
-- down to the second, and reading back what it has signed as long as the claims validate and are in
-- time.
pub validate_game_token-sign :
    (jwt : Jwt) (secret text host issuer : String) (user_id game_id server_id : Uuid)
    (issued_at now : ℕ)
    → IsDocumented jwt
    → IsComplete (new_game_token jwt.numeric_date user_id game_id server_id host issuer issued_at)
    → now + 1_000_000_000 ≤ issued_at + game_token_lifetime
    → sign jwt secret
        (new_game_token jwt.numeric_date user_id game_id server_id host issuer issued_at)
      ≡ some text
    → validate_game_token jwt secret now text
      ≡ some (new_game_token jwt.numeric_date user_id game_id server_id host issuer issued_at)
unfolding validate_game_token sign key_for new_game_token
validate_game_token-sign jwt secret text host issuer user_id game_id server_id issued_at now doc
      complete early signed =
    let (low, high) = doc.rounds (issued_at + game_token_lifetime) in
    doc.reads_back (key_for secret) secret text now issued_at (issued_at + game_token_lifetime) _
      signed refl
      (new_game_token-valid jwt.numeric_date user_id game_id server_id host issuer issued_at now
        doc.rounds complete early)
      refl refl (omega arith)
