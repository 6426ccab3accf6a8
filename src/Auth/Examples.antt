-- ===== src/Auth/Examples.antt =====
-- Tokens at concrete inputs (common/auth/token).
use dice_server.Prelude.{◌≡◌, some, arith}
use dice_server.Auth.Signing.{validate_game_token, validate_game_token-sign}
use dice_server.Auth.Sample.{
  token, sample_jwt, sample_jwt-IsDocumented, token-IsComplete, is_signed,
}

validate_game_token-sign_example :
    validate_game_token sample_jwt "secret" 3_604_000_000_000 "signed" ≡ some token
unfolding sample_jwt
validate_game_token-sign_example =
    validate_game_token-sign sample_jwt "secret" "signed" "localhost" "issuer" 101 100 3
      5_500_000_000 3_604_000_000_000 sample_jwt-IsDocumented token-IsComplete (omega arith)
      is_signed
