-- ===== src/Auth/Sample.antt =====
-- A JWT library for one token: it shows that what common/auth/token relies on can hold.
use mathlib.Core.Path.{subst}
use text.Mathlib.TextEquality.{eq_iff}
use dice_server.Prelude.{
  ℕ, ◌*◌, ◌/◌, ◌≡◌, ◌<◌, refl, sym, ap, ◌∙◌, inl, inr, Bool-cases, String, Bool, true, false,
  Option, none, some, ◌&&◌, ◌==◌, str_eq, if◌then◌else◌, arith,
}
use dice_server.Auth.{GameToken, TokenError, validate, new_game_token}
use dice_server.Auth.Lifetime.{IsComplete, RoundsDown}
use dice_server.Auth.Signing.{Method, hmac, Jwt, IsDocumented, sign}

abbrev pub whole_seconds : ℕ → ℕ
whole_seconds t = t / 1_000_000_000 * 1_000_000_000

pub whole_seconds-RoundsDown : RoundsDown whole_seconds
whole_seconds-RoundsDown t = (omega arith, omega arith)

abbrev same_time : Option ℕ → Option ℕ → Bool
same_time none none = true
same_time (some a) (some b) = a == b
same_time none (some b) = false
same_time (some a) none = false

same_time-eq : (a b : Option ℕ) → same_time a b ≡ true → a ≡ b
same_time-eq none none h = refl
same_time-eq none (some b) h = cc
same_time-eq (some a) none h = cc
same_time-eq (some a) (some b) h = ground arith

same_token : GameToken → GameToken → Bool
same_token t u =
    t.user_id == u.user_id
    && (t.game_id == u.game_id
        && (t.server_id == u.server_id
            && (str_eq t.server_host u.server_host
                && (str_eq t.claims.issuer u.claims.issuer
                    && (same_time t.claims.issued_at u.claims.issued_at
                        && same_time t.claims.expires_at u.claims.expires_at)))))

same_token-eq : (t u : GameToken) → same_token t u ≡ true → t ≡ u
unfolding same_token
same_token-eq t u h = ground (
  arith,
  eq_iff t.server_host u.server_host,
  eq_iff t.claims.issuer u.claims.issuer,
  same_time-eq t.claims.issued_at u.claims.issued_at,
  same_time-eq t.claims.expires_at u.claims.expires_at,
)

abbrev pub token : GameToken
token = new_game_token whole_seconds 101 100 3 "localhost" "issuer" 5_500_000_000

abbrev read_at : ℕ → Option GameToken
read_at now = elim (validate now token) [ none ↦ some token | some err ↦ none ]

abbrev read_by : ℕ → Option String → Option GameToken
read_by now none = none
read_by now (some key) = if str_eq key "secret" then read_at now else none

unfoldable pub sample_jwt : Jwt
unfolding same_token
sample_jwt = record {
  numeric_date = whole_seconds;
  parse_with_claims = λ key now text. if str_eq text "signed" then read_by now (key hmac) else none;
  signed_string =
      λ secret t. if str_eq secret "secret" && same_token t token then some "signed" else none;
}

read_at-valid :
    (now : ℕ) (t : GameToken) (o : Option TokenError)
    → validate now token ≡ o
    → read_at now ≡ some t
    → validate now t ≡ none
read_at-valid now t none v e =
    let same : token ≡ t = ground (arith, v) in subst (λ u. validate now u ≡ none) same v
read_at-valid now t (some err) v e = absurd (ground (arith, v))

read_by-valid :
    (now : ℕ) (t : GameToken) (key : Option String)
    → read_by now key ≡ some t
    → validate now t ≡ none
read_by-valid now t none e = cc
read_by-valid now t (some key) e = elim (Bool-cases (str_eq key "secret")) [
  | inl good ↦ read_at-valid now t (validate now token) refl (ground arith)
  | inr bad ↦ absurd (ground arith)
]

sample_jwt-validates :
    (key : Method → Option String) (now : ℕ) (text : String) (t : GameToken)
    → sample_jwt.parse_with_claims key now text ≡ some t
    → validate now t ≡ none
unfolding sample_jwt
sample_jwt-validates key now text t e = elim (Bool-cases (str_eq text "signed")) [
  | inl good ↦ read_by-valid now t (key hmac) (ground arith)
  | inr bad ↦ absurd (ground arith)
]

sample_jwt-reads_back :
    (key : Method → Option String) (secret text : String) (now issued expires : ℕ) (t : GameToken)
    → sample_jwt.signed_string secret t ≡ some text
    → key hmac ≡ some secret
    → validate now t ≡ none
    → t.claims.issued_at ≡ some (sample_jwt.numeric_date issued)
    → t.claims.expires_at ≡ some (sample_jwt.numeric_date expires)
    → now < sample_jwt.numeric_date expires
    → sample_jwt.parse_with_claims key now text ≡ some t
unfolding sample_jwt
sample_jwt-reads_back key secret text now issued expires t e k v i x early =
    elim (Bool-cases (str_eq secret "secret" && same_token t token)) [
      | inl good ↦
          let is_token : t ≡ token = same_token-eq t token (ground arith) in
          let is_text : text ≡ "signed" = ground arith in
          let valid : validate now token ≡ none = ap (validate now) (sym is_token) ∙ v in
          ground (arith, eq_iff text "signed", is_token, valid)
      | inr bad ↦ absurd (ground arith)
    ]

pub sample_jwt-IsDocumented : IsDocumented sample_jwt
unfolding sample_jwt
sample_jwt-IsDocumented = record {
  rounds = whole_seconds-RoundsDown;
  validates = sample_jwt-validates;
  reads_back = sample_jwt-reads_back;
}

pub token-IsComplete : IsComplete token
unfolding new_game_token
token-IsComplete = ground arith

pub is_signed : sign sample_jwt "secret" token ≡ some "signed"
unfolding sample_jwt sign new_game_token
is_signed = refl
