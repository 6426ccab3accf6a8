-- ===== src/Master/Guards.antt =====
-- What the game master lets through (game-master/main.go).
use Prim.Native.String.{len}
use mathlib.Core.Path.{subst}
use dice_server.Prelude.{
  ℕ, zero, suc, ◌≤◌, ◌≡◌, ◌≢◌, refl, String, Bool, true, false, Option, none, some, List, length,
  All, Bool-cases, inl, inr, ap, if_intro, if◌then◌else◌, arith,
}
use dice_server.Connect.{
  LobbyResponse, Uuid, LobbyDice, CreateFarkleRequest, JoinFarkleRequest, dice_distributions,
}
use dice_server.Master.{
  Handled, CreateRequestBody, default_dice, natural, bad_name, bad_target, make_request,
  create_checked, create_guarded, create_farkle_handler, JoinRequestBody, join_farkle_handler,
}

abbrev pub IsKnownDice : LobbyDice → Type 0
IsKnownDice d = dice_distributions d.variant ≢ none

default_dice_lem :
    (n : ℕ) (fresh : ℕ → Uuid)
    → (length (default_dice n fresh) ≡ n) × All IsKnownDice (default_dice n fresh)
unfolding default_dice dice_distributions
default_dice_lem zero fresh = (refl, tt)
default_dice_lem (suc n) fresh =
    let (same, known) = default_dice_lem n (λ i. fresh (suc i)) in
    (omega (arith, same), (λ e. cc, known))

-- A request that a game server can play: the target and the name are in their bounds, and the player
-- has six dice of known variants.
pub record IsPlayable (request : CreateFarkleRequest) : Type 0 where
  pub low : 1000 ≤ request.target
  pub high : request.target ≤ 100_000
  pub short : 3 ≤ len request.player.username
  pub long : len request.player.username ≤ 20
  pub six : length request.player.dice_set ≡ 6
  pub known : All IsKnownDice request.player.dice_set

make_request-IsPlayable :
    (fresh : ℕ → Uuid) (username : String) (target : ℕ)
    → 1000 ≤ target
    → target ≤ 100_000
    → bad_name username ≡ false
    → IsPlayable (make_request target username fresh)
unfolding make_request bad_name
make_request-IsPlayable fresh username target low high good =
    let (six, known) = default_dice_lem 6 (λ i. fresh (suc (suc i))) in
    record {
      low = low;
      high = high;
      short = ground arith;
      long = ground arith;
      six = six;
      known = known;
    }

create_checked-IsPlayable :
    (published : Bool) (answers : List (Option LobbyResponse)) (fresh : ℕ → Uuid)
    (username : String) (target : ℕ) (request : CreateFarkleRequest)
    → 1000 ≤ target
    → target ≤ 100_000
    → (create_checked published answers fresh username target).1 ≡ some request
    → IsPlayable request
unfolding create_checked
create_checked-IsPlayable published answers fresh username target request low high e =
    elim (Bool-cases (bad_name username)) [
      | inl bad ↦ absurd (ground arith)
      | inr good ↦
          let same : make_request target username fresh ≡ request = ground arith in
          subst IsPlayable same (make_request-IsPlayable fresh username target low high good)
    ]

create_guarded-IsPlayable :
    (published : Bool) (answers : List (Option LobbyResponse)) (fresh : ℕ → Uuid)
    (username : String) (target : Option ℕ) (request : CreateFarkleRequest)
    → (create_guarded published answers fresh username target).1 ≡ some request
    → IsPlayable request
unfolding create_guarded
create_guarded-IsPlayable published answers fresh username none request e = absurd cc
create_guarded-IsPlayable published answers fresh username (some target) request e =
    elim (Bool-cases (bad_target (some target))) [
      | inl bad ↦ absurd (ground arith)
      | inr good ↦
          create_checked-IsPlayable published answers fresh username target request
            (unfold bad_target in ground arith) (unfold bad_target in ground arith) (ground arith)
    ]

abbrev HasOneAnswer : Handled CreateFarkleRequest → Type 0
HasOneAnswer handled = length handled.0 ≡ 1

create_guarded-HasOneAnswer :
    (published : Bool) (answers : List (Option LobbyResponse)) (fresh : ℕ → Uuid)
    (username : String) (target : Option ℕ)
    → HasOneAnswer (create_guarded published answers fresh username target)
unfolding create_guarded create_checked
create_guarded-HasOneAnswer published answers fresh username none = refl
create_guarded-HasOneAnswer published answers fresh username (some target) =
    if_intro HasOneAnswer (bad_target (some target)) _ _ refl
      (if_intro HasOneAnswer (bad_name username) _ _ refl refl)

-- Every request to create a game that the game master publishes, even for a body that did not decode,
-- has a target from 1000 to 100000, a name of 3 to 20 bytes and six dice of known variants.
pub create_farkle_handler-IsPlayable :
    (decodes published : Bool) (answers : List (Option LobbyResponse)) (fresh : ℕ → Uuid)
    (body : CreateRequestBody) (request : CreateFarkleRequest)
    → (create_farkle_handler decodes published answers fresh body).1 ≡ some request
    → IsPlayable request
unfolding create_farkle_handler
create_farkle_handler-IsPlayable decodes published answers fresh body request e =
    create_guarded-IsPlayable published answers fresh body.username (natural body.target) request e

-- The handler that creates a game answers once if the body decoded, and twice if it did not.
pub length-create_farkle_handler :
    (decodes published : Bool) (answers : List (Option LobbyResponse)) (fresh : ℕ → Uuid)
    (body : CreateRequestBody)
    → length (create_farkle_handler decodes published answers fresh body).0
      ≡ (if decodes then 1 else 2)
unfolding create_farkle_handler
length-create_farkle_handler true published answers fresh body =
    create_guarded-HasOneAnswer published answers fresh body.username (natural body.target)
length-create_farkle_handler false published answers fresh body =
    ap suc (create_guarded-HasOneAnswer published answers fresh body.username (natural body.target))

-- A request to join that is published comes with six dice of known variants.
pub join_farkle_handler-dice :
    (published : Bool) (answers : List (Option LobbyResponse)) (fresh : ℕ → Uuid)
    (body : JoinRequestBody) (request : JoinFarkleRequest)
    → (join_farkle_handler true true published answers fresh body).1 ≡ some request
    → (length request.player.dice_set ≡ 6) × All IsKnownDice request.player.dice_set
unfolding join_farkle_handler
join_farkle_handler-dice published answers fresh body request e =
    elim (Bool-cases (bad_name body.username)) [
      | inl bad ↦ absurd (ground arith)
      | inr good ↦
          let same : default_dice 6 (λ i. fresh (suc i)) ≡ request.player.dice_set = ground arith in
          subst (λ ds. (length ds ≡ 6) × All IsKnownDice ds) same
            (default_dice_lem 6 (λ i. fresh (suc i)))
    ]
