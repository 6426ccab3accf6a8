-- ===== src/Master.antt =====
-- game-master/main.go: the handlers that create and join a game. A request's body is what the JSON
-- decoder leaves in it, with whether it failed; `fresh` is the stream of the results of
-- `uuid.New()`. The queue is outside: publishing succeeds or fails, and the answers are those that
-- arrive until the channel that is ranged over closes, `none` where one does not unmarshal. The
-- consumer of common/queue never closes it: there the handler waits on where the answers end. Headers
-- are not modelled.
pub mod Guards
pub mod Answers
mod Examples
use Prim.Native.String.{len}
use dice_server.Prelude.{
  ℕ, zero, suc, ◌+◌, String, Bool, true, false, not, ◌||◌, Option, none, some, List, [], ◌∷◌, ◌++◌,
  ltb, ◌==◌, str_eq, if◌then◌else◌,
}
use dice_server.Connect.{
  Uuid, LobbyResponse, LobbyDice, LobbyPlayer, CreateFarkleRequest, JoinFarkleRequest, dice_regular,
}

-- Go's `int`, without its bound.
pub data ℤ : Type 0 where
  pos negsuc : ℕ → ℤ

pub record CreateRequestBody : Type 0 where
  pub username : String
  pub target : ℤ

pub record JoinRequestBody : Type 0 where
  pub username : String

-- What `SendJson` answers: the status with the error, or with the player and the response.
pub data Answer : Type 0 where
  refusal : ℕ → String → Answer
  success : ℕ → Uuid → LobbyResponse → Answer

-- `defaultDiceSet`: as many dice as the counter says, from the stream.
unfoldable pub default_dice : ℕ → (ℕ → Uuid) → List LobbyDice
default_dice zero fresh = []
default_dice (suc n) fresh =
    record { id = fresh 0; variant = dice_regular } ∷ default_dice n (λ i. fresh (suc i))

-- The loop of `createGameFarkle` over the answers; `none` is its error.
unfoldable pub await_accepted : Uuid → List (Option LobbyResponse) → Option LobbyResponse
await_accepted game_id [] = none
await_accepted game_id (none ∷ msgs) = await_accepted game_id msgs
await_accepted game_id (some accept ∷ msgs) =
    let rest = await_accepted game_id msgs in
    if accept.game_id == game_id then some accept else rest

-- The loop of `joinGameFarkle`: the first answer that unmarshals is taken.
unfoldable pub await_joined : List (Option LobbyResponse) → Option LobbyResponse
await_joined [] = none
await_joined (none ∷ msgs) = await_joined msgs
await_joined (some joined ∷ msgs) = some joined

-- Both functions: nothing is awaited where publishing fails.
abbrev pub after_publish : Bool → Option LobbyResponse → Option LobbyResponse
after_publish true response = response
after_publish false response = none

-- The two guards on a name and a target; `none` is a negative target, which is below the bound too.
abbrev pub natural : ℤ → Option ℕ
natural (pos n) = some n
natural (negsuc n) = none

unfoldable pub bad_name : String → Bool
bad_name username = ltb (len username) 3 || ltb 20 (len username)

unfoldable pub bad_target : Option ℕ → Bool
bad_target none = true
bad_target (some target) = ltb target 1000 || ltb 100_000 target

abbrev pub answer_of : ℕ → String → Uuid → Option LobbyResponse → Answer
answer_of status failed player_id none = refusal 500 failed
answer_of status failed player_id (some response) = success status player_id response

-- What a handler answers, in order, and what it tries to publish.
abbrev pub Handled : Type 0 → Type 0
Handled A = List Answer × Option A

unfoldable pub make_request : ℕ → String → (ℕ → Uuid) → CreateFarkleRequest
unfolding default_dice
make_request target username fresh = record {
  game_id = fresh 0;
  target = target;
  player = record {
    user_id = fresh 1;
    username = username;
    dice_set = default_dice 6 (λ i. fresh (suc (suc i)));
  };
}

-- Behind the guard on the target.
unfoldable pub create_checked :
    Bool → List (Option LobbyResponse) → (ℕ → Uuid) → String → ℕ → Handled CreateFarkleRequest
unfolding bad_name make_request await_accepted
create_checked published answers fresh username target =
    if bad_name username
    then (refusal 400 "Username must be between 3 and 20 characters" ∷ [], none)
    else (
      answer_of 201 "Failed to create game" (fresh 1)
            (after_publish published (await_accepted (fresh 0) answers))
          ∷ [],
      some (make_request target username fresh),
    )

unfoldable pub create_guarded :
    Bool
    → List (Option LobbyResponse)
    → (ℕ → Uuid)
    → String
    → Option ℕ
    → Handled CreateFarkleRequest
unfolding bad_target create_checked
create_guarded published answers fresh username none =
    (refusal 400 "Target must be between 1000 and 100000" ∷ [], none)
create_guarded published answers fresh username (some target) =
    if bad_target (some target)
    then (refusal 400 "Target must be between 1000 and 100000" ∷ [], none)
    else create_checked published answers fresh username target

-- `createFarkleHandler`, which goes on after a body that did not decode.
unfoldable pub create_farkle_handler :
    Bool
    → Bool
    → List (Option LobbyResponse)
    → (ℕ → Uuid)
    → CreateRequestBody
    → Handled CreateFarkleRequest
unfolding create_guarded
create_farkle_handler decodes published answers fresh body =
    let (said, request) =
      create_guarded published answers fresh body.username (natural body.target) in
    ((if decodes then [] else refusal 400 "Invalid request body" ∷ []) ++ said, request)

-- `joinFarkleHandler`; the first argument says whether the id in the path parses.
unfoldable pub join_farkle_handler :
    Bool
    → Bool
    → Bool
    → List (Option LobbyResponse)
    → (ℕ → Uuid)
    → JoinRequestBody
    → Handled JoinFarkleRequest
unfolding bad_name default_dice await_joined
join_farkle_handler parses decodes published answers fresh body =
    if not parses
    then (refusal 400 "Invalid game ID" ∷ [], none)
    else if not decodes
    then (refusal 400 "Invalid request body" ∷ [], none)
    else if bad_name body.username
    then (refusal 400 "Username must be between 3 and 20 characters" ∷ [], none)
    else (
      answer_of 200 "Failed to join game" (fresh 0) (after_publish published (await_joined answers))
          ∷ [],
      some (record {
        player = record {
          user_id = fresh 0;
          username = body.username;
          dice_set = default_dice 6 (λ i. fresh (suc i));
        };
      }),
    )

-- `corsed`: `none` is the answer with no content to an OPTIONS request.
unfoldable pub corsed {ℓ} : {R : Type ℓ} → (String → R) → String → Option R
corsed handler method = if str_eq method "OPTIONS" then none else some (handler method)
