-- ===== src/Master/Answers.antt =====
-- Which answer from the queue the game master takes (game-master/main.go).
use dice_server.Prelude.{
  ℕ, ◌≡◌, refl, ◌≢◌, String, Bool, true, Option, none, some, List, [], ◌∷◌, ◌++◌, All, Bool-cases,
  inl, inr, arith,
}
use dice_server.Connect.{Uuid, CreateFarkleRequest, JoinFarkleRequest, LobbyResponse}
use dice_server.Master.{
  CreateRequestBody, JoinRequestBody, Answer, await_accepted, await_joined, join_farkle_handler,
  after_publish, natural, bad_name, bad_target, answer_of, make_request, create_checked,
  create_guarded, create_farkle_handler,
}

-- An answer that cannot be read, or is for another game.
abbrev pub IsOther : Uuid → Option LobbyResponse → Type 0
IsOther game_id none = Unit {0}
IsOther game_id (some response) = response.game_id ≢ game_id

pub await_accepted-append :
    (game_id : Uuid) (others rest : List (Option LobbyResponse)) (response : LobbyResponse)
    → All (IsOther game_id) others
    → response.game_id ≡ game_id
    → await_accepted game_id (others ++ some response ∷ rest) ≡ some response
unfolding await_accepted
await_accepted-append game_id [] rest response o same = ground arith
await_accepted-append game_id (none ∷ others) rest response (_, o) same =
    await_accepted-append game_id others rest response o same
await_accepted-append game_id (some r ∷ others) rest response (other, o) same =
    ground (arith, await_accepted-append game_id others rest response o same)

-- What a handler that publishes a request answers.
pub record IsPublished (published : Bool) (answers : List (Option LobbyResponse)) (fresh : ℕ → Uuid)
    (request : CreateFarkleRequest) (said : List Answer) : Type 0 where
  pub new_game : request.game_id ≡ fresh 0
  pub new_player : request.player.user_id ≡ fresh 1
  pub answered :
      said
      ≡ answer_of 201 "Failed to create game"
          (fresh 1)
          (after_publish published (await_accepted (fresh 0) answers))
        ∷ []

create_checked-IsPublished :
    (published : Bool) (answers : List (Option LobbyResponse)) (fresh : ℕ → Uuid)
    (username : String) (target : ℕ) (request : CreateFarkleRequest)
    → (create_checked published answers fresh username target).1 ≡ some request
    → IsPublished published answers fresh request
        (create_checked published answers fresh username target).0
unfolding create_checked make_request
create_checked-IsPublished published answers fresh username target request e =
    elim (Bool-cases (bad_name username)) [
      | inl bad ↦ absurd (ground arith)
      | inr good ↦ record {
        new_game = ground arith;
        new_player = ground arith;
        answered = ground arith;
      }
    ]

create_guarded-IsPublished :
    (published : Bool) (answers : List (Option LobbyResponse)) (fresh : ℕ → Uuid)
    (username : String) (target : Option ℕ) (request : CreateFarkleRequest)
    → (create_guarded published answers fresh username target).1 ≡ some request
    → IsPublished published answers fresh request
        (create_guarded published answers fresh username target).0
unfolding create_guarded
create_guarded-IsPublished published answers fresh username none request e = absurd (ground arith)
create_guarded-IsPublished published answers fresh username (some target) request e =
    elim (Bool-cases (bad_target (some target))) [
      | inl bad ↦ absurd (ground arith)
      | inr good ↦
          let p =
            create_checked-IsPublished published answers fresh username target request
              (ground arith) in
          record {
            new_game = p.new_game;
            new_player = p.new_player;
            answered = ground (arith, p.answered);
          }
    ]

pub create_farkle_handler-IsPublished :
    (published : Bool) (answers : List (Option LobbyResponse)) (fresh : ℕ → Uuid)
    (body : CreateRequestBody) (request : CreateFarkleRequest)
    → (create_farkle_handler true published answers fresh body).1 ≡ some request
    → IsPublished published answers fresh request
        (create_farkle_handler true published answers fresh body).0
unfolding create_farkle_handler
create_farkle_handler-IsPublished published answers fresh body request e =
    create_guarded-IsPublished published answers fresh body.username (natural body.target) request e

pub await_joined-append :
    (others rest : List (Option LobbyResponse)) (response : LobbyResponse)
    → All (λ a. a ≡ none) others
    → await_joined (others ++ some response ∷ rest) ≡ some response
unfolding await_joined
await_joined-append [] rest response o = refl
await_joined-append (none ∷ others) rest response (_, o) =
    await_joined-append others rest response o
await_joined-append (some r ∷ others) rest response (unread, o) = absurd (ground arith)

-- What the handler that joins a game answers, where it publishes a request.
pub join_farkle_handler-request :
    (published : Bool) (answers : List (Option LobbyResponse)) (fresh : ℕ → Uuid)
    (body : JoinRequestBody) (request : JoinFarkleRequest)
    → (join_farkle_handler true true published answers fresh body).1 ≡ some request
    → (request.player.user_id ≡ fresh 0)
      × ((join_farkle_handler true true published answers fresh body).0
          ≡ answer_of 200 "Failed to join game"
              (fresh 0)
              (after_publish published (await_joined answers))
            ∷ [])
unfolding join_farkle_handler
join_farkle_handler-request published answers fresh body request e =
    elim (Bool-cases (bad_name body.username)) [
      | inl bad ↦ absurd (ground arith)
      | inr good ↦ (ground arith, ground arith)
    ]
