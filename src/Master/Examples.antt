-- ===== src/Master/Examples.antt =====
-- Requests to the game master at concrete inputs (game-master/main.go).
use dice_server.Prelude.{ℕ, ◌+◌, ◌≡◌, refl, Option, none, some, List, [], ◌∷◌, true}
use dice_server.Connect.{LobbyResponse, Uuid, CreateFarkleRequest}
use dice_server.Master.{pos, CreateRequestBody, make_request, create_farkle_handler}
use dice_server.Master.Guards.{IsPlayable, create_farkle_handler-IsPlayable}

abbrev fresh_ids : ℕ → Uuid
fresh_ids i = 100 + i

abbrev body : CreateRequestBody
body = record { username = "alice"; target = pos 4000 }

-- The answer for another game is passed over.
abbrev answers : List (Option LobbyResponse)
answers =
    some (record { game_id = 7; server_id = 1; server_host = "a"; auth = "x" })
    ∷ none
    ∷ some (record { game_id = 100; server_id = 2; server_host = "b"; auth = "y" })
    ∷ []

abbrev request : CreateFarkleRequest
request = make_request 4000 "alice" fresh_ids

is_published : (create_farkle_handler true true answers fresh_ids body).1 ≡ some request
unfolding create_farkle_handler
is_published = refl

create_farkle_handler-IsPlayable_example : IsPlayable request
create_farkle_handler-IsPlayable_example =
    create_farkle_handler-IsPlayable true true answers fresh_ids body request is_published
