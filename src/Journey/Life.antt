-- ===== src/Journey/Life.antt =====
-- From the requests to the end of the lobby: what game-master/main.go lets through does not make a
-- lobby (game/farkle/internal/lobby/loop.go) panic.
use dice_server.Prelude.{
  ℕ, ◌≡◌, ◌≢◌, String, Bool, true, false, refl, Option, none, some, List, [], ◌∷◌, All, arith,
}
use dice_server.Connect.{Uuid, LobbyResponse, CreateFarkleRequest, JoinFarkleRequest}
use dice_server.Auth.Signing.{Jwt}
use dice_server.Client.Manager.{WebSocketManager}
use dice_server.Master.{
  CreateRequestBody, JoinRequestBody, create_farkle_handler, join_farkle_handler,
}
use dice_server.Master.Guards.{create_farkle_handler-IsPlayable, join_farkle_handler-dice}
use dice_server.Farkle.Message.{Message}
use dice_server.Farkle.Entry.{Config}
use dice_server.Farkle.Game.Selection.{HasNoNil}
use dice_server.Farkle.Lobby.Joining.{JoinEvent, attempt, out_of_time, out_of_messages}
use dice_server.Farkle.Lobby.Meeting.Calm.{MoveHasData}
use dice_server.Farkle.Lobby.Life.{
  Script, End, returned, close_panicked, still_runs, panicked, live,
}
use dice_server.Farkle.Lobby.Life.Over.{IsOver, live-IsOver}
use dice_server.Client.Manager.Lookups.{IsSound}
use dice_server.Farkle.Lobby.Life.Sturdy.{BringsDice, live-ne-panicked}

-- The game master has published this request to join, for some call of its handler.
abbrev pub IsRequested : JoinFarkleRequest → Type 0
IsRequested join =
    (published : Bool) × (answers : List (Option LobbyResponse)) × (fresh : ℕ → Uuid)
    × (body : JoinRequestBody) × ((join_farkle_handler true true published answers fresh body).1
        ≡ some join)

abbrev pub IsFromMaster : JoinEvent → Type 0
IsFromMaster (attempt none now published) = Unit
IsFromMaster (attempt (some join) now published) = IsRequested join
IsFromMaster out_of_time = Unit
IsFromMaster out_of_messages = Unit

from_master-BringsDice : (e : JoinEvent) → IsFromMaster e → BringsDice e
from_master-BringsDice (attempt none now published) h = tt
from_master-BringsDice (attempt (some join) now sent) (published, answers, fresh, body, e) =
    join_farkle_handler-dice published answers fresh body join e
from_master-BringsDice out_of_time h = tt
from_master-BringsDice out_of_messages h = tt

All-BringsDice : (es : List JoinEvent) → All IsFromMaster es → All BringsDice es
All-BringsDice [] h = tt
All-BringsDice (e ∷ es) h = (from_master-BringsDice e h.0, All-BringsDice es h.1)

abbrev pub is_panic : {A : Type 0} → End A → Bool
is_panic (returned err m) = false
is_panic (close_panicked err) = true
is_panic (still_runs m) = false
is_panic panicked = true

no_panic :
    {A : Type 0} (g : Uuid) (end : End A) → IsOver g end → end ≢ panicked → is_panic end ≡ false
no_panic g (returned err m) over calm = refl
no_panic g (close_panicked err) over calm = absurd over
no_panic g (still_runs m) over calm = refl
no_panic g panicked over calm = absurd (calm refl)

-- A lobby whose requests come from the game master does not panic: if the request to create the game
-- and those to join it, which may also come in any number and be unreadable, are ones that the game
-- master's handlers have published, then neither the waiting for the players, nor the game, nor the
-- closing of the game at the end panics, whatever the players send and do, whatever is rolled, and in
-- whatever order the goroutines move, except where a dice pick, a ready message or a dice touch comes
-- without data. This needs a manager in which no two players share a client and that is not closed,
-- before the lobby and by what the rest of the server does meanwhile: on a closed manager, `CloseGame`
-- does panic.
pub requested_lobby_is_sturdy :
    {A : Type 0} (wrap : Option String → String → Option String) (jwt : Jwt) (config : Config)
    (decodes published : Bool) (answers : List (Option LobbyResponse)) (fresh : ℕ → Uuid)
    (body : CreateRequestBody) (request : CreateFarkleRequest) (script : Script A)
    (m : WebSocketManager A Message)
    → (create_farkle_handler decodes published answers fresh body).1 ≡ some request
    → All IsFromMaster script.joins
    → All MoveHasData script.moves
    → All HasNoNil script.wakes
    → All HasNoNil script.wakes'
    → IsSound m
    → m.all_closed ≡ false
    → ((m' : WebSocketManager A Message)
        → m'.all_closed ≡ false
        → (script.others m').all_closed ≡ false)
    → is_panic (live wrap jwt config script request m) ≡ false
requested_lobby_is_sturdy wrap jwt config decodes published answers fresh body request script m
      created joins moves wakes wakes' sound up keeps =
    let playable =
      create_farkle_handler-IsPlayable decodes published answers fresh body request created in
    no_panic request.game_id (live wrap jwt config script request m)
      (live-IsOver wrap jwt config script request m sound up keeps)
      (live-ne-panicked wrap jwt config script request m (record {
        some_target = omega (arith, playable.low);
        dice = (playable.six, playable.known);
        joins_dice = All-BringsDice script.joins joins;
        moves_data = moves;
        wakes_data = wakes;
        wakes'_data = wakes';
      }))
