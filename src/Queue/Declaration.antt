-- ===== src/Queue/Declaration.antt =====
-- common/queue/declaration.go, and the queues of game/farkle/connect/queue.go. `uuid_string` is the
-- `String` of the uuid library.
pub mod Apart
use Prim.Native.String.{◌++◌}
use dice_server.Prelude.{ℕ, String, Bool, true, false, Option, none, some, if◌then◌else◌, ◌/◌}
use dice_server.Connect.{Uuid}

pub record Declaration : Type 0 where
  pub name : String
  pub temporary : Bool
  pub auto_ack : Bool
  pub qos : Bool

-- The arguments of `QueueDeclare`; `expires` is the entry "x-expires" of its table, in milliseconds.
pub record QueueDeclare : Type 0 where
  pub name : String
  pub durable : Bool
  pub auto_delete : Bool
  pub exclusive : Bool
  pub no_wait : Bool
  pub expires : Option ℕ

abbrev pub temporary_timeout : ℕ
temporary_timeout = 10_000_000_000

unfoldable pub declare_queue : Declaration → QueueDeclare
declare_queue decl = record {
  name = decl.name;
  durable = true;
  auto_delete = false;
  exclusive = false;
  no_wait = false;
  expires = if decl.temporary then some (temporary_timeout / 1_000_000) else none;
}

unfoldable pub create_lobby_queue : Declaration
create_lobby_queue = record {
  name = "/farkle/create";
  temporary = false;
  auto_ack = false;
  qos = true;
}

module _ (uuid_string : Uuid → String) where
  unfoldable pub accept_lobby_queue : Uuid → Declaration
  accept_lobby_queue game_id = record {
    name = "/farkle/accept/" ++ uuid_string game_id;
    temporary = true;
    auto_ack = true;
    qos = false;
  }

  unfoldable pub join_lobby_queue : Uuid → Declaration
  join_lobby_queue game_id = record {
    name = "/farkle/join/" ++ uuid_string game_id;
    temporary = true;
    auto_ack = true;
    qos = false;
  }

  unfoldable pub joined_lobby_queue : Uuid → Declaration
  joined_lobby_queue game_id = record {
    name = "/farkle/joined/" ++ uuid_string game_id;
    temporary = true;
    auto_ack = true;
    qos = false;
  }
