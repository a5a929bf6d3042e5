-- ===== src/Application.antt =====
-- crates/application/src/lib.rs: the commands of a client and which of them a session may send.
pub mod Permission
mod Examples
use helbreath_backend.Prelude.{
  ℕ, ◌≡◌, Bool, true, false, ◌||◌, List, Option, none, some, arith, if◌then◌else◌, Result, ok, err,
  ◌>>=◌, ◌>>◌, fail_if, not,
}
use helbreath_backend.Prelude.Int.{ℤ}
use helbreath_backend.Prelude.Text.{Text, is_empty, trim}
use helbreath_backend.Domain.{
  Uuid, SessionState, connecting, authenticated, in_character_list, in_world, closed,
  CharacterClass,
}
use Prim.Native.String.{String}

pub record LoginPayload : Type 0 where
  pub username : Text
  pub password : Text
  pub client_version : Text

pub record CharacterCreatePayload : Type 0 where
  pub name : Text
  pub class : CharacterClass
  pub gender : ℕ
  pub skin_color : ℕ
  pub hair_style : ℕ
  pub hair_color : ℕ
  pub underwear_color : ℕ
  pub stats : List ℤ

pub data ClientCommand : Type 0 where
  login : LoginPayload → ClientCommand
  character_list : ClientCommand
  character_create : CharacterCreatePayload → ClientCommand
  character_delete character_select : Uuid → ClientCommand
  enter_world : ClientCommand
  move : ℤ → ℤ → Bool → ClientCommand
  attack : Uuid → ClientCommand
  cast_skill : ℤ → Option Uuid → ClientCommand
  pickup_item : Uuid → ClientCommand
  drop_item : ℤ → ℤ → ClientCommand
  use_item : ℤ → ClientCommand
  npc_interaction : Uuid → ClientCommand
  chat : Text → ClientCommand
  whisper : Text → Text → ClientCommand
  guild_chat : Text → ClientCommand
  heartbeat logout : ClientCommand

pub data InternalCommand : Type 0 where
  route_client_command : Uuid → Option ℤ → ClientCommand → InternalCommand
  disconnect_session : Uuid → String → InternalCommand
  broadcast : Option Text → Text → InternalCommand
  move_character : Uuid → ℤ → ℤ → ℤ → InternalCommand

pub data CommandValidationError : Type 0 where
  invalid_session_state : SessionState → String → CommandValidationError
  invalid_payload : String → CommandValidationError

pub command_name : ClientCommand → String
command_name (login _) = "login"
command_name character_list = "character_list"
command_name (character_create _) = "character_create"
command_name (character_delete _) = "character_delete"
command_name (character_select _) = "character_select"
command_name enter_world = "enter_world"
command_name (move _ _ _) = "move"
command_name (attack _) = "attack"
command_name (cast_skill _ _) = "cast_skill"
command_name (pickup_item _) = "pickup_item"
command_name (drop_item _ _) = "drop_item"
command_name (use_item _) = "use_item"
command_name (npc_interaction _) = "npc_interaction"
command_name (chat _) = "chat"
command_name (whisper _ _) = "whisper"
command_name (guild_chat _) = "guild_chat"
command_name heartbeat = "heartbeat"
command_name logout = "logout"

-- The `match state` of `validate_client_command`.
unfoldable pub is_allowed : SessionState → ClientCommand → Bool
is_allowed connecting (login _) = true
is_allowed connecting heartbeat = true
is_allowed authenticated character_list = true
is_allowed authenticated (character_create _) = true
is_allowed authenticated (character_delete _) = true
is_allowed authenticated (character_select _) = true
is_allowed authenticated logout = true
is_allowed authenticated heartbeat = true
is_allowed in_character_list character_list = true
is_allowed in_character_list (character_create _) = true
is_allowed in_character_list (character_delete _) = true
is_allowed in_character_list (character_select _) = true
is_allowed in_character_list enter_world = true
is_allowed in_character_list logout = true
is_allowed in_character_list heartbeat = true
is_allowed in_world enter_world = true
is_allowed in_world (move _ _ _) = true
is_allowed in_world (attack _) = true
is_allowed in_world (cast_skill _ _) = true
is_allowed in_world (pickup_item _) = true
is_allowed in_world (drop_item _ _) = true
is_allowed in_world (use_item _) = true
is_allowed in_world (npc_interaction _) = true
is_allowed in_world (chat _) = true
is_allowed in_world (whisper _ _) = true
is_allowed in_world (guild_chat _) = true
is_allowed in_world heartbeat = true
is_allowed in_world logout = true
is_allowed _ _ = false

-- The checks of the payload that follow, for `Login` and for `Chat` and `GuildChat`.
unfoldable pub check_payload : ClientCommand → Result CommandValidationError (Unit {0})
check_payload (login p) =
    fail_if (is_empty (trim p.username) || is_empty p.password)
      (invalid_payload "username/password cannot be empty")
check_payload (chat message) =
    fail_if (is_empty (trim message)) (invalid_payload "chat message cannot be empty")
check_payload (guild_chat message) =
    fail_if (is_empty (trim message)) (invalid_payload "chat message cannot be empty")
check_payload _ = ok tt

unfoldable pub validate_client_command :
    SessionState → ClientCommand → Result CommandValidationError (Unit {0})
unfolding is_allowed check_payload
validate_client_command state command = do
  fail_if (not (is_allowed state command)) (invalid_session_state state (command_name command))
  check_payload command
