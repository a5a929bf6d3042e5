-- ===== src/Net.antt =====
-- crates/net/src/lib.rs: the wire protocol. This file holds the opcode tables and the wire types;
-- the children hold the frames, the payload codec, the two translators and the rate limiter.
pub mod Frame
pub mod Codec
pub mod Fields
pub mod Client
pub mod Server
pub mod RateLimiter
pub mod Examples
use helbreath_backend.Prelude.{ℕ, ◌≡◌, refl, Bool, Option, List, arith, ◌==◌, if◌then◌else◌}
use helbreath_backend.Prelude.Int.{ℤ}
use helbreath_backend.Prelude.Text.{Text}
use helbreath_backend.Domain.{SessionState, connecting, authenticated}

pub data WireErrorCode : Type 0 where
  okay invalid_credentials session_expired character_not_found inventory_full target_not_found
        permission_denied rate_limited invalid_payload invalid_session_state internal_server_error
        unknown :
      WireErrorCode

-- `as_u16`: the discriminants.
unfoldable pub as_u16 : WireErrorCode → ℕ
as_u16 okay = 0
as_u16 invalid_credentials = 1
as_u16 session_expired = 2
as_u16 character_not_found = 3
as_u16 inventory_full = 4
as_u16 target_not_found = 5
as_u16 permission_denied = 6
as_u16 rate_limited = 7
as_u16 invalid_payload = 8
as_u16 invalid_session_state = 9
as_u16 internal_server_error = 500
as_u16 unknown = 0xFFFF

unfoldable pub from_u16 : ℕ → WireErrorCode
from_u16 raw =
    if raw == 0
    then okay
    else if raw == 1
    then invalid_credentials
    else if raw == 2
    then session_expired
    else if raw == 3
    then character_not_found
    else if raw == 4
    then inventory_full
    else if raw == 5
    then target_not_found
    else if raw == 6
    then permission_denied
    else if raw == 7
    then rate_limited
    else if raw == 8
    then invalid_payload
    else if raw == 9
    then invalid_session_state
    else if raw == 500
    then internal_server_error
    else unknown

unfoldable pub parse_wire_error_code : ℕ → WireErrorCode
unfolding from_u16
parse_wire_error_code raw = from_u16 raw

pub data ProtocolVersion : Type 0 where
  legacy_v382 modern_v400 : ProtocolVersion

pub record OpcodeMatrix : Type 0 where
  pub login : ℕ
  pub character_list : ℕ
  pub character_create : ℕ
  pub character_delete : ℕ
  pub character_select : ℕ
  pub enter_world : ℕ
  pub move_cmd : ℕ
  pub attack : ℕ
  pub cast_skill : ℕ
  pub pickup_item : ℕ
  pub drop_item : ℕ
  pub use_item : ℕ
  pub npc_interaction : ℕ
  pub chat : ℕ
  pub whisper : ℕ
  pub guild_chat : ℕ
  pub heartbeat : ℕ
  pub logout : ℕ

-- `OpcodeMatrix::legacy_v382`
abbrev pub legacy_opcodes : OpcodeMatrix
legacy_opcodes = record {
  login = 0x0001;
  character_list = 0x0002;
  character_create = 0x0003;
  character_delete = 0x0006;
  character_select = 0x0004;
  enter_world = 0x0005;
  move_cmd = 0x0100;
  attack = 0x0101;
  cast_skill = 0x0102;
  pickup_item = 0x0103;
  drop_item = 0x0104;
  use_item = 0x0105;
  npc_interaction = 0x0106;
  chat = 0x0200;
  whisper = 0x0201;
  guild_chat = 0x0202;
  heartbeat = 0x02FE;
  logout = 0x02FF;
}

-- `OpcodeMatrix::modern_v400`
abbrev pub modern_opcodes : OpcodeMatrix
modern_opcodes = legacy_opcodes

-- `OpcodeMatrix::for_version`
abbrev pub opcodes_for_version : ProtocolVersion → OpcodeMatrix
opcodes_for_version legacy_v382 = legacy_opcodes
opcodes_for_version modern_v400 = modern_opcodes

pub record ServerOpcodeMatrix : Type 0 where
  pub login_result : ℕ
  pub character_list_result : ℕ
  pub character_create_result : ℕ
  pub character_delete_result : ℕ
  pub character_select_result : ℕ
  pub enter_world_result : ℕ
  pub move_result : ℕ
  pub attack_result : ℕ
  pub cast_skill_result : ℕ
  pub pickup_item_result : ℕ
  pub drop_item_result : ℕ
  pub use_item_result : ℕ
  pub npc_interaction_result : ℕ
  pub chat_broadcast : ℕ
  pub whisper_broadcast : ℕ
  pub guild_chat_broadcast : ℕ
  pub heartbeat_ack : ℕ
  pub logout_ack : ℕ
  pub error : ℕ

-- `ServerOpcodeMatrix::legacy_v382`
abbrev pub legacy_server_opcodes : ServerOpcodeMatrix
legacy_server_opcodes = record {
  login_result = 0x8001;
  character_list_result = 0x8002;
  character_create_result = 0x8003;
  character_delete_result = 0x8006;
  character_select_result = 0x8004;
  enter_world_result = 0x8005;
  move_result = 0x8100;
  attack_result = 0x8101;
  cast_skill_result = 0x8102;
  pickup_item_result = 0x8103;
  drop_item_result = 0x8104;
  use_item_result = 0x8105;
  npc_interaction_result = 0x8106;
  chat_broadcast = 0x8200;
  whisper_broadcast = 0x8201;
  guild_chat_broadcast = 0x8202;
  heartbeat_ack = 0x82FE;
  logout_ack = 0x82FF;
  error = 0x8FFF;
}

-- `ServerOpcodeMatrix::modern_v400`
abbrev pub modern_server_opcodes : ServerOpcodeMatrix
modern_server_opcodes = legacy_server_opcodes

-- `ServerOpcodeMatrix::for_version`
abbrev pub server_opcodes_for_version : ProtocolVersion → ServerOpcodeMatrix
server_opcodes_for_version legacy_v382 = legacy_server_opcodes
server_opcodes_for_version modern_v400 = modern_server_opcodes

pub data SessionPhase : Type 0 where
  pre_auth post_auth in_character_list in_world closed : SessionPhase

unfoldable pub as_domain_state : SessionPhase → SessionState
as_domain_state pre_auth = connecting
as_domain_state post_auth = authenticated
as_domain_state in_character_list = SessionState.in_character_list
as_domain_state in_world = SessionState.in_world
as_domain_state closed = SessionState.closed

-- Every error code, the catch-all included, is read back from its number as itself.
pub from_u16-as_u16 : (c : WireErrorCode) → from_u16 (as_u16 c) ≡ c
unfolding from_u16 as_u16
from_u16-as_u16 okay = refl
from_u16-as_u16 _ = refl
