-- ===== src/Net/Server.antt =====
-- crates/net/src/lib.rs: `translate_server_packet`, from a decoded packet to a server message.
pub mod Accepted
use helbreath_backend.Prelude.{
  ℕ, ◌+◌, ◌≡◌, Bool, true, false, not, Option, none, some, List, [], ◌∷◌, ltb, leb, ◌==◌,
  if◌then◌else◌, Result, ok, err, ◌>>=◌, ◌>>◌, fail_if, ok_or, length, take, drop,
}
use helbreath_backend.Prelude.Int.{ℤ}
use helbreath_backend.Prelude.Text.{Text, len, is_empty}
use helbreath_backend.Domain.{Uuid, UuidCrate}
use helbreath_backend.Net.{
  ProtocolVersion, legacy_v382, ServerOpcodeMatrix, server_opcodes_for_version, WireErrorCode,
  parse_wire_error_code,
}
use helbreath_backend.Net.Frame.{DecodedPacket, at, u16_from_le}
use helbreath_backend.Net.Fields.{splitn_zero, trimmed_text, i32_at}
use Prim.Native.String.{String}

pub data ServerMessage : Type 0 where
  login_result : Bool → WireErrorCode → Option Text → ServerMessage
  character_list_result : ℕ → ServerMessage
  character_create_result : WireErrorCode → Option Uuid → ServerMessage
  character_delete_result : WireErrorCode → Option Uuid → ServerMessage
  character_select_result :
      WireErrorCode → Option Uuid → Option ℤ → Option ℤ → Option ℤ → ServerMessage
  enter_world_result : WireErrorCode → Option ℤ → Option ℤ → Option ℤ → ServerMessage
  move_result : ℤ → ℤ → ServerMessage
  attack_result : Uuid → ℤ → Bool → ServerMessage
  cast_skill_result : ℤ → Option Uuid → Bool → ServerMessage
  pickup_item_result : Uuid → Bool → ServerMessage
  drop_item_result : ℤ → ℤ → Bool → ServerMessage
  use_item_result : ℤ → Bool → ServerMessage
  npc_interaction_result : Uuid → Option Text → ServerMessage
  chat_broadcast whisper_broadcast guild_chat_broadcast : Text → Text → ServerMessage
  heartbeat_ack logout_ack : ServerMessage
  error : WireErrorCode → Option Text → ServerMessage

pub data ServerTranslateError : Type 0 where
  unknown_opcode : ℕ → ServerTranslateError
  invalid_payload : String → ServerTranslateError

abbrev Parsed : Type 0 → Type 0
Parsed A = Result ServerTranslateError A

parse_u16_at : List ℕ → ℕ → String → Parsed ℕ
parse_u16_at p offset e = do
  fail_if (ltb (length p) (offset + 2)) (invalid_payload e)
  ok (u16_from_le (at p offset) (at p (offset + 1)))

parse_i32_at : List ℕ → ℕ → String → Parsed ℤ
parse_i32_at p offset e = do
  fail_if (ltb (length p) (offset + 4)) (invalid_payload e)
  ok (i32_at p offset)

parse_bool_at : List ℕ → ℕ → String → Parsed Bool
parse_bool_at p offset e = do
  fail_if (leb (length p) offset) (invalid_payload e)
  ok (not (at p offset == 0))

-- `if payload.len() >= size { Some(parse) } else { None }`
optional : {A : Type 0} → List ℕ → ℕ → Parsed A → Parsed (Option A)
optional p size parse = if leb size (length p) then (do a ← parse; ok (some a)) else ok none

optional_i32 : List ℕ → ℕ → ℕ → String → Parsed (Option ℤ)
optional_i32 p size offset e = optional p size (parse_i32_at p offset e)

checked_text : Text → ℕ → Parsed (Option Text)
checked_text text max =
    if ltb max (len text)
    then err (invalid_payload "server text payload too long")
    else if is_empty text
    then ok none
    else ok (some text)

bytes_to_optional_server_string : List ℕ → ℕ → Parsed (Option Text)
bytes_to_optional_server_string input max = do
  text ← ok_or (trimmed_text input) (invalid_payload "server payload is not utf8")
  checked_text text max

-- The text behind the first `offset` bytes, if there are more.
text_behind : List ℕ → ℕ → ℕ → Parsed (Option Text)
text_behind p offset max =
    if ltb offset (length p) then bytes_to_optional_server_string (drop offset p) max else ok none

parse_login_result : List ℕ → Parsed ServerMessage
parse_login_result p = do
  fail_if (ltb (length p) 3) (invalid_payload "login_result requires accepted + code")
  message ← text_behind p 3 160
  ok (
      login_result (not (at p 0 == 0)) (parse_wire_error_code (u16_from_le (at p 1) (at p 2)))
        message)

parse_enter_world_result : List ℕ → Parsed ServerMessage
parse_enter_world_result p = do
  code ← parse_u16_at p 0 "enter_world_result requires code"
  map_id ← optional_i32 p 6 2 "enter_world_result invalid map_id"
  x ← optional_i32 p 10 6 "enter_world_result invalid x"
  y ← optional_i32 p 14 10 "enter_world_result invalid y"
  ok (enter_world_result (parse_wire_error_code code) map_id x y)

parse_move_result : List ℕ → Parsed ServerMessage
parse_move_result p = do
  x ← parse_i32_at p 0 "move_result requires x,y"
  y ← parse_i32_at p 4 "move_result requires x,y"
  ok (move_result x y)

parse_drop_item_result : List ℕ → Parsed ServerMessage
parse_drop_item_result p = do
  slot ← parse_i32_at p 0 "drop_item_result requires slot"
  quantity ← parse_i32_at p 4 "drop_item_result requires quantity"
  done ← parse_bool_at p 8 "drop_item_result requires ok flag"
  ok (drop_item_result slot quantity done)

parse_use_item_result : List ℕ → Parsed ServerMessage
parse_use_item_result p = do
  slot ← parse_i32_at p 0 "use_item_result requires slot"
  done ← parse_bool_at p 4 "use_item_result requires ok flag"
  ok (use_item_result slot done)

parse_sender_and_message : List ℕ → Parsed (Text × Text)
parse_sender_and_message p = do
  let (from_raw, more) = splitn_zero p
  message_raw ← ok_or more (invalid_payload "message missing")
  sender ← bytes_to_optional_server_string from_raw 32
  from ← ok_or sender (invalid_payload "sender empty")
  text ← bytes_to_optional_server_string message_raw 160
  message ← ok_or text (invalid_payload "message empty")
  ok (from, message)

parse_broadcast : (Text → Text → ServerMessage) → List ℕ → Parsed ServerMessage
parse_broadcast make p = do (from, message) ← parse_sender_and_message p; ok (make from message)

parse_error_result : List ℕ → Parsed ServerMessage
parse_error_result p = do
  code ← parse_u16_at p 0 "error requires code"
  message ← text_behind p 2 160
  ok (error (parse_wire_error_code code) message)

module _ (uuid : UuidCrate) where
  parse_uuid_at : List ℕ → ℕ → String → Parsed Uuid
  parse_uuid_at p offset e = do
    fail_if (ltb (length p) (offset + 16)) (invalid_payload e)
    ok (uuid.from_bytes (take 16 (drop offset p)))

  -- `character_create_result` and `character_delete_result`
  parse_code_and_character :
      (WireErrorCode → Option Uuid → ServerMessage)
      → List ℕ
      → String
      → String
      → Parsed ServerMessage
  parse_code_and_character make p e e' = do
    code ← parse_u16_at p 0 e
    character_id ← optional p 18 (parse_uuid_at p 2 e')
    ok (make (parse_wire_error_code code) character_id)

  parse_character_select_result : List ℕ → Parsed ServerMessage
  parse_character_select_result p = do
    code ← parse_u16_at p 0 "character_select_result requires code"
    character_id ← optional p 18 (parse_uuid_at p 2 "character_select_result invalid character_id")
    map_id ← optional_i32 p 22 18 "character_select_result invalid map_id"
    x ← optional_i32 p 26 22 "character_select_result invalid x"
    y ← optional_i32 p 30 26 "character_select_result invalid y"
    ok (character_select_result (parse_wire_error_code code) character_id map_id x y)

  parse_attack_result : List ℕ → Parsed ServerMessage
  parse_attack_result p = do
    target ← parse_uuid_at p 0 "attack_result requires target_id"
    damage ← parse_i32_at p 16 "attack_result requires damage"
    defeated ← parse_bool_at p 20 "attack_result requires defeated flag"
    ok (attack_result target damage defeated)

  parse_cast_skill_result : List ℕ → Parsed ServerMessage
  parse_cast_skill_result p = do
    skill ← parse_i32_at p 0 "cast_skill_result requires skill_id"
    done ← parse_bool_at p 4 "cast_skill_result requires ok flag"
    target ← optional p 21 (parse_uuid_at p 5 "cast_skill_result invalid target_id")
    ok (cast_skill_result skill target done)

  parse_pickup_item_result : List ℕ → Parsed ServerMessage
  parse_pickup_item_result p = do
    entity ← parse_uuid_at p 0 "pickup_item_result requires entity_id"
    done ← parse_bool_at p 16 "pickup_item_result requires ok flag"
    ok (pickup_item_result entity done)

  parse_npc_interaction_result : List ℕ → Parsed ServerMessage
  parse_npc_interaction_result p = do
    npc ← parse_uuid_at p 0 "npc_interaction_result requires npc_id"
    text ← text_behind p 16 256
    ok (npc_interaction_result npc text)

  -- The `match` on the opcode, arm by arm.
  message_of : ServerOpcodeMatrix → ℕ → List ℕ → Parsed ServerMessage
  message_of op opcode p =
      if opcode == op.login_result
      then parse_login_result p
      else if opcode == op.character_list_result
      then (do
        count ← parse_u16_at p 0 "character_list_result requires count"
        ok (character_list_result count))
      else if opcode == op.character_create_result
      then parse_code_and_character character_create_result p
          "character_create_result requires code" "character_create_result invalid character_id"
      else if opcode == op.character_delete_result
      then parse_code_and_character character_delete_result p
          "character_delete_result requires code" "character_delete_result invalid character_id"
      else if opcode == op.character_select_result
      then parse_character_select_result p
      else if opcode == op.enter_world_result
      then parse_enter_world_result p
      else if opcode == op.move_result
      then parse_move_result p
      else if opcode == op.attack_result
      then parse_attack_result p
      else if opcode == op.cast_skill_result
      then parse_cast_skill_result p
      else if opcode == op.pickup_item_result
      then parse_pickup_item_result p
      else if opcode == op.drop_item_result
      then parse_drop_item_result p
      else if opcode == op.use_item_result
      then parse_use_item_result p
      else if opcode == op.npc_interaction_result
      then parse_npc_interaction_result p
      else if opcode == op.chat_broadcast
      then parse_broadcast chat_broadcast p
      else if opcode == op.whisper_broadcast
      then parse_broadcast whisper_broadcast p
      else if opcode == op.guild_chat_broadcast
      then parse_broadcast guild_chat_broadcast p
      else if opcode == op.heartbeat_ack
      then ok heartbeat_ack
      else if opcode == op.logout_ack
      then ok logout_ack
      else if opcode == op.error
      then parse_error_result p
      else err (unknown_opcode opcode)

  unfoldable pub translate_server_packet_for_version :
      DecodedPacket → ProtocolVersion → Result ServerTranslateError ServerMessage
  unfolding message_of parse_u16_at parse_i32_at parse_bool_at optional optional_i32 checked_text
      bytes_to_optional_server_string text_behind parse_login_result parse_enter_world_result
      parse_move_result parse_drop_item_result parse_use_item_result parse_sender_and_message
      parse_broadcast parse_error_result parse_uuid_at parse_code_and_character
      parse_character_select_result parse_attack_result parse_cast_skill_result
      parse_pickup_item_result parse_npc_interaction_result
  translate_server_packet_for_version packet version =
      message_of (server_opcodes_for_version version) packet.header.opcode packet.payload

  pub translate_server_packet : DecodedPacket → Result ServerTranslateError ServerMessage
  unfolding translate_server_packet_for_version
  translate_server_packet packet = translate_server_packet_for_version packet legacy_v382
