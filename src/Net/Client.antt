-- ===== src/Net/Client.antt =====
-- crates/net/src/lib.rs: `translate_packet`, from a decoded packet to a client command that the
-- phase of the session allows.
pub mod Accepted
pub mod UuidPayload
use helbreath_backend.Prelude.{
  ℕ, ◌+◌, ◌≡◌, Bool, true, not, Option, none, some, List, [], ◌∷◌, ltb, leb, ◌==◌, if◌then◌else◌,
  Result, ok, err, ◌>>=◌, ◌>>◌, fail_if, ok_or, map_err, length, take, drop,
}
use helbreath_backend.Prelude.Int.{ℤ, pos}
use helbreath_backend.Prelude.Text.{Text, len, is_empty, trim}
use helbreath_backend.Domain.{Uuid, UuidCrate, CharacterClass, warrior, mage, archer}
use helbreath_backend.Application.{
  LoginPayload, CharacterCreatePayload, ClientCommand, login, character_list, character_create,
  character_delete, character_select, enter_world, move, attack, cast_skill, pickup_item, drop_item,
  use_item, npc_interaction, chat, whisper, guild_chat, heartbeat, logout, CommandValidationError,
  validate_client_command,
}
use helbreath_backend.Net.{
  ProtocolVersion, legacy_v382, OpcodeMatrix, opcodes_for_version, SessionPhase, as_domain_state,
}
use helbreath_backend.Net.Frame.{DecodedPacket, at}
use helbreath_backend.Net.Fields.{split_zero, splitn_zero, trimmed_text, i32_at}
use Prim.Native.String.{String}

pub data TranslateError : Type 0 where
  unknown_opcode : ℕ → TranslateError
  invalid_payload : String → TranslateError
  invalid_session_state : CommandValidationError → TranslateError

clean_text : Text → ℕ → Result TranslateError Text
clean_text text max = do
  fail_if (is_empty text) (invalid_payload "text payload is empty")
  fail_if (ltb max (len text)) (invalid_payload "text payload too long")
  ok text

bytes_to_clean_string : List ℕ → ℕ → Result TranslateError Text
unfolding clean_text
bytes_to_clean_string input max = do
  text ← ok_or (trimmed_text input) (invalid_payload "payload is not utf8")
  clean_text text max

parse_text_payload : List ℕ → ℕ → Result TranslateError Text
unfolding bytes_to_clean_string
parse_text_payload payload max = bytes_to_clean_string payload max

login_pieces : List ℕ → List (List ℕ) → Result TranslateError LoginPayload
unfolding bytes_to_clean_string
login_pieces username (password ∷ version ∷ more) = do
  username' ← bytes_to_clean_string username 32
  password' ← bytes_to_clean_string password 128
  version' ← bytes_to_clean_string version 24
  ok (record { username = username'; password = password'; client_version = version' })
login_pieces username _ = err (invalid_payload "login payload expects username,password,version")

parse_login_payload : List ℕ → Result TranslateError LoginPayload
unfolding login_pieces
parse_login_payload payload = let (first, more) = split_zero payload in login_pieces first more

-- `x.first().copied().unwrap_or(0)`
class_of : List ℕ → CharacterClass
class_of piece = if at piece 0 == 0 then warrior else if at piece 0 == 1 then mage else archer

create_pieces : List ℕ → List (List ℕ) → Result TranslateError CharacterCreatePayload
unfolding bytes_to_clean_string class_of
create_pieces name [] = err (invalid_payload "character_create payload is malformed")
create_pieces name (class ∷ more) = do
  name' ← bytes_to_clean_string name 16
  ok (record {
    name = name';
    class = class_of class;
    gender = 0;
    skin_color = 0;
    hair_style = 0;
    hair_color = 0;
    underwear_color = 0;
    stats = pos 10 ∷ pos 10 ∷ pos 10 ∷ pos 10 ∷ pos 10 ∷ pos 10 ∷ [];
  })

parse_character_create_payload : List ℕ → Result TranslateError CharacterCreatePayload
unfolding create_pieces
parse_character_create_payload payload =
    let (first, more) = split_zero payload in create_pieces first more

parse_whisper_payload : List ℕ → Result TranslateError (Text × Text)
unfolding bytes_to_clean_string
parse_whisper_payload payload = do
  let (to, more) = splitn_zero payload
  message ← ok_or more (invalid_payload "whisper missing message")
  to' ← bytes_to_clean_string to 32
  message' ← bytes_to_clean_string message 160
  ok (to', message')

parse_move : List ℕ → Result TranslateError ClientCommand
parse_move p = do
  fail_if (ltb (length p) 9) (invalid_payload "move requires x,y,run")
  ok (move (i32_at p 0) (i32_at p 4) (not (at p 8 == 0)))

parse_drop_item : List ℕ → Result TranslateError ClientCommand
parse_drop_item p = do
  fail_if (ltb (length p) 8) (invalid_payload "drop_item requires slot,quantity")
  ok (drop_item (i32_at p 0) (i32_at p 4))

parse_use_item : List ℕ → Result TranslateError ClientCommand
parse_use_item p = do
  fail_if (ltb (length p) 4) (invalid_payload "use_item requires slot")
  ok (use_item (i32_at p 0))

module _ (uuid : UuidCrate) where
  unfoldable pub parse_uuid_payload : List ℕ → Result TranslateError Uuid
  unfolding parse_text_payload
  parse_uuid_payload payload =
      if leb 16 (length payload) then ok (uuid.from_bytes (take 16 payload)) else do
        text ← parse_text_payload payload 64
        ok_or (uuid.parse_str (trim text)) (invalid_payload "invalid uuid payload")

  uuid_command : (Uuid → ClientCommand) → List ℕ → Result TranslateError ClientCommand
  unfolding parse_uuid_payload
  uuid_command make payload = do u ← parse_uuid_payload payload; ok (make u)

  skill_target : List ℕ → Result TranslateError (Option Uuid)
  unfolding parse_uuid_payload
  skill_target p =
      if leb 20 (length p)
      then (do u ← parse_uuid_payload (take 16 (drop 4 p)); ok (some u))
      else ok none

  parse_cast_skill : List ℕ → Result TranslateError ClientCommand
  unfolding skill_target
  parse_cast_skill p = do
    fail_if (ltb (length p) 4) (invalid_payload "cast_skill requires skill_id")
    target ← skill_target p
    ok (cast_skill (i32_at p 0) target)

  -- The `match` on the opcode, arm by arm.
  command_of : OpcodeMatrix → ℕ → List ℕ → Result TranslateError ClientCommand
  unfolding uuid_command parse_move parse_cast_skill parse_drop_item parse_use_item
      parse_login_payload parse_character_create_payload parse_whisper_payload parse_text_payload
  command_of op x p =
      if x == op.login
      then (do payload ← parse_login_payload p; ok (login payload))
      else if x == op.character_list
      then ok character_list
      else if x == op.character_create
      then (do payload ← parse_character_create_payload p; ok (character_create payload))
      else if x == op.character_delete
      then uuid_command character_delete p
      else if x == op.character_select
      then uuid_command character_select p
      else if x == op.enter_world
      then ok enter_world
      else if x == op.move_cmd
      then parse_move p
      else if x == op.attack
      then uuid_command attack p
      else if x == op.cast_skill
      then parse_cast_skill p
      else if x == op.pickup_item
      then uuid_command pickup_item p
      else if x == op.drop_item
      then parse_drop_item p
      else if x == op.use_item
      then parse_use_item p
      else if x == op.npc_interaction
      then uuid_command npc_interaction p
      else if x == op.chat
      then (do message ← parse_text_payload p 160; ok (chat message))
      else if x == op.whisper
      then (do (to, message) ← parse_whisper_payload p; ok (whisper to message))
      else if x == op.guild_chat
      then (do message ← parse_text_payload p 160; ok (guild_chat message))
      else if x == op.heartbeat
      then ok heartbeat
      else if x == op.logout
      then ok logout
      else err (unknown_opcode x)

  unfoldable pub translate_packet_for_version :
      DecodedPacket → SessionPhase → ProtocolVersion → Result TranslateError ClientCommand
  unfolding command_of
  translate_packet_for_version packet phase version = do
    cmd ← command_of (opcodes_for_version version) packet.header.opcode packet.payload
    map_err invalid_session_state (validate_client_command (as_domain_state phase) cmd)
    ok cmd

  pub translate_packet : DecodedPacket → SessionPhase → Result TranslateError ClientCommand
  unfolding translate_packet_for_version
  translate_packet packet phase = translate_packet_for_version packet phase legacy_v382
