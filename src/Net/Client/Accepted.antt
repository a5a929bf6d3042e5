-- ===== src/Net/Client/Accepted.antt =====
-- crates/net/src/lib.rs: what is known of a command that `translate_packet_for_version` accepts, and
-- of its refusals.
use helbreath_backend.Prelude.{
  ℕ, ◌≤◌, ◌≡◌, refl, false, List, [], ◌∷◌, arith, ok, ◌>>=◌, >>=-eq-ok, Yields, Yields-ok,
  Yields-err, Yields-if, Yields-bind, yields_rules, Yields-guard, ◌==◌, ltb, ok_or-eq, map_err-ok,
  map_err, ok_or, length,
}
use helbreath_backend.Prelude.Int.{pos}
use helbreath_backend.Prelude.Text.{Text, is_empty, len, trim}
use helbreath_backend.Domain.{UuidCrate}
use helbreath_backend.Application.{
  ClientCommand, login, character_list, character_create, character_delete, character_select,
  enter_world, attack, cast_skill, pickup_item, npc_interaction, chat, whisper, guild_chat,
  heartbeat, logout, validate_client_command,
}
use helbreath_backend.Application.Permission.{
  IsOpen, stage_of, HasText, validate_client_command_iff,
}
use helbreath_backend.Net.{
  ProtocolVersion, OpcodeMatrix, SessionPhase, as_domain_state, opcodes_for_version,
}
use helbreath_backend.Net.Frame.{DecodedPacket}
use helbreath_backend.Net.Fields.Trimmed.{trimmed_text-trim}
use helbreath_backend.Net.Fields.{trimmed_text, split_zero, splitn_zero, i32_at}
use helbreath_backend.Net.Client.{
  clean_text, bytes_to_clean_string, login_pieces, parse_login_payload, create_pieces,
  parse_character_create_payload, parse_whisper_payload, parse_text_payload, uuid_command,
  parse_move, skill_target, parse_cast_skill, parse_drop_item, parse_use_item, command_of,
  translate_packet_for_version, invalid_session_state,
}

-- A text that is trimmed, not empty, and of `max` bytes at most.
abbrev pub IsClean : ℕ → Text → Type 0
IsClean max t = (is_empty t ≡ false) × (trim t ≡ t) × (len t ≤ max)

abbrev pub IsCleanCommand : ClientCommand → Type 0
IsCleanCommand (login p) =
    IsClean 32 p.username × IsClean 128 p.password × IsClean 24 p.client_version
IsCleanCommand (character_create p) =
    IsClean 16 p.name × (p.stats ≡ pos 10 ∷ pos 10 ∷ pos 10 ∷ pos 10 ∷ pos 10 ∷ pos 10 ∷ [])
IsCleanCommand (chat m) = IsClean 160 m
IsCleanCommand (whisper to m) = IsClean 32 to × IsClean 160 m
IsCleanCommand (guild_chat m) = IsClean 160 m
IsCleanCommand _ = Unit

clean_text_lem :
    (t r : Text) (max : ℕ)
    → clean_text t max ≡ ok r
    → (r ≡ t) × (is_empty r ≡ false) × (len r ≤ max)
unfolding clean_text
clean_text_lem t r max h = ground arith

bytes_to_clean_string-IsClean :
    (input : List ℕ) (max : ℕ) (r : Text) → bytes_to_clean_string input max ≡ ok r → IsClean max r
unfolding bytes_to_clean_string
bytes_to_clean_string-IsClean input max r h =
    let (t, p, q) = >>=-eq-ok (ok_or (trimmed_text input) _) _ h in
    let (same, full, fits) = clean_text_lem t r max q in
    let trimmed = trimmed_text-trim input t (ok_or-eq (trimmed_text input) _ t p) in
    (full, rw same trimmed, fits)

login_pieces_clean :
    (username : List ℕ) (more : List (List ℕ))
    → Yields (λ p. IsCleanCommand (login p)) (login_pieces username more)
unfolding login_pieces
login_pieces_clean username [] = search yields_rules
login_pieces_clean username (password ∷ []) = search yields_rules
login_pieces_clean username (password ∷ version ∷ more) = Yields-bind _ _ λ u hu.
    Yields-bind _ _ λ p hp. Yields-bind _ _ λ v hv. Yields-ok _ (
      bytes_to_clean_string-IsClean username 32 u hu,
      bytes_to_clean_string-IsClean password 128 p hp,
      bytes_to_clean_string-IsClean version 24 v hv,
    )

create_pieces_clean :
    (name : List ℕ) (more : List (List ℕ))
    → Yields (λ p. IsCleanCommand (character_create p)) (create_pieces name more)
unfolding create_pieces
create_pieces_clean name [] = search yields_rules
create_pieces_clean name (class ∷ more) =
    Yields-bind _ _ λ n hn. Yields-ok _ (bytes_to_clean_string-IsClean name 16 n hn, refl)

parse_whisper-IsClean :
    (payload : List ℕ)
    → Yields (λ (w : Text × Text). IsClean 32 w.0 × IsClean 160 w.1) (parse_whisper_payload payload)
unfolding parse_whisper_payload
parse_whisper-IsClean payload = Yields-bind _ _ λ message e. Yields-bind _ _ λ to' hto.
    Yields-bind _ _ λ message' hm. Yields-ok _ (
      bytes_to_clean_string-IsClean (splitn_zero payload).0 32 to' hto,
      bytes_to_clean_string-IsClean message 160 message' hm,
    )

parse_move_clean : (p : List ℕ) → Yields IsCleanCommand (parse_move p)
unfolding parse_move
parse_move_clean p = Yields-guard _ _ _ (Yields-ok _ tt)

parse_drop_item_clean : (p : List ℕ) → Yields IsCleanCommand (parse_drop_item p)
unfolding parse_drop_item
parse_drop_item_clean p = Yields-guard _ _ _ (Yields-ok _ tt)

parse_use_item_clean : (p : List ℕ) → Yields IsCleanCommand (parse_use_item p)
unfolding parse_use_item
parse_use_item_clean p = Yields-guard _ _ _ (Yields-ok _ tt)

text_clean :
    (make : Text → ClientCommand) (payload : List ℕ)
    → ((t : Text) → IsClean 160 t → IsCleanCommand (make t))
    → Yields IsCleanCommand (parse_text_payload payload 160 >>= λ t. ok (make t))
unfolding parse_text_payload
text_clean make payload h =
    Yields-bind _ _ λ t e. Yields-ok _ (h t (bytes_to_clean_string-IsClean payload 160 t e))

login_clean :
    (payload : List ℕ) → Yields IsCleanCommand (parse_login_payload payload >>= λ p. ok (login p))
unfolding parse_login_payload
login_clean payload =
    let pieces = split_zero payload in
    Yields-bind _ _ λ p e. Yields-ok _ ((login_pieces_clean pieces.0 pieces.1).at p e)

create_clean :
    (payload : List ℕ)
    → Yields IsCleanCommand
        (parse_character_create_payload payload >>= λ p. ok (character_create p))
unfolding parse_character_create_payload
create_clean payload =
    let pieces = split_zero payload in
    Yields-bind _ _ λ p e. Yields-ok _ ((create_pieces_clean pieces.0 pieces.1).at p e)

whisper_clean :
    (payload : List ℕ)
    → Yields IsCleanCommand
        (parse_whisper_payload payload >>= λ (to, message). ok (whisper to message))
whisper_clean payload = Yields-bind _ _ λ w e. Yields-ok _ ((parse_whisper-IsClean payload).at w e)

module _ (uuid : UuidCrate) where
  uuid_command_clean :
      (make : ℕ → ClientCommand) (payload : List ℕ)
      → ((u : ℕ) → IsCleanCommand (make u))
      → Yields IsCleanCommand (uuid_command uuid make payload)
  unfolding uuid_command
  uuid_command_clean make payload h = Yields-bind _ _ λ u e. Yields-ok _ (h u)

  parse_cast_skill_clean : (p : List ℕ) → Yields IsCleanCommand (parse_cast_skill uuid p)
  unfolding parse_cast_skill
  parse_cast_skill_clean p = Yields-guard (ltb (length p) 4) _ _ (
      Yields-bind (skill_target uuid p) (λ t. ok (cast_skill (i32_at p 0) t))
        λ target e. Yields-ok _ tt)

  command_of_clean :
      (op : OpcodeMatrix) (x : ℕ) (p : List ℕ) → Yields IsCleanCommand (command_of uuid op x p)
  unfolding command_of
  command_of_clean op x p = Yields-if (x == op.login) _ _ (login_clean p) (
      Yields-if (x == op.character_list) _ _ (Yields-ok character_list tt) (
        Yields-if (x == op.character_create) _ _ (create_clean p) (
          Yields-if (x == op.character_delete) _ _ (uuid_command_clean character_delete p (λ u. tt))
            (Yields-if (x == op.character_select) _ _
              (uuid_command_clean character_select p (λ u. tt))
              (Yields-if (x == op.enter_world) _ _ (Yields-ok enter_world tt) (
                Yields-if (x == op.move_cmd) _ _ (parse_move_clean p) (
                  Yields-if (x == op.attack) _ _ (uuid_command_clean attack p (λ u. tt)) (
                    Yields-if (x == op.cast_skill) _ _ (parse_cast_skill_clean p) (
                      Yields-if (x == op.pickup_item) _ _
                        (uuid_command_clean pickup_item p (λ u. tt))
                        (Yields-if (x == op.drop_item) _ _ (parse_drop_item_clean p) (
                          Yields-if (x == op.use_item) _ _ (parse_use_item_clean p) (
                            Yields-if (x == op.npc_interaction) _ _
                              (uuid_command_clean npc_interaction p (λ u. tt))
                              (Yields-if (x == op.chat) _ _ (text_clean chat p (λ t h. h)) (
                                Yields-if (x == op.whisper) _ _ (whisper_clean p) (
                                  Yields-if (x == op.guild_chat) _ _
                                    (text_clean guild_chat p (λ t h. h))
                                    (Yields-if (x == op.heartbeat) _ _ (Yields-ok heartbeat tt) (
                                      Yields-if (x == op.logout) _ _ (Yields-ok logout tt)
                                        (Yields-err _))))))))))))))))))

clean_HasText : (c : ClientCommand) → IsCleanCommand c → HasText c
clean_HasText (login p) h = (rw h.0.1 h.0.0, h.1.0)
clean_HasText (chat m) h = rw h.1 h.0
clean_HasText (guild_chat m) h = rw h.1 h.0
clean_HasText _ h = tt

-- A packet that is accepted, in any phase and under either version, is a command whose stage is open
-- in the session's state; its texts are trimmed, not empty and within the limits of the protocol;
-- and a created character has the starting stats.
pub translate_packet_accepted :
    (uuid : UuidCrate) (packet : DecodedPacket) (phase : SessionPhase) (version : ProtocolVersion)
    (c : ClientCommand)
    → translate_packet_for_version uuid packet phase version ≡ ok c
    → IsOpen (stage_of c) (as_domain_state phase) × IsCleanCommand c
unfolding translate_packet_for_version
translate_packet_accepted uuid packet phase version c h =
    let op = opcodes_for_version version in
    let (cmd, p, q) = >>=-eq-ok (command_of uuid op packet.header.opcode packet.payload) _ h in
    let (u, v, same) =
      >>=-eq-ok
        (map_err invalid_session_state (validate_client_command (as_domain_state phase) cmd))
        (λ _. ok cmd) q in
    let valid = (validate_client_command_iff (as_domain_state phase) cmd).0 (
      map_err-ok invalid_session_state (validate_client_command (as_domain_state phase) cmd) u v) in
    let eq : cmd ≡ c = cc in
    rw (← eq) (valid.0, (command_of_clean uuid op packet.header.opcode packet.payload).at cmd p)
