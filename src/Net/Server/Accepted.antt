-- ===== src/Net/Server/Accepted.antt =====
-- crates/net/src/lib.rs: the texts and the optional fields of the server messages.
use helbreath_backend.Prelude.{
  ℕ, ◌≤◌, ◌≡◌, false, Option, none, some, List, arith, ltb, leb, ◌==◌, if◌then◌else◌, ok, err,
  ◌>>=◌, Yields, Yields-ok, Yields-err, Yields-if, Yields-bind, Yields-guard, length, Bool-cases,
  inl, inr, ok_or, ok_or-eq,
}
use helbreath_backend.Prelude.Int.{ℤ}
use helbreath_backend.Prelude.Text.{Text, len, is_empty, trim}
use Prim.Native.String.{String}
use helbreath_backend.Domain.{Uuid, UuidCrate}
use helbreath_backend.Net.{
  ProtocolVersion, ServerOpcodeMatrix, server_opcodes_for_version, WireErrorCode,
  parse_wire_error_code,
}
use helbreath_backend.Net.Frame.{DecodedPacket}
use helbreath_backend.Net.Fields.{trimmed_text, splitn_zero}
use helbreath_backend.Net.Fields.Trimmed.{trimmed_text-trim}
use helbreath_backend.Net.Server.{
  ServerMessage, login_result, character_list_result, character_create_result,
  character_delete_result, character_select_result, enter_world_result, move_result, attack_result,
  cast_skill_result, pickup_item_result, drop_item_result, use_item_result, npc_interaction_result,
  chat_broadcast, whisper_broadcast, guild_chat_broadcast, heartbeat_ack, logout_ack, error,
  invalid_payload, Parsed, parse_u16_at, parse_i32_at, parse_bool_at, parse_uuid_at, optional,
  optional_i32, checked_text, bytes_to_optional_server_string, text_behind, parse_login_result,
  parse_code_and_character, parse_character_select_result, parse_enter_world_result,
  parse_move_result, parse_attack_result, parse_cast_skill_result, parse_pickup_item_result,
  parse_drop_item_result, parse_use_item_result, parse_npc_interaction_result,
  parse_sender_and_message, parse_broadcast, parse_error_result, message_of,
  translate_server_packet_for_version,
}

-- 1 if the field is there.
abbrev pub present : {A : Type 0} → Option A → ℕ
present none = 0
present (some a) = 1

-- A text that is trimmed, not empty, and of `max` bytes at most.
abbrev pub IsClean : ℕ → Text → Type 0
IsClean max t = (is_empty t ≡ false) × (trim t ≡ t) × (len t ≤ max)

abbrev pub IsCleanOption : ℕ → Option Text → Type 0
IsCleanOption max none = Unit
IsCleanOption max (some t) = IsClean max t

-- The texts are clean and bounded. In a selection or an entry no field is there without those in
-- front of it.
abbrev pub IsCleanMessage : ServerMessage → Type 0
IsCleanMessage (login_result _ _ message) = IsCleanOption 160 message
IsCleanMessage (npc_interaction_result _ text) = IsCleanOption 256 text
IsCleanMessage (chat_broadcast from message) = IsClean 32 from × IsClean 160 message
IsCleanMessage (whisper_broadcast from message) = IsClean 32 from × IsClean 160 message
IsCleanMessage (guild_chat_broadcast from message) = IsClean 32 from × IsClean 160 message
IsCleanMessage (error _ message) = IsCleanOption 160 message
IsCleanMessage (character_select_result _ id map_id x y) =
    (present y ≤ present x) × (present x ≤ present map_id) × (present map_id ≤ present id)
IsCleanMessage (enter_world_result _ map_id x y) =
    (present y ≤ present x) × (present x ≤ present map_id)
IsCleanMessage _ = Unit

checked_text_clean :
    (t : Text) (max : ℕ) → trim t ≡ t → Yields (IsCleanOption max) (checked_text t max)
unfolding checked_text
checked_text_clean t max trimmed = elim (Bool-cases (ltb max (len t))) [
  | inl e ↦ rw e (Yields-err _)
  | inr e ↦ elim (Bool-cases (is_empty t)) [
    | inl e' ↦ rw (e, e') (Yields-ok none tt)
    | inr e' ↦ rw (e, e') (Yields-ok (some t) (e', trimmed, fits (len t) max e))
  ]
]
  where
    fits : (n m : ℕ) → ltb m n ≡ false → n ≤ m
    fits n m h = ground arith

server_string_clean :
    (input : List ℕ) (max : ℕ)
    → Yields (IsCleanOption max) (bytes_to_optional_server_string input max)
unfolding bytes_to_optional_server_string
server_string_clean input max =
    Yields-bind (ok_or (trimmed_text input) _) (λ t. checked_text t max)
      λ t e.
        checked_text_clean t max (trimmed_text-trim input t (ok_or-eq (trimmed_text input) _ t e))

text_behind_clean :
    (p : List ℕ) (offset max : ℕ) → Yields (IsCleanOption max) (text_behind p offset max)
unfolding text_behind
text_behind_clean p offset max =
    Yields-if (ltb offset (length p)) _ _ (server_string_clean _ max) (Yields-ok none tt)

some_text-IsClean :
    (max : ℕ) (o : Option Text) (t : Text) → IsCleanOption max o → o ≡ some t → IsClean max t
some_text-IsClean max none t h e = cc
some_text-IsClean max (some u) t h e = let same : u ≡ t = cc in rw (← same) h

optional-present :
    {A : Type 0} (p : List ℕ) (size : ℕ) (m : Parsed A) (o : Option A)
    → optional p size m ≡ ok o
    → present o ≡ (if leb size (length p) then 1 else 0)
unfolding optional
optional-present p size (ok a) o h = ground arith
optional-present p size (err e) o h = ground arith

optional_i32-present :
    (p : List ℕ) (size offset : ℕ) (e : String) (o : Option ℤ)
    → optional_i32 p size offset e ≡ ok o
    → present o ≡ (if leb size (length p) then 1 else 0)
unfolding optional_i32
optional_i32-present p size offset e o h = optional-present p size (parse_i32_at p offset e) o h

login_result_clean : (p : List ℕ) → Yields IsCleanMessage (parse_login_result p)
unfolding parse_login_result
login_result_clean p =
    Yields-guard (ltb (length p) 3) _ _
      (Yields-bind (text_behind p 3 160) _ λ t e. Yields-ok _ ((text_behind_clean p 3 160).at t e))

list_clean :
    (p : List ℕ)
    → Yields IsCleanMessage (
        parse_u16_at p 0 "character_list_result requires count" >>= λ n.
        ok (character_list_result n))
list_clean p = Yields-bind (parse_u16_at p 0 _) _ λ n e. Yields-ok (character_list_result n) tt

enter_clean : (p : List ℕ) → Yields IsCleanMessage (parse_enter_world_result p)
unfolding parse_enter_world_result
enter_clean p = Yields-bind (parse_u16_at p 0 _) _ λ c ec.
    Yields-bind (optional_i32 p 6 2 _) _ λ m em. Yields-bind (optional_i32 p 10 6 _) _ λ x ex.
      Yields-bind (optional_i32 p 14 10 _) _ λ y ey.
        Yields-ok (enter_world_result (parse_wire_error_code c) m x y) (
          ground (
            arith,
            optional_i32-present p 6 2 "enter_world_result invalid map_id" m em,
            optional_i32-present p 10 6 "enter_world_result invalid x" x ex,
            optional_i32-present p 14 10 "enter_world_result invalid y" y ey,
          ))

move_clean : (p : List ℕ) → Yields IsCleanMessage (parse_move_result p)
unfolding parse_move_result
move_clean p =
    Yields-bind (parse_i32_at p 0 _) _
      λ x ex. Yields-bind (parse_i32_at p 4 _) _ λ y ey. Yields-ok (move_result x y) tt

drop_clean : (p : List ℕ) → Yields IsCleanMessage (parse_drop_item_result p)
unfolding parse_drop_item_result
drop_clean p = Yields-bind (parse_i32_at p 0 _) _ λ s es.
    Yields-bind (parse_i32_at p 4 _) _
      λ q eq. Yields-bind (parse_bool_at p 8 _) _ λ d ed. Yields-ok (drop_item_result s q d) tt

use_clean : (p : List ℕ) → Yields IsCleanMessage (parse_use_item_result p)
unfolding parse_use_item_result
use_clean p =
    Yields-bind (parse_i32_at p 0 _) _
      λ s es. Yields-bind (parse_bool_at p 4 _) _ λ d ed. Yields-ok (use_item_result s d) tt

sender-IsClean :
    (p : List ℕ)
    → Yields (λ (w : Text × Text). IsClean 32 w.0 × IsClean 160 w.1) (parse_sender_and_message p)
unfolding parse_sender_and_message
sender-IsClean p =
    Yields-bind (ok_or (splitn_zero p).1 (invalid_payload "message missing")) _ λ raw er.
      Yields-bind (bytes_to_optional_server_string (splitn_zero p).0 32) _ λ s es.
        Yields-bind (ok_or s (invalid_payload "sender empty")) _ λ f ef.
          Yields-bind (bytes_to_optional_server_string raw 160) _ λ t et.
            Yields-bind (ok_or t (invalid_payload "message empty")) _ λ m em.
              Yields-ok (f, m)
                (
                  some_text-IsClean 32 s f ((server_string_clean (splitn_zero p).0 32).at s es)
                      (ok_or-eq s (invalid_payload "sender empty") f ef),
                  some_text-IsClean 160 t m ((server_string_clean raw 160).at t et)
                      (ok_or-eq t (invalid_payload "message empty") m em),
                )

broadcast_clean :
    (make : Text → Text → ServerMessage) (p : List ℕ)
    → ((from message : Text)
        → IsClean 32 from × IsClean 160 message
        → IsCleanMessage (make from message))
    → Yields IsCleanMessage (parse_broadcast make p)
unfolding parse_broadcast
broadcast_clean make p h =
    Yields-bind _ _ λ w e. Yields-ok (make w.0 w.1) (h w.0 w.1 ((sender-IsClean p).at w e))

error_clean : (p : List ℕ) → Yields IsCleanMessage (parse_error_result p)
unfolding parse_error_result
error_clean p = Yields-bind (parse_u16_at p 0 _) _ λ c ec.
    Yields-bind (text_behind p 2 160) _
      λ t et. Yields-ok (error (parse_wire_error_code c) t) ((text_behind_clean p 2 160).at t et)

module _ (uuid : UuidCrate) where
  code_clean :
      (make : WireErrorCode → Option Uuid → ServerMessage) (p : List ℕ) (e e' : String)
      → ((c : WireErrorCode) (o : Option Uuid) → IsCleanMessage (make c o))
      → Yields IsCleanMessage (parse_code_and_character uuid make p e e')
  unfolding parse_code_and_character
  code_clean make p e e' h = Yields-bind (parse_u16_at p 0 e) _ λ c ec.
      Yields-bind (optional p 18 (parse_uuid_at uuid p 2 e')) _
        λ o eo. Yields-ok (make (parse_wire_error_code c) o) (h (parse_wire_error_code c) o)

  select_clean : (p : List ℕ) → Yields IsCleanMessage (parse_character_select_result uuid p)
  unfolding parse_character_select_result
  select_clean p = Yields-bind (parse_u16_at p 0 _) _ λ c ec.
      Yields-bind (optional p 18 (parse_uuid_at uuid p 2 _)) _ λ i ei.
        Yields-bind (optional_i32 p 22 18 _) _ λ m em.
          Yields-bind (optional_i32 p 26 22 _) _ λ x ex.
            Yields-bind (optional_i32 p 30 26 _) _ λ y ey.
              Yields-ok (character_select_result (parse_wire_error_code c) i m x y) (
                ground (
                  arith,
                  optional-present p 18
                      (parse_uuid_at uuid p 2 "character_select_result invalid character_id") i ei,
                  optional_i32-present p 22 18 "character_select_result invalid map_id" m em,
                  optional_i32-present p 26 22 "character_select_result invalid x" x ex,
                  optional_i32-present p 30 26 "character_select_result invalid y" y ey,
                ))

  attack_clean : (p : List ℕ) → Yields IsCleanMessage (parse_attack_result uuid p)
  unfolding parse_attack_result
  attack_clean p = Yields-bind (parse_uuid_at uuid p 0 _) _ λ t et.
      Yields-bind (parse_i32_at p 16 _) _
        λ d ed. Yields-bind (parse_bool_at p 20 _) _ λ f ef. Yields-ok (attack_result t d f) tt

  cast_skill_clean : (p : List ℕ) → Yields IsCleanMessage (parse_cast_skill_result uuid p)
  unfolding parse_cast_skill_result
  cast_skill_clean p = Yields-bind (parse_i32_at p 0 _) _ λ s es.
      Yields-bind (parse_bool_at p 4 _) _ λ d ed.
        Yields-bind (optional p 21 (parse_uuid_at uuid p 5 _)) _
          λ t et. Yields-ok (cast_skill_result s t d) tt

  pickup_clean : (p : List ℕ) → Yields IsCleanMessage (parse_pickup_item_result uuid p)
  unfolding parse_pickup_item_result
  pickup_clean p =
      Yields-bind (parse_uuid_at uuid p 0 _) _
        λ t et. Yields-bind (parse_bool_at p 16 _) _ λ d ed. Yields-ok (pickup_item_result t d) tt

  npc_clean : (p : List ℕ) → Yields IsCleanMessage (parse_npc_interaction_result uuid p)
  unfolding parse_npc_interaction_result
  npc_clean p = Yields-bind (parse_uuid_at uuid p 0 _) _ λ n en.
      Yields-bind (text_behind p 16 256) _
        λ t et. Yields-ok (npc_interaction_result n t) ((text_behind_clean p 16 256).at t et)

  message_of_clean :
      (op : ServerOpcodeMatrix) (opcode : ℕ) (p : List ℕ)
      → Yields IsCleanMessage (message_of uuid op opcode p)
  unfolding message_of
  message_of_clean op opcode p = Yields-if (opcode == op.login_result) _ _ (login_result_clean p) (
      Yields-if (opcode == op.character_list_result) _ _ (list_clean p) (
        Yields-if (opcode == op.character_create_result) _ _
          (code_clean character_create_result p _ _ (λ c o. tt))
          (Yields-if (opcode == op.character_delete_result) _ _
            (code_clean character_delete_result p _ _ (λ c o. tt))
            (Yields-if (opcode == op.character_select_result) _ _ (select_clean p) (
              Yields-if (opcode == op.enter_world_result) _ _ (enter_clean p) (
                Yields-if (opcode == op.move_result) _ _ (move_clean p) (
                  Yields-if (opcode == op.attack_result) _ _ (attack_clean p) (
                    Yields-if (opcode == op.cast_skill_result) _ _ (cast_skill_clean p) (
                      Yields-if (opcode == op.pickup_item_result) _ _ (pickup_clean p) (
                        Yields-if (opcode == op.drop_item_result) _ _ (drop_clean p) (
                          Yields-if (opcode == op.use_item_result) _ _ (use_clean p) (
                            Yields-if (opcode == op.npc_interaction_result) _ _ (npc_clean p) (
                              Yields-if (opcode == op.chat_broadcast) _ _
                                (broadcast_clean chat_broadcast p (λ s m h. h))
                                (Yields-if (opcode == op.whisper_broadcast) _ _
                                  (broadcast_clean whisper_broadcast p (λ s m h. h))
                                  (Yields-if (opcode == op.guild_chat_broadcast) _ _
                                    (broadcast_clean guild_chat_broadcast p (λ s m h. h))
                                    (Yields-if (opcode == op.heartbeat_ack) _ _
                                      (Yields-ok heartbeat_ack tt)
                                      (Yields-if (opcode == op.logout_ack) _ _
                                        (Yields-ok logout_ack tt)
                                        (Yields-if (opcode == op.error) _ _ (error_clean p)
                                          (Yields-err _)))))))))))))))))))

-- A server packet that is translated, under either version, is a message whose texts are trimmed, not
-- empty and within the limits of the protocol; and of the optional fields of a selection or an entry
-- none is there without those in front of it.
pub translate_server_packet_accepted :
    (uuid : UuidCrate) (packet : DecodedPacket) (version : ProtocolVersion) (m : ServerMessage)
    → translate_server_packet_for_version uuid packet version ≡ ok m
    → IsCleanMessage m
unfolding translate_server_packet_for_version
translate_server_packet_accepted uuid packet version m h =
    (message_of_clean uuid (server_opcodes_for_version version) packet.header.opcode
        packet.payload).at
      m h
