-- ===== src/Application/Permission.antt =====
-- crates/application/src/lib.rs: what `validate_client_command` accepts, by the stage of the game
-- that a command belongs to.
use helbreath_backend.Prelude.{
  ◌≡◌, ◌≢◌, ◌↔◌, ◌⊎◌, inl, inr, refl, true, false, arith, ok, err, Bool-cases,
}
use helbreath_backend.Prelude.Text.{is_empty, trim}
use helbreath_backend.Domain.{
  SessionState, connecting, authenticated, in_character_list, in_world, closed,
}
use helbreath_backend.Application.{
  ClientCommand, login, character_list, character_create, character_delete, character_select,
  enter_world, chat, guild_chat, heartbeat, logout, invalid_session_state, command_name, is_allowed,
  check_payload, validate_client_command,
}

pub data Stage : Type 0 where
  entry lobby spawn play leave alive : Stage

abbrev pub stage_of : ClientCommand → Stage
stage_of (login _) = entry
stage_of character_list = lobby
stage_of (character_create _) = lobby
stage_of (character_delete _) = lobby
stage_of (character_select _) = lobby
stage_of enter_world = spawn
stage_of heartbeat = alive
stage_of logout = leave
stage_of _ = play

-- The states in which a stage is open.
abbrev pub IsOpen : Stage → SessionState → Type 0
IsOpen entry s = s ≡ connecting
IsOpen lobby s = (s ≡ authenticated) ⊎ (s ≡ in_character_list)
IsOpen spawn s = (s ≡ in_character_list) ⊎ (s ≡ in_world)
IsOpen play s = s ≡ in_world
IsOpen leave s = (s ≢ connecting) × (s ≢ closed)
IsOpen alive s = s ≢ closed

-- The texts that must not be blank.
abbrev pub HasText : ClientCommand → Type 0
HasText (login p) = (is_empty (trim p.username) ≡ false) × (is_empty p.password ≡ false)
HasText (chat m) = is_empty (trim m) ≡ false
HasText (guild_chat m) = is_empty (trim m) ≡ false
HasText _ = Unit

pub is_allowed_iff :
    (s : SessionState) (c : ClientCommand) → (is_allowed s c ≡ true) ↔ IsOpen (stage_of c) s
unfolding is_allowed
is_allowed_iff connecting (login _) = ground arith
is_allowed_iff _ _ = ground arith

pub check_payload_iff : (c : ClientCommand) → (check_payload c ≡ ok tt) ↔ HasText c
unfolding check_payload
check_payload_iff (login p) = ground arith
check_payload_iff _ = ground arith

-- A command is accepted exactly when its stage is open in the session's state and it has the texts
-- that it needs.
pub validate_client_command_iff :
    (s : SessionState) (c : ClientCommand)
    → (validate_client_command s c ≡ ok tt) ↔ (IsOpen (stage_of c) s × HasText c)
unfolding validate_client_command
validate_client_command_iff s c = elim (Bool-cases (is_allowed s c)) [
  | inl e ↦
      rw e (
        λ h. ((is_allowed_iff s c).0 e, (check_payload_iff c).0 h),
        λ h. (check_payload_iff c).1 h.1,
      )
  | inr e ↦ rw e (λ h. absurd (cc h), λ h. absurd (cc (e, (is_allowed_iff s c).1 h.0)))
]

-- Outside its stage a command is refused with the session's state and its own name, whatever its
-- payload.
pub validate_client_command_shut :
    (s : SessionState) (c : ClientCommand)
    → (IsOpen (stage_of c) s → ⊥)
    → validate_client_command s c ≡ err (invalid_session_state s (command_name c))
unfolding validate_client_command
validate_client_command_shut s c h = elim (Bool-cases (is_allowed s c)) [
  | inl e ↦ absurd (h ((is_allowed_iff s c).0 e))
  | inr e ↦ rw e refl
]
