-- ===== src/Chat.antt =====
-- crates/chat/src/lib.rs: the chat service, which turns each command into one envelope.
pub mod Service
mod Examples
use helbreath_backend.Prelude.{List, [], ◌∷◌, map}
use helbreath_backend.Prelude.Int.{ℤ}
use helbreath_backend.Prelude.Text.{Text}
use helbreath_backend.Domain.{Uuid}
use Prim.Native.String.{String}

pub data ChatCommand : Type 0 where
  say_map : Uuid → ℤ → Text → ChatCommand
  whisper : Uuid → Text → Text → ChatCommand
  guild : Uuid → Uuid → Text → ChatCommand

pub record ChatEnvelope : Type 0 where
  pub from_character_id : Uuid
  pub message : Text
  pub channel : String

-- The `match cmd` of `ChatService::run`.
unfoldable pub envelope_of : ChatCommand → ChatEnvelope
envelope_of (say_map from map_id message) = record {
  from_character_id = from;
  message = message;
  channel = "map";
}
envelope_of (whisper from to message) = record {
  from_character_id = from;
  message = message;
  channel = "whisper";
}
envelope_of (guild from guild_id message) = record {
  from_character_id = from;
  message = message;
  channel = "guild";
}

-- What `ChatService::run` sends for what it receives.
unfoldable pub run : List ChatCommand → List ChatEnvelope
unfolding envelope_of
run [] = []
run (cmd ∷ cmds) = envelope_of cmd ∷ run cmds
