-- ===== src/Gateway/Session.antt =====
-- apps/gateway/src/main.rs: `handle_session`, frame by frame.
pub mod Phases
pub mod Order
use helbreath_backend.Prelude.{
  ℕ, ◌+◌, Bool, true, false, ◌||◌, List, [], ◌∷◌, ◌++◌, Option, none, some, if◌then◌else◌, Result,
  ok, err,
}
use helbreath_backend.Prelude.Text.{Text, codes, trim, to_ascii_lowercase, contains}
use helbreath_backend.Domain.{UuidCrate}
use helbreath_backend.Application.{
  LoginPayload, ClientCommand, login, character_list, character_create, character_delete,
  character_select, enter_world, logout,
}
use helbreath_backend.Net.{
  ProtocolVersion, legacy_v382, modern_v400, SessionPhase, pre_auth, post_auth, in_character_list,
  in_world, closed,
}
use helbreath_backend.Net.Frame.{DecodedPacket, DecodeError, decode_frame, split_frames}
use helbreath_backend.Net.RateLimiter.{F64, Limiter, try_acquire}
use helbreath_backend.Net.Client.{translate_packet_for_version}

unfoldable pub next_phase : SessionPhase → ClientCommand → SessionPhase
next_phase pre_auth (login p) = post_auth
next_phase post_auth character_list = in_character_list
next_phase post_auth (character_create p) = in_character_list
next_phase post_auth (character_delete c) = in_character_list
next_phase post_auth (character_select c) = in_character_list
next_phase in_character_list enter_world = in_world
next_phase _ logout = closed
next_phase phase _ = phase

pub detect_protocol_version : LoginPayload → ProtocolVersion
unfolding trim to_ascii_lowercase contains
detect_protocol_version payload =
    let v = to_ascii_lowercase (trim payload.client_version) in
    if contains v (codes "modern") || contains v (codes "xtreme") then modern_v400 else legacy_v382

pub record Session : Type 0 where
  pub local_limiter : Limiter
  pub phase : SessionPhase
  pub protocol_version : ProtocolVersion
  pub read_buf : List ℕ
  pub packet_decode_errors : ℕ
  pub sent : List ClientCommand

-- The variables of `handle_session` before its loop.
abbrev pub start_session : Limiter → Session
start_session limiter = record {
  local_limiter = limiter;
  phase = pre_auth;
  protocol_version = legacy_v382;
  read_buf = [];
  packet_decode_errors = 0;
  sent = [];
}

-- What reaches a session from outside when a frame is handled: the instant, and what Redis answers;
-- none where there is no connection to it or its answer is an error.
pub record Arrival : Type 0 where
  pub now : ℕ
  pub redis : Option Bool

unfoldable pub allow : F64 → Arrival → Session → Session × Bool
allow doubles at s = elim at.redis [
  | none ↦
      let (limiter, granted) = try_acquire doubles at.now 1 s.local_limiter in
      (record s { local_limiter = limiter }, granted)
  | some granted ↦ (s, granted)
]

unfoldable pub accept : ClientCommand → Session → Session
unfolding next_phase detect_protocol_version
accept (login payload) s = record s {
  protocol_version = detect_protocol_version payload;
  phase = next_phase s.phase (login payload);
  sent = s.sent ++ (login payload ∷ []);
}
accept command s = record s { phase = next_phase s.phase command; sent = s.sent ++ (command ∷ []) }

abbrev fail : Session → Session
fail s = record s { packet_decode_errors = s.packet_decode_errors + 1 }

-- `doubles` is the arithmetic of the limiter.
module _ (uuid : UuidCrate) (doubles : F64) (packet_max_payload : ℕ) where
  -- A frame that the limiter lets through.
  unfoldable pub handle_packet : DecodedPacket → Session → Session
  unfolding accept
  handle_packet packet s =
      elim (translate_packet_for_version uuid packet s.phase s.protocol_version) [
        | ok command ↦ accept command s
        | err e ↦ fail s
      ]

  unfoldable pub handle_frame : Arrival → List ℕ → Session → Session
  unfolding allow handle_packet
  handle_frame at frame s =
      let (s', allowed) = allow doubles at s in
      if allowed
      then elim (decode_frame frame packet_max_payload) [
        | ok packet ↦ handle_packet packet s'
        | err e ↦ fail s'
      ]
      else s'

  -- The frames of one read, each with what arrives from outside for it.
  unfoldable pub handle_frames : (ℕ → Arrival) → List (List ℕ) → Session → Session
  unfolding handle_frame
  handle_frames at [] s = s
  handle_frames at (frame ∷ frames) s =
      handle_frames (λ i. at (i + 1)) frames (handle_frame (at 0) frame s)

  unfoldable pub handle_read : (ℕ → Arrival) → List ℕ → Session → Session
  unfolding handle_frames
  handle_read at bytes s =
      let (frames, rest) = split_frames (s.read_buf ++ bytes) in
      handle_frames at frames (record s { read_buf = rest })

  unfoldable pub handle_session : List ((ℕ → Arrival) × List ℕ) → Session → Session
  unfolding handle_read
  handle_session [] s = s
  handle_session ((at, bytes) ∷ reads) s = handle_session reads (handle_read at bytes s)
