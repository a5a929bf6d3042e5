-- ===== src/Gateway/Session/Phases.antt =====
-- apps/gateway/src/main.rs: the commands that a session hands to the router, as a run of the phases.
use helbreath_backend.Prelude.{
  ℕ, ◌+◌, ◌≡◌, refl, sym, ap, ◌∙◌, inl, inr, List, [], ◌∷◌, ◌++◌, Result-cases, Option-cases,
  Bool-cases, All, All-append,
}
use helbreath_backend.Domain.{UuidCrate}
use helbreath_backend.Application.{ClientCommand, login}
use helbreath_backend.Application.Permission.{IsOpen, stage_of}
use helbreath_backend.Net.{SessionPhase, as_domain_state}
use helbreath_backend.Net.Frame.{DecodedPacket, decode_frame, split_frames}
use helbreath_backend.Net.Client.{translate_packet_for_version}
use helbreath_backend.Net.Client.Accepted.{IsCleanCommand, translate_packet_accepted}
use helbreath_backend.Net.RateLimiter.{F64}
use helbreath_backend.Gateway.Session.{
  next_phase, Session, Arrival, allow, accept, handle_packet, handle_frame, handle_frames,
  handle_read, handle_session,
}

-- The phase behind a list of commands.
abbrev pub replay : SessionPhase → List ClientCommand → SessionPhase
replay p [] = p
replay p (c ∷ cs) = replay (next_phase p c) cs

-- Each of the commands is open in the phase that those before it lead to.
abbrev pub IsPlayed : SessionPhase → List ClientCommand → Type 0
IsPlayed p [] = Unit
IsPlayed p (c ∷ cs) = IsOpen (stage_of c) (as_domain_state p) × IsPlayed (next_phase p c) cs

replay-snoc :
    (p : SessionPhase) (cs : List ClientCommand) (c : ClientCommand)
    → replay p (cs ++ (c ∷ [])) ≡ next_phase (replay p cs) c
replay-snoc p [] c = refl
replay-snoc p (d ∷ cs) c = replay-snoc (next_phase p d) cs c

IsPlayed-snoc :
    (p : SessionPhase) (cs : List ClientCommand) (c : ClientCommand)
    → IsPlayed p cs
    → IsOpen (stage_of c) (as_domain_state (replay p cs))
    → IsPlayed p (cs ++ (c ∷ []))
IsPlayed-snoc p [] c h k = (k, tt)
IsPlayed-snoc p (d ∷ cs) c h k = (h.0, IsPlayed-snoc (next_phase p d) cs c h.1 k)

-- What holds of a session that began in the phase `p` with nothing handed on.
pub record IsRun (p : SessionPhase) (s : Session) : Type 0 where
  pub phase : s.phase ≡ replay p s.sent
  pub played : IsPlayed p s.sent
  pub clean : All IsCleanCommand s.sent

-- Only what these two fields hold matters.
IsRun-same :
    (p : SessionPhase) (s t : Session) → t.phase ≡ s.phase → t.sent ≡ s.sent → IsRun p s → IsRun p t
IsRun-same p s t e f h = record {
  phase = e ∙ h.phase ∙ ap (replay p) (sym f);
  played = rw f h.played;
  clean = rw f h.clean;
}

accept_fields :
    (c : ClientCommand) (s : Session)
    → ((accept c s).phase ≡ next_phase s.phase c) × ((accept c s).sent ≡ s.sent ++ (c ∷ []))
unfolding accept
accept_fields (login payload) s = (refl, refl)
accept_fields _ s = (refl, refl)

accept-IsRun :
    (p : SessionPhase) (c : ClientCommand) (s : Session)
    → IsOpen (stage_of c) (as_domain_state s.phase)
    → IsCleanCommand c
    → IsRun p s
    → IsRun p (accept c s)
accept-IsRun p c s available clean h =
    let f = accept_fields c s in
    record {
      phase =
          f.0
          ∙ ap (λ q. next_phase q c) h.phase
          ∙ sym (replay-snoc p s.sent c)
          ∙ ap (replay p) (sym f.1);
      played = rw f.1 (IsPlayed-snoc p s.sent c h.played (rw h.phase at available));
      clean = rw f.1 (All-append IsCleanCommand s.sent (c ∷ []) h.clean (clean, tt));
    }

allow_fields :
    (doubles : F64) (at : Arrival) (s : Session)
    → ((allow doubles at s).0.phase ≡ s.phase) × ((allow doubles at s).0.sent ≡ s.sent)
unfolding allow
allow_fields doubles at s = elim (Option-cases at.redis) [
  | inl e ↦ rw e (refl, refl)
  | inr (b, e) ↦ rw e (refl, refl)
]

module _ (uuid : UuidCrate) (doubles : F64) (packet_max_payload : ℕ) (p : SessionPhase) where
  handle_packet-IsRun :
      (packet : DecodedPacket) (s : Session)
      → IsRun p s
      → IsRun p (handle_packet uuid doubles packet_max_payload packet s)
  unfolding handle_packet
  handle_packet-IsRun packet s h =
      elim (Result-cases (translate_packet_for_version uuid packet s.phase s.protocol_version)) [
        | inl (c, e) ↦
            let good = translate_packet_accepted uuid packet s.phase s.protocol_version c e in
            rw (e, handle_packet) (accept-IsRun p c s good.0 good.1 h)
        | inr (x, e) ↦ rw (e, handle_packet) (IsRun-same p s _ refl refl h)
      ]

  handle_frame-IsRun :
      (at : Arrival) (frame : List ℕ) (s : Session)
      → IsRun p s
      → IsRun p (handle_frame uuid doubles packet_max_payload at frame s)
  unfolding handle_frame
  handle_frame-IsRun at frame s h =
      let f = allow_fields doubles at s in
      let h' = IsRun-same p s (allow doubles at s).0 f.0 f.1 h in
      elim (Bool-cases (allow doubles at s).1) [
        | inl t ↦ elim (Result-cases (decode_frame frame packet_max_payload)) [
          | inl (packet, e) ↦
              rw (t, e, handle_frame) (handle_packet-IsRun packet (allow doubles at s).0 h')
          | inr (x, e) ↦
              rw (t, e, handle_frame) (IsRun-same p (allow doubles at s).0 _ refl refl h')
        ]
        | inr t ↦ rw (t, handle_frame) h'
      ]

  handle_frames-IsRun :
      (at : ℕ → Arrival) (frames : List (List ℕ)) (s : Session)
      → IsRun p s
      → IsRun p (handle_frames uuid doubles packet_max_payload at frames s)
  unfolding handle_frames
  handle_frames-IsRun at [] s h = h
  handle_frames-IsRun at (frame ∷ frames) s h =
      handle_frames-IsRun (λ i. at (i + 1)) frames _ (handle_frame-IsRun (at 0) frame s h)

  pub handle_session-IsRun :
      (reads : List ((ℕ → Arrival) × List ℕ)) (s : Session)
      → IsRun p s
      → IsRun p (handle_session uuid doubles packet_max_payload reads s)
  unfolding handle_session handle_read
  handle_session-IsRun [] s h = h
  handle_session-IsRun ((at, bytes) ∷ reads) s h = handle_session-IsRun reads _ (
      handle_frames-IsRun at (split_frames (s.read_buf ++ bytes)).0 _
        (IsRun-same p s _ refl refl h))
