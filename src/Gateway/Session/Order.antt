-- ===== src/Gateway/Session/Order.antt =====
-- apps/gateway/src/main.rs: the order of the commands that a session hands to the router.
use helbreath_backend.Prelude.{ℕ, ◌+◌, ◌≤◌, ◌≡◌, refl, ap, List, [], ◌∷◌, arith}
use helbreath_backend.Domain.{UuidCrate}
use helbreath_backend.Application.{ClientCommand, login, logout}
use helbreath_backend.Application.Permission.{
  IsOpen, stage_of, Stage, entry, lobby, spawn, play, leave, alive,
}
use helbreath_backend.Net.{SessionPhase, pre_auth, closed, as_domain_state}
use helbreath_backend.Net.RateLimiter.{F64, Limiter}
use helbreath_backend.Gateway.Session.{next_phase, start_session, Arrival, handle_session}
use helbreath_backend.Gateway.Session.Phases.{IsPlayed, IsRun, handle_session-IsRun}

abbrev pub logins : List ClientCommand → ℕ
logins [] = 0
logins (login p ∷ cs) = 1 + logins cs
logins (_ ∷ cs) = logins cs

-- Whether a login can still come.
abbrev chances : SessionPhase → ℕ
chances pre_auth = 1
chances _ = 0

abbrev is_login : ClientCommand → ℕ
is_login (login p) = 1
is_login _ = 0

logins-cons :
    (c : ClientCommand) (cs : List ClientCommand) → logins (c ∷ cs) ≡ is_login c + logins cs
logins-cons (login p) cs = refl
logins-cons _ cs = omega arith

next_phase-chances :
    (p : SessionPhase) (c : ClientCommand)
    → IsOpen (stage_of c) (as_domain_state p)
    → is_login c + chances (next_phase p c) ≤ chances p
unfolding next_phase as_domain_state
next_phase-chances pre_auth (login x) h = omega arith
next_phase-chances _ _ h = ground arith

logins_le : (p : SessionPhase) (cs : List ClientCommand) → IsPlayed p cs → logins cs ≤ chances p
logins_le p [] h = omega arith
logins_le p (c ∷ cs) h =
    omega (arith, logins-cons c cs, logins_le (next_phase p c) cs h.1, next_phase-chances p c h.0)

-- Nothing is open in the closed phase.
IsOpen-closed : (s : Stage) → IsOpen s (as_domain_state closed) → ⊥
unfolding as_domain_state
IsOpen-closed leave h = h.1 refl
IsOpen-closed alive h = h refl
IsOpen-closed entry h = cc
IsOpen-closed lobby h = ground arith
IsOpen-closed spawn h = ground arith
IsOpen-closed play h = cc

next_phase-logout : (p : SessionPhase) → next_phase p logout ≡ closed
unfolding next_phase
next_phase-logout pre_auth = refl
next_phase-logout _ = refl

-- The commands as far as the first logout.
abbrev pub up_to_logout : List ClientCommand → List ClientCommand
up_to_logout [] = []
up_to_logout (logout ∷ cs) = logout ∷ []
up_to_logout (c ∷ cs) = c ∷ up_to_logout cs

up_to_logout_lem :
    (p : SessionPhase) (cs : List ClientCommand) → IsPlayed p cs → up_to_logout cs ≡ cs
up_to_logout_lem p [] h = refl
up_to_logout_lem p (logout ∷ []) h = refl
up_to_logout_lem p (logout ∷ (c ∷ cs)) h =
    absurd (IsOpen-closed (stage_of c) (rw (next_phase-logout p) at h.1.0))
up_to_logout_lem p (c ∷ cs) h = ap (λ t. c ∷ t) (up_to_logout_lem (next_phase p c) cs h.1)

module _ (uuid : UuidCrate) (doubles : F64) (packet_max_payload : ℕ) (limiter : Limiter) where
  -- Whatever a new connection sends, in whatever reads, and whatever the limiters answer: each command
  -- that is handed to the router is open in the phase that those before it lead to, which is the phase
  -- of the session at the end, and has the clean texts and the starting stats of `IsCleanCommand`.
  pub handle_session_played :
      (reads : List ((ℕ → Arrival) × List ℕ))
      → IsRun pre_auth
          (handle_session uuid doubles packet_max_payload reads (start_session limiter))
  handle_session_played reads =
      handle_session-IsRun uuid doubles packet_max_payload pre_auth reads (start_session limiter)
        (record { phase = refl; played = tt; clean = tt })

  -- A connection hands at most one login to the router, also when the login is rejected.
  pub logins-handle_session :
      (reads : List ((ℕ → Arrival) × List ℕ))
      → logins (handle_session uuid doubles packet_max_payload reads (start_session limiter)).sent
        ≤ 1
  logins-handle_session reads = logins_le pre_auth _ (handle_session_played reads).played

  -- What a connection hands to the router ends with its first logout, if there is one.
  pub handle_session_logout :
      (reads : List ((ℕ → Arrival) × List ℕ))
      → up_to_logout
          (handle_session uuid doubles packet_max_payload reads (start_session limiter)).sent
        ≡ (handle_session uuid doubles packet_max_payload reads (start_session limiter)).sent
  handle_session_logout reads = up_to_logout_lem pre_auth _ (handle_session_played reads).played
