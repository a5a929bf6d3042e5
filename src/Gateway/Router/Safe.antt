-- ===== src/Gateway/Router/Safe.antt =====
-- apps/gateway/src/main.rs: what a session in the world has, and which requests carry a character.
use helbreath_backend.Prelude.{
  ◌⊎◌, List, ◌≡◌, refl, ap, ◌∙◌, Bool, true, false, ◌&&◌, [], ◌∷◌, Option, some, arith, All,
  All-append, Bool-cases, Option-cases, inl, inr, nat_eq, ◌==◌,
}
use helbreath_backend.Prelude.Assoc.{Assoc, lookup, insert, remove, Distinct}
use helbreath_backend.Prelude.Assoc.Laws.{Distinct-insert, Distinct-remove}
use helbreath_backend.Gateway.Router.Changes.{Distinct-changed}
use helbreath_backend.Domain.{Uuid}
use helbreath_backend.Gateway.{
  Change, opened, closed, new_session, SessionRuntime, WorldRouteCommandRequest, Request,
  world_route, Gateway,
}
use helbreath_backend.Gateway.Router.{changed, meanwhile, is_in_world, character_of, send, update}

-- A session that is in the world has an account and a character.
pub record IsSound (s : SessionRuntime) : Type 0 where
  pub account : s.in_world ≡ true → (a : Uuid) × (s.account_id ≡ some a)
  pub character : s.in_world ≡ true → (c : Uuid) × (s.character_id ≡ some c)

-- All that goes to the world but a heartbeat and a logout goes there with a character.
abbrev pub Carries : WorldRouteCommandRequest → Option Uuid → Type 0
Carries WorldRouteCommandRequest.heartbeat o = Unit
Carries WorldRouteCommandRequest.logout o = Unit
Carries r o = (c : Uuid) × (o ≡ some c)

-- `P` holds for the sessions whose requests are excused.
abbrev pub IsCarried : (Uuid → Type 0) → Request → Type 0
IsCarried P (world_route map_id session character request) = Carries request character ⊎ P session
IsCarried P _ = Unit

abbrev Sessions : Type 0
Sessions = Assoc Uuid SessionRuntime

abbrev pub AllSound : Sessions → Type 0
AllSound = All (λ e. IsSound e.1)

pub record IsSafe (P : Uuid → Type 0) (g : Gateway) : Type 0 where
  pub distinct : Distinct g.sessions
  pub sound : AllSound g.sessions
  pub carried : All (IsCarried P) g.requests

pub lookup-IsSound :
    (session : Uuid) (m : Sessions) (s : SessionRuntime)
    → AllSound m
    → lookup session m ≡ some s
    → IsSound s
unfolding lookup
lookup-IsSound session [] s h e = cc
lookup-IsSound session ((k, t) ∷ m) s h e = elim (Bool-cases (k == session)) [
  | inl b ↦ let same : t ≡ s = ground arith in rw (← same) h.0
  | inr b ↦ lookup-IsSound session m s h.1 (rw b at e)
]

pub insert-AllSound :
    (session : Uuid) (s : SessionRuntime) (m : Sessions)
    → IsSound s
    → AllSound m
    → AllSound (insert session s m)
unfolding insert
insert-AllSound session s [] k h = (k, tt)
insert-AllSound session s ((j, t) ∷ m) k h = elim (Bool-cases (j == session)) [
  | inl b ↦ rw b (k, h.1)
  | inr b ↦ rw b (h.0, insert-AllSound session s m k h.1)
]

pub remove-AllSound : (session : Uuid) (m : Sessions) → AllSound m → AllSound (remove session m)
unfolding remove
remove-AllSound session [] h = tt
remove-AllSound session ((j, t) ∷ m) h = elim (Bool-cases (j == session)) [
  | inl b ↦ rw b h.1
  | inr b ↦ rw b (h.0, remove-AllSound session m h.1)
]

-- Out of the world, nothing is asked of a session.
pub out_of_world : (s : SessionRuntime) → s.in_world ≡ false → IsSound s
out_of_world s e = record { account = λ h. absurd (cc (e, h)); character = λ h. absurd (cc (e, h)) }

changed-AllSound : (cs : List Change) (m : Sessions) → AllSound m → AllSound (changed cs m)
unfolding changed
changed-AllSound [] m h = h
changed-AllSound (opened u ip ∷ cs) m h =
    changed-AllSound cs (insert u (new_session ip) m)
      (insert-AllSound u (new_session ip) m (out_of_world _ refl) h)
changed-AllSound (closed u ∷ cs) m h = changed-AllSound cs (remove u m) (remove-AllSound u m h)

module _ (P : Uuid → Type 0) where
  pub send-IsSafe : (r : Request) (g : Gateway) → IsCarried P r → IsSafe P g → IsSafe P (send r g)
  unfolding send
  send-IsSafe r g k h = record {
    distinct = h.distinct;
    sound = h.sound;
    carried = All-append (IsCarried P) g.requests (r ∷ []) h.carried (k, tt);
  }

  pub update-IsSafe :
      (session : Uuid) (f : SessionRuntime → SessionRuntime) (g : Gateway)
      → ((s : SessionRuntime) → lookup session g.sessions ≡ some s → IsSound (f s))
      → IsSafe P g
      → IsSafe P (update session f g)
  unfolding update
  update-IsSafe session f g k h = elim (Option-cases (lookup session g.sessions)) [
    | inl e ↦ rw (e, update) h
    | inr (s, e) ↦
        rw (e, update)
          (record {
            distinct = Distinct-insert session (f s) g.sessions h.distinct;
            sound = insert-AllSound session (f s) g.sessions (k s e) h.sound;
            carried = h.carried;
          })
  ]

  pub remove-IsSafe :
      (session : Uuid) (g : Gateway)
      → IsSafe P g
      → IsSafe P (record g { sessions = remove session g.sessions })
  remove-IsSafe session g h = record {
    distinct = Distinct-remove session g.sessions h.distinct;
    sound = remove-AllSound session g.sessions h.sound;
    carried = h.carried;
  }

  pub meanwhile-IsSafe : (cs : List Change) (g : Gateway) → IsSafe P g → IsSafe P (meanwhile cs g)
  meanwhile-IsSafe cs g h = record {
    distinct = Distinct-changed cs g.sessions h.distinct;
    sound = changed-AllSound cs g.sessions h.sound;
    carried = h.carried;
  }

-- A character of the session of the request.
abbrev HasCharacter : Uuid → Gateway → Type 0
HasCharacter session g = (c : Uuid) × (character_of (lookup session g.sessions) ≡ some c)

pub character-Carries :
    (r : WorldRouteCommandRequest) (o : Option Uuid) → (c : Uuid) × (o ≡ some c) → Carries r o
character-Carries WorldRouteCommandRequest.heartbeat o h = tt
character-Carries WorldRouteCommandRequest.logout o h = tt
character-Carries _ o h = h

pub in_world_character :
    (session : Uuid) (g : Gateway)
    → AllSound g.sessions
    → is_in_world (lookup session g.sessions) ≡ true
    → HasCharacter session g
unfolding is_in_world
in_world_character session g h e = elim (Option-cases (lookup session g.sessions)) [
  | inl n ↦ let z : false ≡ true = rw (n, is_in_world) at e in absurd (cc z)
  | inr (s, n) ↦
      let inside : s.in_world ≡ true = and_left _ _ (rw (n, is_in_world) at e) in
      let (c, k) = (lookup-IsSound session g.sessions s h n).character inside in
      (c, ap character_of n ∙ k)
]
  where
    and_left : (a b : Bool) → (a && b) ≡ true → a ≡ true
    and_left true b e = refl
    and_left false b e = cc
