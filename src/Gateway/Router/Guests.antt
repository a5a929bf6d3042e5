-- ===== src/Gateway/Router/Guests.antt =====
-- apps/gateway/src/main.rs: what the router does for a session without an account.
use mathlib.Core.List.{append_assoc, append-nil}
use helbreath_backend.Prelude.{
  ◌≡◌, refl, Bool, true, false, ◌&&◌, List, [], ◌∷◌, ◌++◌, Option, none, some, Bool-cases,
  Option-cases, inl, inr, nat_eq,
}
use helbreath_backend.Prelude.Int.{ℤ}
use helbreath_backend.Prelude.Assoc.{lookup}
use helbreath_backend.Domain.{Uuid}
use helbreath_backend.Application.{
  LoginPayload, ClientCommand, login, character_list, character_create, character_delete,
  character_select, enter_world, heartbeat, logout,
}
use helbreath_backend.Gateway.{
  SessionRuntime, WorldRouteCommandRequest, Request, auth_login, auth_logout, world_route,
  AuthLoginResponse, Answers, Between, Gateway,
}
use helbreath_backend.Gateway.Router.{
  is_authenticated, is_in_world, is_character_selected, character_of, ip_of, resolve_map_id, send,
  update, route_world_command, route_in_world, route_auth_login, logged_in, route_client_command,
  changed, meanwhile, if_authenticated, enter,
}

abbrev world_request : Between → Uuid → Option ℤ → WorldRouteCommandRequest → Gateway → Request
world_request between session hint request g =
    world_route (resolve_map_id (lookup session g.sessions) hint) session
      (character_of (lookup session (changed between.at_request g.sessions))) request

-- The requests for a session without an account.
abbrev pub guest_requests : Between → Uuid → Option ℤ → ClientCommand → Gateway → List Request
guest_requests between session hint (login payload) g =
    auth_login session payload (ip_of (lookup session (changed between.at_request g.sessions))) ∷ []
guest_requests between session hint heartbeat g =
    world_request between session hint WorldRouteCommandRequest.heartbeat g ∷ []
guest_requests between session hint logout g =
    world_request between session hint WorldRouteCommandRequest.logout g ∷ auth_logout session ∷ []
guest_requests between session hint _ g = []

guest_is_out :
    (o : Option SessionRuntime)
    → is_authenticated o ≡ false
    → (is_in_world o ≡ false) × (is_character_selected o ≡ false)
unfolding is_authenticated is_in_world is_character_selected
guest_is_out none e = (refl, refl)
guest_is_out (some s) e = elim (Option-cases s.account_id) [
  | inl n ↦ rw n (and_false s.in_world, and_false _)
  | inr (a, n) ↦ absurd (let z : true ≡ false = rw n at e in cc z)
]
  where
    and_false : (b : Bool) → (b && false) ≡ false
    and_false true = refl
    and_false false = refl

update_requests :
    (session : Uuid) (f : SessionRuntime → SessionRuntime) (g : Gateway)
    → (update session f g).requests ≡ g.requests
unfolding update
update_requests session f g = elim (Option-cases (lookup session g.sessions)) [
  | inl e ↦ rw (e, update) refl
  | inr (s, e) ↦ rw (e, update) refl
]

login_requests :
    (between : Between) (answer : Option AuthLoginResponse) (session : Uuid)
    (payload : LoginPayload) (g : Gateway)
    → (route_auth_login between answer session payload g).requests
      ≡ g.requests
        ++ (auth_login session payload
              (ip_of (lookup session (changed between.at_request g.sessions)))
            ∷ [])
unfolding route_auth_login send
login_requests between none session payload g = refl
login_requests between (some body) session payload g = elim (Bool-cases body.accepted) [
  | inl e ↦ rw e (update_requests session (logged_in body) (meanwhile between.at_write _))
  | inr e ↦ rw e refl
]

-- A session that has no account, or is not known, when the router checks it gets nothing done but a
-- login, a heartbeat and a logout, whatever the services answer and whatever connections open and
-- end meanwhile: every other command makes no request.
pub route_client_command_guest :
    (answers : Answers) (between : Between) (session : Uuid) (hint : Option ℤ) (c : ClientCommand)
    (g : Gateway)
    → is_authenticated (lookup session (changed between.at_check g.sessions)) ≡ false
    → (route_client_command answers between session hint c g).requests
      ≡ g.requests ++ guest_requests between session hint c g
unfolding route_client_command route_in_world if_authenticated enter
route_client_command_guest answers between session hint (login payload) g e =
    login_requests between answers.login session payload g
route_client_command_guest answers between session hint heartbeat g e =
    unfold route_world_command send in refl
route_client_command_guest answers between session hint logout g e =
    unfold route_world_command send in
    append_assoc g.requests
      (world_request between session hint WorldRouteCommandRequest.logout g ∷ [])
      (auth_logout session ∷ [])
route_client_command_guest answers between session hint enter_world g e =
    rw ((guest_is_out _ e).1, append-nil) refl
route_client_command_guest answers between session hint character_list g e = rw (e, append-nil) refl
route_client_command_guest answers between session hint (character_create p) g e =
    rw (e, append-nil) refl
route_client_command_guest answers between session hint (character_delete c) g e =
    rw (e, append-nil) refl
route_client_command_guest answers between session hint (character_select c) g e =
    rw (e, append-nil) refl
route_client_command_guest answers between session hint _ g e =
    rw ((guest_is_out _ e).0, append-nil) refl
