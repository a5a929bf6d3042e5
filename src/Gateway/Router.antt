-- ===== src/Gateway/Router.antt =====
-- apps/gateway/src/main.rs: `run_internal_router` and the functions it calls. The answers of the
-- services are an argument, and so is what the connections do to the table of sessions between two
-- accesses of the router to it.
pub mod Changes
pub mod Safe
pub mod Routed
pub mod Requests
pub mod Guests
use helbreath_backend.Prelude.{
  Bool, true, false, ◌&&◌, List, [], ◌∷◌, ◌++◌, Option, none, some, if◌then◌else◌, nat_eq, ◌==◌,
}
use helbreath_backend.Prelude.Int.{ℤ, pos}
use helbreath_backend.Prelude.Assoc.{Assoc, lookup, insert, remove}
use helbreath_backend.Domain.{Uuid}
use helbreath_backend.Application.{
  LoginPayload, ClientCommand, login, character_list, character_create, character_delete,
  character_select, enter_world, move, attack, cast_skill, pickup_item, drop_item, use_item,
  npc_interaction, chat, whisper, guild_chat, heartbeat, logout, InternalCommand,
  disconnect_session,
}
use helbreath_backend.Gateway.{
  IpAddr, SessionRuntime, new_session, WorldRouteCommandRequest, Request, auth_login, auth_logout,
  auth_character_list, auth_character_create, auth_character_delete, auth_character_select,
  world_route, AuthLoginResponse, AuthCharacterSelectResponse, Answers, Change, opened, closed,
  Between, Gateway,
}

abbrev is_some {ℓ} : {A : Type ℓ} → Option A → Bool
is_some none = false
is_some (some a) = true

unfoldable pub is_authenticated : Option SessionRuntime → Bool
is_authenticated none = false
is_authenticated (some s) = is_some s.account_id

unfoldable pub is_in_world : Option SessionRuntime → Bool
is_in_world none = false
is_in_world (some s) = s.in_world && is_some s.account_id

unfoldable pub is_character_selected : Option SessionRuntime → Bool
is_character_selected none = false
is_character_selected (some s) = is_some s.character_id && is_some s.account_id

-- `get(..).and_then(|s| s.character_id)` and the like, with the address of an unknown session.
abbrev pub character_of : Option SessionRuntime → Option Uuid
character_of none = none
character_of (some s) = s.character_id

abbrev map_of : Option SessionRuntime → ℤ
map_of none = pos 1
map_of (some s) = elim s.map_id [ none ↦ pos 1 | some m ↦ m ]

abbrev pub ip_of : Option SessionRuntime → IpAddr
ip_of none = 0
ip_of (some s) = s.remote_ip

unfoldable pub resolve_map_id : Option SessionRuntime → Option ℤ → ℤ
resolve_map_id s none = map_of s
resolve_map_id s (some map_id) = map_id

unfoldable pub send : Request → Gateway → Gateway
send r g = record g { requests = g.requests ++ (r ∷ []) }

-- `get_mut` of a session, and the assignments to it.
unfoldable pub update : Uuid → (SessionRuntime → SessionRuntime) → Gateway → Gateway
unfolding lookup insert
update session f g = elim (lookup session g.sessions) [
  | none ↦ g
  | some s ↦ record g { sessions = insert session (f s) g.sessions }
]

unfoldable pub changed : List Change → Assoc Uuid SessionRuntime → Assoc Uuid SessionRuntime
unfolding insert remove
changed [] m = m
changed (opened session ip ∷ cs) m = changed cs (insert session (new_session ip) m)
changed (closed session ∷ cs) m = changed cs (remove session m)

abbrev pub meanwhile : List Change → Gateway → Gateway
meanwhile cs g = record g { sessions = changed cs g.sessions }

unfoldable pub route_world_command :
    Between → Uuid → ℤ → WorldRouteCommandRequest → Gateway → Gateway
unfolding send lookup changed
route_world_command between session map_id request g =
    let read = meanwhile between.at_request g in
    send (world_route map_id session (character_of (lookup session read.sessions)) request) read

-- A command of the game, whose branch asks for the session to be in the world.
unfoldable pub route_in_world :
    Between → Uuid → Option ℤ → WorldRouteCommandRequest → Gateway → Gateway
unfolding is_in_world resolve_map_id route_world_command changed
route_in_world between session hint request g =
    let map_id = resolve_map_id (lookup session g.sessions) hint in
    let checked = meanwhile between.at_check g in
    if is_in_world (lookup session checked.sessions)
    then route_world_command between session map_id request checked
    else checked

-- The assignments of an accepted login, of a deletion and of a selection.
unfoldable pub logged_in : AuthLoginResponse → SessionRuntime → SessionRuntime
logged_in body s = record s {
  account_id = body.account_id;
  character_id = none;
  map_id = none;
  in_world = false;
}

unfoldable pub deleted : Uuid → SessionRuntime → SessionRuntime
deleted character s = elim s.character_id [
  | none ↦ s
  | some c ↦
      if c == character
      then record s { character_id = none; map_id = none; in_world = false }
      else s
]

unfoldable pub selected : AuthCharacterSelectResponse → SessionRuntime → SessionRuntime
selected body s = record s {
  character_id = body.character_id;
  map_id = body.map_id;
  in_world = false;
}

unfoldable pub route_auth_login :
    Between → Option AuthLoginResponse → Uuid → LoginPayload → Gateway → Gateway
unfolding send update logged_in changed
route_auth_login between answer session payload g =
    let read = meanwhile between.at_request g in
    let asked = send (auth_login session payload (ip_of (lookup session read.sessions))) read in
    elim answer [
      | none ↦ asked
      | some body ↦
          if body.accepted
          then update session (logged_in body) (meanwhile between.at_write asked)
          else asked
    ]

unfoldable pub route_auth_character_delete : Between → Option Bool → Uuid → Uuid → Gateway → Gateway
unfolding send update deleted changed
route_auth_character_delete between answer session character g =
    let asked = send (auth_character_delete session character) g in
    elim answer [
      | none ↦ asked
      | some is_ok ↦
          if is_ok
          then update session (deleted character) (meanwhile between.at_write asked)
          else asked
    ]

unfoldable pub route_auth_character_select :
    Between → Option AuthCharacterSelectResponse → Uuid → Uuid → Gateway → Gateway
unfolding send update selected changed
route_auth_character_select between answer session character g =
    let asked = send (auth_character_select session character) g in
    elim answer [
      | none ↦ asked
      | some body ↦
          if body.is_ok
          then update session (selected body) (meanwhile between.at_write asked)
          else asked
    ]

-- `is_authenticated`, and what a branch does behind it.
unfoldable pub if_authenticated : Between → Uuid → (Gateway → Gateway) → Gateway → Gateway
unfolding is_authenticated changed
if_authenticated between session then_do g =
    let checked = meanwhile between.at_check g in
    if is_authenticated (lookup session checked.sessions) then then_do checked else checked

unfoldable pub enter : Between → Bool → Uuid → ℤ → Gateway → Gateway
unfolding is_character_selected route_world_command update changed
enter between answer session map_id g =
    let checked = meanwhile between.at_check g in
    if is_character_selected (lookup session checked.sessions)
    then (let asked =
          route_world_command between session map_id WorldRouteCommandRequest.enter_world checked in
        if answer
        then update session (λ s. record s { in_world = true }) (meanwhile between.at_write asked)
        else asked)
    else checked

unfoldable pub route_client_command :
    Answers → Between → Uuid → Option ℤ → ClientCommand → Gateway → Gateway
unfolding if_authenticated route_in_world enter resolve_map_id route_world_command route_auth_login
    route_auth_character_delete route_auth_character_select send update changed
route_client_command answers between session hint (login payload) g =
    route_auth_login between answers.login session payload g
route_client_command answers between session hint character_list g =
    if_authenticated between session (send (auth_character_list session)) g
route_client_command answers between session hint (character_create payload) g =
    if_authenticated between session (send (auth_character_create session payload)) g
route_client_command answers between session hint (character_delete character) g =
    if_authenticated between session
      (route_auth_character_delete between answers.delete session character) g
route_client_command answers between session hint (character_select character) g =
    if_authenticated between session
      (route_auth_character_select between answers.select session character) g
route_client_command answers between session hint enter_world g =
    enter between answers.world session (resolve_map_id (lookup session g.sessions) hint) g
route_client_command answers between session hint heartbeat g =
    route_world_command between session (resolve_map_id (lookup session g.sessions) hint)
      WorldRouteCommandRequest.heartbeat g
route_client_command answers between session hint logout g =
    let asked =
      route_world_command between session (resolve_map_id (lookup session g.sessions) hint)
        WorldRouteCommandRequest.logout g in
    let left = meanwhile between.at_write (send (auth_logout session) asked) in
    record left { sessions = remove session left.sessions }
route_client_command answers between session hint (move x y run) g =
    route_in_world between session hint (WorldRouteCommandRequest.move x y run) g
route_client_command answers between session hint (attack target) g =
    route_in_world between session hint (WorldRouteCommandRequest.attack target) g
route_client_command answers between session hint (cast_skill skill target) g =
    route_in_world between session hint (WorldRouteCommandRequest.cast_skill skill target) g
route_client_command answers between session hint (pickup_item entity) g =
    route_in_world between session hint (WorldRouteCommandRequest.pickup_item entity) g
route_client_command answers between session hint (drop_item slot quantity) g =
    route_in_world between session hint (WorldRouteCommandRequest.drop_item slot quantity) g
route_client_command answers between session hint (use_item slot) g =
    route_in_world between session hint (WorldRouteCommandRequest.use_item slot) g
route_client_command answers between session hint (npc_interaction npc) g =
    route_in_world between session hint (WorldRouteCommandRequest.npc_interaction npc) g
route_client_command answers between session hint (chat message) g =
    route_in_world between session hint (WorldRouteCommandRequest.chat message) g
route_client_command answers between session hint (whisper to message) g =
    route_in_world between session hint (WorldRouteCommandRequest.whisper to message) g
route_client_command answers between session hint (guild_chat message) g =
    route_in_world between session hint (WorldRouteCommandRequest.guild_chat message) g

-- The `match` of `run_internal_router`. A broadcast and a move are only logged.
unfoldable pub route : Answers → Between → InternalCommand → Gateway → Gateway
unfolding route_client_command send remove changed
route answers between (InternalCommand.route_client_command session hint command) g =
    route_client_command answers between session hint command g
route answers between (disconnect_session session reason) g =
    let left = meanwhile between.at_write (send (auth_logout session) g) in
    record left { sessions = remove session left.sessions }
route answers between _ g = g

-- What happens to the sessions: a connection opens or ends (`run_game_tcp`, `handle_session`), or the
-- router takes a command.
pub data Event : Type 0 where
  change : Change → Event
  taken : Answers → Between → InternalCommand → Event

unfoldable pub on_event : Event → Gateway → Gateway
unfolding route changed
on_event (change c) g = meanwhile (c ∷ []) g
on_event (taken answers between command) g = route answers between command g

unfoldable pub run : List Event → Gateway → Gateway
unfolding on_event
run [] g = g
run (e ∷ es) g = run es (on_event e g)
