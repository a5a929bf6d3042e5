-- ===== src/AdminApi/Actions.antt =====
-- apps/admin-api/src/main.rs: the handlers that act. Each authenticates first, and then runs its body
-- with the administrator. The world service answers over HTTP; whether it is reached is an argument.
use helbreath_backend.Prelude.{
  ℕ, Bool, true, false, [], ◌∷◌, ◌++◌, map, Option, none, some, if◌then◌else◌, Result, ok, err,
  ◌==◌,
}
use helbreath_backend.Prelude.Int.{ℤ, decimal}
use helbreath_backend.Prelude.Text.{Text, codes, trim, is_empty}
use helbreath_backend.Prelude.Table.{exists_row}
use helbreath_backend.Prelude.Text.Equal.{eqb_text}
use helbreath_backend.Domain.{Uuid, AccountStatus, active, banned}
use helbreath_backend.Infrastructure.{Database, MapRow, RepoError}
use helbreath_backend.Infrastructure.Admin
use helbreath_backend.Infrastructure.Admin.{set_account_status, create_sanction}
use helbreath_backend.WorldService.Service.{
  Service, Answer, done, refused, has_players, accepted, world_map_activate, world_map_deactivate,
  world_broadcast,
}
use helbreath_backend.AdminPortal.{
  Permission, AdminPrincipal, accounts_write, accounts_ban, characters_write, characters_disconnect,
  world_write, moderation_write, broadcast_send,
}
use helbreath_backend.AdminApi.{
  ApiError, conflict_409, no_answer, bad_request, internal, Headers, AppState, Target, account,
  character, map_target, world_all, event, moderation, authenticate,
}

-- The time of a call, from the least one that `chrono` has; what `chrono` makes of some minutes after
-- it, none where `Duration::minutes` or the sum panics; a new channel for a map that the call starts;
-- and whether the world service is reached.
pub record Moment : Type 0 where
  pub now : ℕ
  pub minutes_after_now : ℤ → Option ℕ
  pub channel : ℕ
  pub is_reachable : Bool

-- `insert_admin_audit`, which the database refuses, and the handler only logs, if the administrator has
-- no row: `admin_user_id UUID REFERENCES admin_users(id)`.
abbrev pub is_known : AdminPrincipal → AppState → Bool
is_known principal s = exists_row (λ (id : Uuid). id == principal.admin_user_id) s.admin_users

unfoldable pub audit_action : AdminPrincipal → Text → Target → AppState → AppState
audit_action principal action target s = record s {
  audits =
      if is_known principal s
      then s.audits
        ++ (record {
          admin_user_id = principal.admin_user_id;
          action_type = action;
          target = target;
        }
            ∷ [])
      else s.audits;
}

pub data MapAction : Type 0 where
  activate deactivate : MapAction

abbrev action_name : MapAction → Text
action_name activate = codes "activate"
action_name deactivate = codes "deactivate"

-- The `match` on the error of the body.
unfoldable pub control_error : MapAction → Text → ApiError
control_error action reason =
    if eqb_text reason (codes "map_not_found")
    then bad_request (codes "map not found")
    else if eqb_text reason (codes "catalog_unavailable")
    then internal (codes "world map catalog unavailable while validating map")
    else if eqb_text reason (codes "activation_failed")
    then internal (codes "world runtime activation failed")
    else if eqb_text reason (codes "deactivation_failed")
    then internal (codes "world runtime deactivation failed")
    else internal (codes "world map " ++ action_name action ++ codes " failed with unknown error")

unfoldable pub control_result : MapAction → Answer → Result ApiError Bool
unfolding control_error decimal
control_result action (done changed is_active) = ok changed
control_result action (refused reason) = err (control_error action (codes reason))
control_result action (has_players n) = err (record {
  status = conflict_409;
  message =
      codes "cannot "
      ++ action_name action
      ++ codes " map while players are online ("
      ++ decimal n
      ++ codes ")";
})
control_result action accepted = err (control_error action (codes "unknown_error"))

-- The route of the world service for an action. Its catalog is the table of the maps.
unfoldable pub world_map_control : Moment → ℤ → MapAction → AppState → Answer × Service
unfolding world_map_activate world_map_deactivate
world_map_control at map_id activate s =
    world_map_activate (some (map (λ (m : MapRow). m.id) s.repo.maps)) true at.channel map_id
      s.world
world_map_control at map_id deactivate s = world_map_deactivate map_id s.world

unfoldable pub invoke_world_map_control :
    Moment → ℤ → MapAction → AppState → Result ApiError Bool × AppState
unfolding world_map_control control_result
invoke_world_map_control at map_id action s =
    let answered = world_map_control at map_id action s in
    if at.is_reachable
    then (control_result action answered.0, record s { world = answered.1 })
    else (err (internal (codes "world map " ++ action_name action ++ codes " failed")), s)

-- What a handler ends with: an error, or its note.
abbrev pub Reply : Type 0
Reply = Result ApiError (Unit {0}) × AppState

-- `set_account_status`, and the audit.
unfoldable pub set_status : Moment → AccountStatus → Text → Uuid → AdminPrincipal → AppState → Reply
unfolding set_account_status audit_action
set_status at status action id principal s = (
  ok tt,
  audit_action principal action (account id)
      (record s { repo = set_account_status at.now id status s.repo }),
)

abbrev db_error : ApiError
db_error = internal (codes "db error")

-- Behind a statement of the database: its error ends the handler, without an audit.
unfoldable pub committed :
    Result RepoError Database → Text → Target → AdminPrincipal → AppState → Reply
unfolding audit_action
committed (ok db) action target principal s =
    (ok tt, audit_action principal action target (record s { repo = db }))
committed (err e) action target principal s = (err db_error, s)

-- Behind the answer of the world service to an activation: the registry is written, and if it does
-- not know the map the runtime is taken back.
unfoldable pub register :
    Moment → ℤ → Text → Result ApiError Bool × AppState → AdminPrincipal → Reply
unfolding invoke_world_map_control audit_action Admin.activate_map
register at map_id action (err e, s) principal = (err e, s)
register at map_id action (ok changed, s) principal =
    let stored = Admin.activate_map at.now map_id s.repo in
    let s' = record s { repo = stored.1 } in
    if stored.0 then (ok tt, audit_action principal action (map_target map_id) s') else (
      err (bad_request (codes "map not found")),
      (invoke_world_map_control at map_id deactivate s').1,
    )

unfoldable pub unregister : Moment → ℤ → Result ApiError Bool × AppState → AdminPrincipal → Reply
unfolding invoke_world_map_control audit_action Admin.deactivate_map
unregister at map_id (err e, s) principal = (err e, s)
unregister at map_id (ok changed, s) principal =
    let stored = Admin.deactivate_map at.now map_id s.repo in
    let s' = record s { repo = stored.1 } in
    if stored.0
    then (ok tt, audit_action principal (codes "world.map.deactivate") (map_target map_id) s')
    else (
      err (bad_request (codes "map not found")),
      (invoke_world_map_control at map_id activate s').1,
    )

unfoldable pub restart : Moment → ℤ → Result ApiError Bool × AppState → AdminPrincipal → Reply
unfolding invoke_world_map_control register
restart at map_id (err e, s) principal = (err e, s)
restart at map_id (ok changed, s) principal =
    register at map_id (codes "world.map.restart") (invoke_world_map_control at map_id activate s)
      principal

pub record ModerationActionRequest : Type 0 where
  pub scope : Text
  pub account_id : Option Uuid
  pub character_id : Option Uuid
  pub reason : Text
  pub minutes : Option ℤ

abbrev or_option : Option Uuid → Option Uuid → Option Uuid
or_option none o = o
or_option (some id) o = some id

-- `req.minutes.map(|m| starts_at + Duration::minutes(m))`, none where it panics.
abbrev ends_after : Moment → Option ℤ → Option (Option ℕ)
ends_after at none = some none
ends_after at (some m) = elim (at.minutes_after_now m) [ none ↦ none | some t ↦ some (some t) ]

-- A panic ends the handler without an answer.
abbrev panicked : ApiError
panicked = record { status = no_answer; message = [] }

unfoldable pub sanctioned :
    Moment → Text → ModerationActionRequest → Option (Option ℕ) → AdminPrincipal → AppState → Reply
unfolding create_sanction committed
sanctioned at action req none principal s = (err panicked, s)
sanctioned at action req (some ends_at) principal s =
    committed
      (create_sanction
        (record {
          account_id = req.account_id;
          character_id = req.character_id;
          sanction_type = action;
          reason = req.reason;
          starts_at = at.now;
          ends_at = ends_at;
          issued_by_admin_id = some principal.admin_user_id;
        })
        s.repo)
      (codes "moderation." ++ action) (moderation (or_option req.character_id req.account_id))
      principal s

unfoldable pub moderation_action :
    Moment → Text → ModerationActionRequest → AdminPrincipal → AppState → Reply
unfolding sanctioned trim
moderation_action at action req principal s =
    if is_empty (trim req.reason)
    then (err (bad_request (codes "reason is required")), s)
    else sanctioned at action req (ends_after at req.minutes) principal s

unfoldable pub send_broadcast : Moment → Text → AdminPrincipal → AppState → Reply
unfolding world_broadcast audit_action
send_broadcast at message principal s =
    let answered = world_broadcast message s.world in
    if at.is_reachable
    then (
      ok tt,
      audit_action principal (codes "world.broadcast") world_all (record s { world = answered.1 }),
    )
    else (err (internal (codes "world dispatch failed")), s)

pub data AdminRequest : Type 0 where
  block_account unblock_account reset_account_password : Uuid → AdminRequest
  move_character : Uuid → ℤ → ℤ → ℤ → AdminRequest
  disconnect_character : Uuid → AdminRequest
  activate_map deactivate_map restart_map_instance : ℤ → AdminRequest
  broadcast : Text → AdminRequest
  toggle_event : Text → Bool → AdminRequest
  moderation_request : Text → ModerationActionRequest → AdminRequest

-- The permission that each handler asks for.
unfoldable pub needed : AdminRequest → Permission
needed (block_account id) = accounts_ban
needed (unblock_account id) = accounts_ban
needed (reset_account_password id) = accounts_write
needed (move_character id map_id x y) = characters_write
needed (disconnect_character id) = characters_disconnect
needed (activate_map map_id) = world_write
needed (deactivate_map map_id) = world_write
needed (restart_map_instance map_id) = world_write
needed (broadcast message) = broadcast_send
needed (toggle_event code enabled) = world_write
needed (moderation_request action req) = moderation_write

-- What each handler does behind the authentication.
unfoldable pub act : Moment → AdminRequest → AdminPrincipal → AppState → Reply
unfolding set_status committed Admin.move_character audit_action register unregister restart
    invoke_world_map_control send_broadcast moderation_action
act at (block_account id) principal s = set_status at banned (codes "accounts.block") id principal s
act at (unblock_account id) principal s =
    set_status at active (codes "accounts.unblock") id principal s
act at (reset_account_password id) principal s =
    (ok tt, audit_action principal (codes "accounts.password_reset.requested") (account id) s)
act at (move_character id map_id x y) principal s =
    committed (Admin.move_character at.now id map_id x y s.repo) (codes "characters.move")
      (character id) principal s
act at (disconnect_character id) principal s =
    (ok tt, audit_action principal (codes "characters.disconnect") (character id) s)
act at (activate_map map_id) principal s =
    register at map_id (codes "world.map.activate") (invoke_world_map_control at map_id activate s)
      principal
act at (deactivate_map map_id) principal s =
    unregister at map_id (invoke_world_map_control at map_id deactivate s) principal
act at (restart_map_instance map_id) principal s =
    restart at map_id (invoke_world_map_control at map_id deactivate s) principal
act at (broadcast message) principal s = send_broadcast at message principal s
act at (toggle_event code enabled) principal s =
    (ok tt, audit_action principal (codes "world.event.toggle") (event code) s)
act at (moderation_request action req) principal s = moderation_action at action req principal s

unfoldable pub behind : Moment → AdminRequest → Result ApiError AdminPrincipal × AppState → Reply
unfolding act
behind at req (err e, s) = (err e, s)
behind at req (ok principal, s) = act at req principal s

-- `broadcast` refuses an empty message before it authenticates.
abbrev pub is_blank : AdminRequest → Bool
is_blank (broadcast message) = is_empty (trim message)
is_blank _ = false

unfoldable pub handle : Moment → Headers → AdminRequest → AppState → Reply
unfolding authenticate needed behind trim
handle at headers req s =
    if is_blank req
    then (err (bad_request (codes "message cannot be empty")), s)
    else behind at req (authenticate at.now headers (needed req) s)
