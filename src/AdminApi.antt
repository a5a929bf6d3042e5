-- ===== src/AdminApi.antt =====
-- apps/admin-api/src/main.rs: the sessions of the administrators. The other child modules hold the
-- handlers that act, over the database and the world service together.
pub mod Actions
pub mod Guard
pub mod Maps
pub mod Audit
pub mod Bans
mod Examples
use helbreath_backend.Prelude.{
  ℕ, ◌+◌, ◌≡◌, Bool, true, false, not, ◌&&◌, ◌||◌, List, [], ◌∷◌, ◌++◌, map, Option, none, some,
  ltb, length, drop, if◌then◌else◌, Result, ok, err, ◌>>=◌, ◌>>◌, fail_if, ok_or, map_err,
}
use helbreath_backend.Prelude.Int.{ℤ}
use helbreath_backend.Prelude.Text.{Text, codes, trim, is_empty, is_prefix, to_ascii_lowercase}
use helbreath_backend.Prelude.Text.Equal.{eqb_text, text_eq}
use helbreath_backend.Prelude.Assoc.{Assoc, lookup, insert, remove}
use helbreath_backend.Domain.{Uuid}
use helbreath_backend.Infrastructure.{Database}
use helbreath_backend.WorldService.Service.{Service}
use helbreath_backend.AdminPortal.{
  Role, super_admin, Permission, AdminPrincipal, require_permission,
}

-- The status of an answer, or `no_answer` where a panic of the handler ends the connection.
pub data Status : Type 0 where
  unauthorized_401 forbidden_403 bad_request_400 conflict_409 internal_500 no_answer : Status

pub record ApiError : Type 0 where
  pub status : Status
  pub message : Text

abbrev pub unauthorized : Text → ApiError
unauthorized message = record { status = unauthorized_401; message = message }

abbrev pub forbidden : Text → ApiError
forbidden message = record { status = forbidden_403; message = message }

abbrev pub bad_request : Text → ApiError
bad_request message = record { status = bad_request_400; message = message }

abbrev pub internal : Text → ApiError
internal message = record { status = internal_500; message = message }

pub record AdminSession : Type 0 where
  pub principal : AdminPrincipal
  pub expires_at : ℕ

-- The type of a target with its identifier. A moderation names a character, an account or neither.
pub data Target : Type 0 where
  account character : Uuid → Target
  map_target : ℤ → Target
  world_all : Target
  event : Text → Target
  moderation : Option Uuid → Target

-- What `audit_action` inserts, without the payload and the identifier of the request.
pub record AdminAuditInsert : Type 0 where
  pub admin_user_id : Uuid
  pub action_type : Text
  pub target : Target

-- The sessions, the database, with the identifiers of its administrators and its audit log, and the
-- world service at the other end of HTTP.
pub record AppState : Type 0 where
  pub sessions : Assoc Text AdminSession
  pub repo : Database
  pub world : Service
  pub admin_users : List Uuid
  pub audits : List AdminAuditInsert

-- `headers.get("authorization")`, and its `to_str`.
abbrev pub Headers : Type 0
Headers = Option (Option Text)

-- What is behind "Bearer " or "bearer ".
abbrev pub strip_bearer : Text → Option Text
strip_bearer auth =
    if is_prefix (codes "Bearer ") auth || is_prefix (codes "bearer ") auth
    then some (drop 7 auth)
    else none

unfoldable pub extract_bearer_token : Headers → Result ApiError Text
unfolding trim
extract_bearer_token headers = do
  header ← ok_or headers (unauthorized (codes "missing authorization header"))
  auth ← ok_or header (unauthorized (codes "invalid authorization header"))
  token ← ok_or (strip_bearer auth) (unauthorized (codes "expected Bearer token"))
  fail_if (is_empty (trim token)) (unauthorized (codes "empty bearer token"))
  ok (trim token)

-- `retain(|_, session| session.expires_at > now)`
unfoldable pub retain_live : ℕ → Assoc Text AdminSession → Assoc Text AdminSession
retain_live now [] = []
retain_live now ((token, session) ∷ rest) =
    let kept = retain_live now rest in
    if ltb now session.expires_at then (token, session) ∷ kept else kept

unfoldable pub prune_expired_sessions : ℕ → AppState → AppState
unfolding retain_live
prune_expired_sessions now s = record s { sessions = retain_live now s.sessions }

-- Behind the pruning.
unfoldable pub check_token :
    Headers → Permission → Assoc Text AdminSession → Result ApiError AdminPrincipal
unfolding extract_bearer_token require_permission lookup
check_token headers permission sessions = do
  token ← extract_bearer_token headers
  session ← ok_or (lookup token sessions) (unauthorized (codes "invalid admin token"))
  map_err (λ e. forbidden (codes "forbidden: " ++ e))
      (require_permission session.principal permission)
  ok session.principal

unfoldable pub authenticate :
    ℕ → Headers → Permission → AppState → Result ApiError AdminPrincipal × AppState
unfolding prune_expired_sessions check_token
authenticate now headers permission s =
    let s' = prune_expired_sessions now s in (check_token headers permission s'.sessions, s')

unfoldable pub forget : Result ApiError Text → AppState → Result ApiError (Unit {0}) × AppState
unfolding remove
forget (err e) s = (err e, s)
forget (ok token) s = (ok tt, record s { sessions = remove token s.sessions })

unfoldable pub admin_logout : Headers → AppState → Result ApiError (Unit {0}) × AppState
unfolding extract_bearer_token forget
admin_logout headers s = forget (extract_bearer_token headers) s

-- The settings that a login reads, and the crate argon2: none for a hash that does not parse.
pub record Settings : Type 0 where
  pub bootstrap_admin_email : Text
  pub bootstrap_admin_password : Text
  pub admin_session_ttl_seconds : ℕ
  pub verify_password : Text → Text → Option Bool

pub record AdminAuthRecord : Type 0 where
  pub id : Uuid
  pub email : Text
  pub password_hash : Text
  pub roles : List Role

-- A stored administrator, or the bootstrap one. `record` is what `find_admin_for_login` gives, and
-- `fresh` a new identifier.
unfoldable pub login_principal :
    Settings → Option AdminAuthRecord → Uuid → Text → Text → Result ApiError AdminPrincipal
unfolding trim to_ascii_lowercase
login_principal settings (some stored) fresh email password = do
  good ←
      ok_or (settings.verify_password stored.password_hash password)
        (internal (codes "invalid stored hash"))
  fail_if (not good) (unauthorized (codes "invalid credentials"))
  ok (record { admin_user_id = stored.id; email = stored.email; roles = stored.roles })
login_principal settings none fresh email password = do
  fail_if
      (not (
        eqb_text (to_ascii_lowercase (trim email))
          (to_ascii_lowercase settings.bootstrap_admin_email)
        && eqb_text password settings.bootstrap_admin_password))
      (unauthorized (codes "invalid credentials"))
  ok (record { admin_user_id = fresh; email = email; roles = super_admin ∷ [] })

-- `found` is what the query of the administrators gives, none if it fails, and `token` the text of a
-- new identifier.
unfoldable pub admin_login :
    Settings
    → ℕ
    → Option (Option AdminAuthRecord)
    → Uuid
    → Text
    → Text
    → Text
    → AppState
    → Result ApiError (Text × AppState)
unfolding login_principal trim insert
admin_login settings now found fresh token email password s = do
  fail_if (is_empty (trim email) || is_empty password)
      (bad_request (codes "email/password required"))
  stored ← ok_or found (internal (codes "db error"))
  principal ← login_principal settings stored fresh email password
  ok (
    token,
    record s {
      sessions =
          insert token
            (record {
              principal = principal;
              expires_at = now + settings.admin_session_ttl_seconds;
            })
            s.sessions;
    },
  )
