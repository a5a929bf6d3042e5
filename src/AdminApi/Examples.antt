-- ===== src/AdminApi/Examples.antt =====
-- apps/admin-api/src/main.rs: one administrator on a small database.
use helbreath_backend.Prelude.{◌≡◌, refl, true, none, some, [], ◌∷◌, ◌⊎◌, ok}
use helbreath_backend.Prelude.Int.{pos}
use helbreath_backend.Prelude.Text.{codes}
use helbreath_backend.Prelude.Assoc.{lookup}
use helbreath_backend.Prelude.Table.{exists_row}
use helbreath_backend.Infrastructure.{AccountRow, Database}
use helbreath_backend.Infrastructure.Accounts.{find_account_for_login}
use helbreath_backend.Infrastructure.Admin.{map_exists}
use helbreath_backend.WorldService.Service.{new_service, start_maps}
use helbreath_backend.WorldService.Service.Represents.{Represents, put, no_maps}
use helbreath_backend.WorldService.Service.Active.{run_service, run_spec, run_service-refines}
use helbreath_backend.Auth.{Argon2, AuthService, validate_credentials, refusal}
use helbreath_backend.Auth.Postgres.{pg_repository}
use helbreath_backend.AdminPortal.{AdminPrincipal, super_admin, support}
use helbreath_backend.AdminApi.{Headers, AppState, Settings, extract_bearer_token, login_principal}
use helbreath_backend.AdminApi.Actions.{
  Moment, ModerationActionRequest, block_account, activate_map, moderation_request, needed, act,
  handle,
}
use helbreath_backend.AdminApi.Guard.{IsGranted, IsRefused, handle-IsGranted}
use helbreath_backend.AdminApi.Audit.{act_unaudited}
use helbreath_backend.AdminApi.Bans.{block_account-refused, moderation-login}
use helbreath_backend.AdminApi.Maps.{is_registered, activate_map-IsActive}

abbrev helper : AdminPrincipal
helper = record { admin_user_id = 1; email = codes "s@test"; roles = support ∷ [] }

abbrev account_row : AccountRow
account_row = record {
  id = 5;
  username = codes "u";
  password_hash = codes "plain:p";
  status = codes "active";
  updated_at = 0;
}

abbrev small : Database
small = record {
  accounts = account_row ∷ [];
  sessions = [];
  characters = [];
  maps = record { id = pos 1; default_spawn_x = pos 100; default_spawn_y = pos 100 } ∷ [];
  map_instances = [];
  inventories = [];
  game_events = [];
  combat_logs = [];
  sanctions = [];
  is_inet = λ text. true;
}

abbrev state : AppState
state = record {
  sessions = (codes "t", record { principal = helper; expires_at = 900 }) ∷ [];
  repo = small;
  world = new_service 50 100;
  admin_users = 1 ∷ [];
  audits = [];
}

abbrev at : Moment
at = record { now = 100; minutes_after_now = λ m. some 700; channel = 7; is_reachable = true }

abbrev headers : Headers
headers = some (some (codes "Bearer t"))

handle-IsGranted_example :
    IsGranted 100 headers (needed (block_account 5)) state
    ⊎ IsRefused state (handle at headers (block_account 5) state)
unfolding extract_bearer_token lookup
handle-IsGranted_example = handle-IsGranted at headers (block_account 5) state (refl, tt)

abbrev plain_crate : Argon2
plain_crate = record { verify_password = λ stored password. none }

abbrev service : AuthService
service = record { session_ttl_seconds = 3600; gateway_node = codes "auth-service" }

block_account-refused_example :
    validate_credentials pg_repository plain_crate service 200 11
      (codes "u")
      (codes "p")
      (codes "ip")
      (act at (block_account 5) helper state).1.repo
    ≡ ok (
      refusal (some 5) (codes "account_not_active"),
      (act at (block_account 5) helper state).1.repo,
    )
block_account-refused_example =
    block_account-refused plain_crate service at helper state 200 11 (codes "u") (codes "p")
      (codes "ip") account_row refl

abbrev ban : ModerationActionRequest
ban = record {
  scope = [];
  account_id = some 5;
  character_id = none;
  reason = codes "bot";
  minutes = some (pos 10);
}

moderation-login_example :
    find_account_for_login
      (codes "u")
      (act at (moderation_request (codes "ban") ban) helper state).1.repo
    ≡ find_account_for_login (codes "u") small
moderation-login_example = moderation-login at (codes "ban") ban helper state (codes "u")

abbrev settings : Settings
settings = record {
  bootstrap_admin_email = codes "root@test";
  bootstrap_admin_password = codes "pw";
  admin_session_ttl_seconds = 60;
  verify_password = λ stored password. none;
}

abbrev root : AdminPrincipal
root = record { admin_user_id = 77; email = codes "Root@test"; roles = super_admin ∷ [] }

act_unaudited_example : (act at (block_account 5) root state).1.audits ≡ []
unfolding login_principal
act_unaudited_example =
    act_unaudited settings 77 (codes "Root@test") (codes "pw") root at (block_account 5) state refl
      refl

idle-Represents : Represents no_maps (new_service 50 100)
unfolding run_service run_spec start_maps
idle-Represents = run_service-refines 50 100 7 [] []

activate_map-IsActive_example :
    ((act at (activate_map (pos 1)) helper state).0 ≡ ok tt)
    × Represents (put (pos 1) 7 no_maps) (act at (activate_map (pos 1)) helper state).1.world
    × (exists_row
          (is_registered (pos 1))
          (act at (activate_map (pos 1)) helper state).1.repo.map_instances
        ≡ true)
unfolding map_exists
activate_map-IsActive_example =
    activate_map-IsActive no_maps at (pos 1) helper state idle-Represents refl refl
