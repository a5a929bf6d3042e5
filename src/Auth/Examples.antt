-- ===== src/Auth/Examples.antt =====
-- apps/auth-service/src/main.rs: the auth service on a small database.
use helbreath_backend.Prelude.{
  ℕ, ◌+◌, ◌-◌, ◌*◌, ◌/◌, ◌≤◌, ◌≡◌, refl, true, none, some, List, [], ◌∷◌, arith,
}
use helbreath_backend.Prelude.Int.{pos}
use helbreath_backend.Prelude.Text.{Text, codes, trim}
use helbreath_backend.Infrastructure.{Database}
use helbreath_backend.Infrastructure.Accounts.{
  close_session, find_account_for_login, upsert_session,
}
use helbreath_backend.Auth.{Argon2, AuthService}
use helbreath_backend.Auth.RateWindow.{passed, max_attempts, window, passed-le}
use helbreath_backend.Auth.Handlers.{
  LoginRequest, CharacterCreateRequest, AppState, in_time, or_else, login, logout, create_character,
}
use helbreath_backend.Auth.Login.{IsAnswer, login-IsAnswer}
use helbreath_backend.Auth.Logout.{IsShut, logout-IsShut}
use helbreath_backend.Auth.Postgres.{pg_repository}
use helbreath_backend.Auth.Accounts.{IsSummaryOf, create_character-IsSummaryOf}

abbrev address : Text
address = codes "10.0.0.1"

abbrev attempts : List (Text × ℕ)
attempts = (address, 5) ∷ (codes "10.0.0.2", 6) ∷ (address, 7) ∷ []

passed-le_example : passed address attempts [] ≤ max_attempts + max_attempts * ((9 - 5) / window)
passed-le_example =
    passed-le address attempts 5 9 (omega arith, (omega arith, (omega arith, omega arith)))

-- A crate that takes a password as its own hash.
abbrev plain_crate : Argon2
plain_crate = record { verify_password = λ stored password. none }

abbrev service : AuthService
service = record { session_ttl_seconds = 3600; gateway_node = codes "auth-service" }

abbrev small : Database
small = record {
  accounts =
      record {
        id = 5;
        username = codes "u";
        password_hash = codes "plain:p";
        status = codes "active";
        updated_at = 0;
      }
      ∷ [];
  sessions = [];
  characters = [];
  maps = record { id = pos 1; default_spawn_x = pos 100; default_spawn_y = pos 100 } ∷ [];
  map_instances = [];
  inventories = [];
  game_events = [];
  combat_logs = [];
  sanctions = [];
  is_inet = λ text. true;
}

abbrev request : LoginRequest
request = record {
  session_id = some 11;
  username = codes " u";
  password = codes "p";
  remote_ip = some address;
}

abbrev state : AppState Database
state = record { repo = small; rate_limiter = [] }

login-IsAnswer_example :
    IsAnswer pg_repository plain_crate service in_time
      (or_else (some 11) 12)
      (trim (codes " u"))
      (codes "p")
      small
      (login pg_repository plain_crate service in_time 100 5 12 request state).0
      (login pg_repository plain_crate service in_time 100 5 12 request state).1.repo
login-IsAnswer_example =
    login-IsAnswer pg_repository plain_crate service in_time 100 5 12 request state

-- The login is accepted.
accepted_login :
    (login pg_repository plain_crate service in_time 100 5 12 request state).0.accepted ≡ true
unfolding login find_account_for_login upsert_session
accepted_login = refl

abbrev logged_in : Database
logged_in = (login pg_repository plain_crate service in_time 100 5 12 request state).1.repo

logout-IsShut_example : IsShut pg_repository plain_crate 11 (close_session 200 11 logged_in)
unfolding logout
logout-IsShut_example =
    logout-IsShut pg_repository plain_crate in_time 200 11 logged_in
      (close_session 200 11 logged_in) refl

abbrev wanted : CharacterCreateRequest
wanted = record {
  session_id = 11;
  name = codes "ann";
  class = codes "Mage";
  gender = none;
  skin_color = none;
  hair_style = none;
  hair_color = none;
  underwear_color = none;
  stats = none;
}

create_character-IsSummaryOf_example :
    IsSummaryOf wanted
      (create_character pg_repository plain_crate 150 6 wanted logged_in).0.character
create_character-IsSummaryOf_example =
    create_character-IsSummaryOf plain_crate 150 6 wanted logged_in
