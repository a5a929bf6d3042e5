-- ===== src/Auth.antt =====
-- crates/auth/src/lib.rs: the check of a login. The crate argon2 is the parameter `Argon2`, and the
-- repository the interface `AccountRepository`.
pub mod RateWindow
pub mod Handlers
pub mod Login
pub mod Logout
pub mod Postgres
pub mod Accounts
mod Examples
use helbreath_backend.Prelude.{
  ℕ, ◌+◌, ◌≡◌, Bool, true, false, not, List, [], ◌∷◌, ◌++◌, Option, none, some, length, drop,
  if◌then◌else◌, Result, ok, err, ◌>>=◌, ok_or,
}
use helbreath_backend.Prelude.Text.{Text, codes, is_prefix}
use helbreath_backend.Prelude.Text.Equal.{eqb_text}
use helbreath_backend.Domain.{Uuid, AccountStatus, active, suspended, banned, Character}
use helbreath_backend.Infrastructure.{AccountAuthRecord, NewCharacterParams}

-- The trait `AccountRepository`, over the state `S` that it works on. A call that writes has the time
-- and the fresh identifier that it takes. What the callers rely on: a session that was opened has
-- the account that it was opened for, and one that was closed has none.
pub record AccountRepository (S : Type 0) : Type 0 where
  pub find_account_for_login : Text → S → Result Text (Option AccountAuthRecord)
  pub upsert_session : ℕ → Uuid → Uuid → Text → Text → ℕ → S → Result Text S
  pub close_session : ℕ → Uuid → S → Result Text S
  pub get_session_account : Uuid → S → Result Text (Option Uuid)
  pub list_characters_for_account : Uuid → S → Result Text (List Character)
  pub create_character : ℕ → Uuid → Uuid → NewCharacterParams → S → Result Text (Character × S)
  pub delete_character : ℕ → Uuid → Uuid → S → Result Text (Bool × S)
  pub bind_session_character : ℕ → Uuid → Uuid → Uuid → S → Result Text (Option Character × S)
  pub account_of_upserted :
      (now : ℕ) (session account : Uuid) (node ip : Text) (expires : ℕ) (s s' : S)
      → upsert_session now session account node ip expires s ≡ ok s'
      → get_session_account session s' ≡ ok (some account)
  pub account_of_closed :
      (now : ℕ) (session : Uuid) (s s' : S)
      → close_session now session s ≡ ok s'
      → get_session_account session s' ≡ ok none

-- `PasswordHash::new` of a stored hash and `verify_password` with it; none if it does not parse.
pub record Argon2 : Type 0 where
  pub verify_password : Text → Text → Option Bool

pub record LoginOutcome : Type 0 where
  pub accepted : Bool
  pub account_id : Option Uuid
  pub reason : Option Text

pub record AuthService : Type 0 where
  pub session_ttl_seconds : ℕ
  pub gateway_node : Text

-- `strip_prefix`
abbrev pub strip_prefix : Text → Text → Option Text
strip_prefix prefix t = if is_prefix prefix t then some (drop (length prefix) t) else none

unfoldable pub password_ok : Argon2 → Text → Text → Result Text Bool
password_ok argon2 stored password = elim (strip_prefix (codes "plain:") stored) [
  | some plain ↦ ok (eqb_text password plain)
  | none ↦ ok_or (argon2.verify_password stored password) (codes "invalid stored password hash")
]

abbrev pub refusal : Option Uuid → Text → LoginOutcome
refusal account reason = record { accepted = false; account_id = account; reason = some reason }

abbrev pub is_active : AccountStatus → Bool
is_active active = true
is_active suspended = false
is_active banned = false

module _ {S : Type 0} (repo : AccountRepository S) (argon2 : Argon2) where
  -- Behind the check of the password.
  unfoldable pub open_session :
      AuthService → ℕ → Uuid → Text → AccountAuthRecord → Bool → S → Result Text (LoginOutcome × S)
  open_session svc now session ip account false s =
      ok (refusal (some account.id) (codes "invalid_credentials"), s)
  open_session svc now session ip account true s = do
    s' ←
        repo.upsert_session now session account.id svc.gateway_node ip
          (now + svc.session_ttl_seconds) s
    ok (record { accepted = true; account_id = some account.id; reason = none }, s')

  -- Behind the look-up of the account.
  unfoldable pub check_account :
      AuthService
      → ℕ
      → Uuid
      → Text
      → Text
      → Option AccountAuthRecord
      → S
      → Result Text (LoginOutcome × S)
  unfolding password_ok open_session
  check_account svc now session password ip none s =
      ok (refusal none (codes "invalid_credentials"), s)
  check_account svc now session password ip (some account) s =
      if is_active account.status
      then (password_ok argon2 account.password_hash password >>= λ good.
          open_session svc now session ip account good s)
      else ok (refusal (some account.id) (codes "account_not_active"), s)

  unfoldable pub validate_credentials :
      AuthService → ℕ → Uuid → Text → Text → Text → S → Result Text (LoginOutcome × S)
  unfolding check_account
  validate_credentials svc now session username password ip s = do
    account ← repo.find_account_for_login username s
    check_account svc now session password ip account s
