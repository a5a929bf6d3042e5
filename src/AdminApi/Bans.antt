-- ===== src/AdminApi/Bans.antt =====
-- apps/admin-api/src/main.rs with crates/auth/src/lib.rs: what a block and a ban come to at a login.
use helbreath_backend.Prelude.{
  Option, none, some, ℕ, ◌≡◌, refl, some, Result, ok, err, Yields, yields_rules, Bool-cases, inl,
  inr,
}
use helbreath_backend.Prelude.Text.{Text, codes, trim, is_empty}
use helbreath_backend.Prelude.Text.Equal.{eqb_text}
use helbreath_backend.Prelude.Table.{find_first}
use helbreath_backend.Domain.{Uuid, banned}
use helbreath_backend.Infrastructure.{AccountRow, Database, RepoError}
use helbreath_backend.Infrastructure.Accounts.{find_account_for_login}
use helbreath_backend.Infrastructure.Admin.{CreateSanctionInput, create_sanction}
use helbreath_backend.Auth.{Argon2, AuthService, validate_credentials, refusal}
use helbreath_backend.Auth.Postgres.{pg_repository}
use helbreath_backend.Auth.Accounts.{set_account_status-refused}
use helbreath_backend.AdminPortal.{AdminPrincipal}
use helbreath_backend.AdminApi.{AppState, Target}
use helbreath_backend.AdminApi.Actions.{
  sanctioned, Moment, ModerationActionRequest, committed, moderation_action, block_account,
  moderation_request, act,
}

-- Behind the block of an account no login with its user name is accepted.
pub block_account-refused :
    (argon2 : Argon2) (svc : AuthService) (at : Moment) (principal : AdminPrincipal) (s : AppState)
    (later : ℕ) (session : Uuid) (username password ip : Text) (r : AccountRow)
    → find_first (λ (r : AccountRow). eqb_text r.username username) s.repo.accounts ≡ some r
    → validate_credentials pg_repository argon2 svc later session username password ip
        (act at (block_account r.id) principal s).1.repo
      ≡ ok (
        refusal (some r.id) (codes "account_not_active"),
        (act at (block_account r.id) principal s).1.repo,
      )
unfolding act
block_account-refused argon2 svc at principal s later session username password ip r e =
    set_account_status-refused argon2 svc at.now later session username password ip banned s.repo r
      e refl

create_sanction-accounts :
    (input : CreateSanctionInput) (db : Database)
    → Yields (λ (d : Database). d.accounts ≡ db.accounts) (create_sanction input db)
unfolding create_sanction
create_sanction-accounts input db = search yields_rules

committed-accounts :
    (r : Result RepoError Database) (action : Text) (target : Target) (principal : AdminPrincipal)
    (s : AppState)
    → Yields (λ (d : Database). d.accounts ≡ s.repo.accounts) r
    → (committed r action target principal s).1.repo.accounts ≡ s.repo.accounts
unfolding committed
committed-accounts (ok db) action target principal s h = h.at db refl
committed-accounts (err e) action target principal s h = refl

sanctioned-accounts :
    (at : Moment) (action : Text) (req : ModerationActionRequest) (ends : Option (Option ℕ))
    (principal : AdminPrincipal) (s : AppState)
    → (sanctioned at action req ends principal s).1.repo.accounts ≡ s.repo.accounts
unfolding sanctioned
sanctioned-accounts at action req none principal s = refl
sanctioned-accounts at action req (some ends_at) principal s =
    committed-accounts _ _ _ principal s (create_sanction-accounts _ s.repo)

-- A moderation, a ban among them, with whatever number of minutes, leaves every account as it is: the
-- look-up that a login starts from finds the same user, password and status as before.
pub moderation-login :
    (at : Moment) (action : Text) (req : ModerationActionRequest) (principal : AdminPrincipal)
    (s : AppState) (username : Text)
    → find_account_for_login username (act at (moderation_request action req) principal s).1.repo
      ≡ find_account_for_login username s.repo
unfolding act moderation_action find_account_for_login
moderation-login at action req principal s username =
    elim (Bool-cases (is_empty (trim req.reason))) [
      | inl t ↦ rw t refl
      | inr t ↦ rw (t, sanctioned-accounts at action req _ principal s) refl
    ]
