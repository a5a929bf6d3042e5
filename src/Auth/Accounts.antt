-- ===== src/Auth/Accounts.antt =====
-- apps/auth-service/src/main.rs with crates/infrastructure/src/lib.rs: what the columns of an account
-- and the request of a new character come to behind the database.
use helbreath_backend.Prelude.{
  ◌++◌, ℕ, ◌==◌, ◌≡◌, refl, ap, false, [], ◌∷◌, Option, none, some, arith, Result, ok, err, map_err,
  Yields, Yields-err, yields_rules,
}
use helbreath_backend.Prelude.Text.{Text, codes, trim}
use helbreath_backend.Prelude.Text.Equal.{eqb_text}
use helbreath_backend.Prelude.Table.{find_first, find_first-update}
use helbreath_backend.Domain.{Uuid, AccountStatus, warrior, Character}
use helbreath_backend.Infrastructure.{
  AccountRow, MapRow, NewCharacterParams, Database, RepoError, parse-character_class_code,
  parse-status_code, row_to_character, status_code,
}
use helbreath_backend.Infrastructure.Accounts
use helbreath_backend.Infrastructure.Accounts.{
  auth_record, map_row, find_account_for_login, insert_character, new_row, create_at, picked,
}
use helbreath_backend.Infrastructure.Admin.{set_account_status}
use helbreath_backend.Auth.{
  Argon2, AuthService, validate_credentials, check_account, is_active, refusal,
}
use helbreath_backend.Auth.Handlers.{
  CharacterCreateRequest, CharacterSummary, parse_class, class_name, params_of, create_for,
  create_character, answer_create, to_character_summary, or_else,
}
use helbreath_backend.Auth.Postgres.{pg_repository, error_text}

found_after :
    (now : ℕ) (username : Text) (status : AccountStatus) (db : Database) (r : AccountRow)
    → find_first (λ (r : AccountRow). eqb_text r.username username) db.accounts ≡ some r
    → find_account_for_login username (set_account_status now r.id status db)
      ≡ some (record {
        id = r.id;
        username = r.username;
        password_hash = r.password_hash;
        status = status;
      })
unfolding find_account_for_login set_account_status map_row auth_record
found_after now username status db r e =
    let moved =
      find_first-update (λ (r : AccountRow). eqb_text r.username username)
        (λ (x : AccountRow). x.id == r.id)
        (λ (x : AccountRow). record x { status = status_code status; updated_at = now }) db.accounts
        r (λ y. refl) e (ground arith) in
    rw (moved, parse-status_code status) refl

-- An account whose status was set to one that is not active: no login with its user name is
-- accepted, with whatever password, and the database stays as it was.
pub set_account_status-refused :
    (argon2 : Argon2) (svc : AuthService) (now later : ℕ) (session : Uuid)
    (username password ip : Text) (status : AccountStatus) (db : Database) (r : AccountRow)
    → find_first (λ (r : AccountRow). eqb_text r.username username) db.accounts ≡ some r
    → is_active status ≡ false
    → validate_credentials pg_repository argon2 svc later session username password ip
        (set_account_status now r.id status db)
      ≡ ok (refusal (some r.id) (codes "account_not_active"), set_account_status now r.id status db)
unfolding validate_credentials check_account
set_account_status-refused argon2 svc now later session username password ip status db r e off =
    rw (found_after now username status db r e, off) refl

-- A character that is created has the class and the name that were asked for.
Matches : NewCharacterParams → Character × Database → Type 0
Matches params made = (made.0.class ≡ params.class) × (made.0.name ≡ params.name)

insert_character-Matches :
    (now : ℕ) (id account : Uuid) (params : NewCharacterParams) (slot : ℕ) (m : MapRow)
    (db : Database)
    → Yields (Matches params) (insert_character (new_row now id account params slot m) db)
unfolding insert_character new_row Matches row_to_character
insert_character-Matches now id account params slot m db =
    let made : (row_to_character (new_row now id account params slot m)).class ≡ params.class =
      parse-character_class_code params.class in
    let both : Matches params (
      row_to_character (new_row now id account params slot m),
      record db { characters = db.characters ++ (new_row now id account params slot m ∷ []) },
    ) =
      (made, refl) in
    search (yields_rules, both)

create_at-Matches :
    (now : ℕ) (id account : Uuid) (params : NewCharacterParams) (o : Option (ℕ × MapRow))
    (db : Database)
    → Yields (Matches params) (create_at now id account params o db)
unfolding create_at
create_at-Matches now id account params none db = Yields-err _
create_at-Matches now id account params (some (slot, m)) db =
    insert_character-Matches now id account params slot m db

-- What the handler answers about the character that it made.
pub IsSummaryOf : CharacterCreateRequest → Option CharacterSummary → Type 0
IsSummaryOf req none = Unit
IsSummaryOf req (some c) =
    (c.class ≡ class_name (or_else (parse_class req.class) warrior)) × (c.name ≡ trim req.name)

answer_create-IsSummaryOf :
    (argon2 : Argon2) (req : CharacterCreateRequest) (db : Database)
    (r : Result RepoError (Character × Database))
    → Yields (Matches (params_of req)) r
    → IsSummaryOf req (answer_create pg_repository argon2 db (map_err error_text r)).0.character
unfolding answer_create IsSummaryOf Matches params_of to_character_summary
answer_create-IsSummaryOf argon2 req db (ok (c, db')) h =
    let m = h.at (c, db') refl in (ap class_name m.0, m.1)
answer_create-IsSummaryOf argon2 req db (err e) h = tt

create_for-IsSummaryOf :
    (argon2 : Argon2) (o : Option Uuid) (now : ℕ) (fresh : Uuid) (req : CharacterCreateRequest)
    (db : Database)
    → IsSummaryOf req (create_for pg_repository argon2 (ok o) now fresh req db).0.character
unfolding create_for IsSummaryOf Accounts.create_character
create_for-IsSummaryOf argon2 none now fresh req db = tt
create_for-IsSummaryOf argon2 (some account) now fresh req db =
    answer_create-IsSummaryOf argon2 req db _
      (create_at-Matches now fresh account (params_of req) (picked account db) db)

-- On the database, a creation answers either with no character or with one that has the trimmed
-- name that was asked for, and the class: a warrior where the text names none.
pub create_character-IsSummaryOf :
    (argon2 : Argon2) (now : ℕ) (fresh : Uuid) (req : CharacterCreateRequest) (db : Database)
    → IsSummaryOf req (create_character pg_repository argon2 now fresh req db).0.character
unfolding create_character
create_character-IsSummaryOf argon2 now fresh req db =
    create_for-IsSummaryOf argon2 _ now fresh req db
