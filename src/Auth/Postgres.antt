-- ===== src/Auth/Postgres.antt =====
-- apps/auth-service/src/main.rs with crates/infrastructure/src/lib.rs: the auth service on the
-- repository of the database.
use helbreath_backend.Prelude.{
  ℕ, ◌==◌, ◌≡◌, refl, ap, subst, true, false, List, [], ◌∷◌, ◌++◌, none, some, arith, if◌then◌else◌,
  Result, ok, map_err, map_err-ok, Yields, yields_rules, Bool-cases, inl, inr,
}
use helbreath_backend.Prelude.Text.{Text, codes}
use helbreath_backend.Prelude.Table.{find_first, exists_row, update_where}
use helbreath_backend.Domain.{Uuid}
use helbreath_backend.Infrastructure
use helbreath_backend.Infrastructure.{
  AccountRow, SessionRow, Database, RepoError, slot_limit, database, is_closed,
  parse-character_class_code, parse-status_code, row_to_character, status_code, parse_status,
}
use helbreath_backend.Infrastructure.Accounts
use helbreath_backend.Infrastructure.Accounts.{
  has_session, renewed, opened, is_open_session, account_of, upsert_session, close_session,
  get_session_account,
}
use helbreath_backend.Auth.{AccountRepository}

abbrev pub error_text : RepoError → Text
error_text slot_limit = codes "character slot limit reached for account"
error_text database = codes "error returned from database"

renewed_account :
    (session account : Uuid) (node ip : Text) (expires : ℕ) (rows : List SessionRow)
    → exists_row (has_session session) rows ≡ true
    → account_of (
        find_first
          (is_open_session session)
          (update_where (has_session session) (renewed account node ip expires) rows))
      ≡ some account
unfolding renewed
renewed_account session account node ip expires [] e = absurd (cc e)
renewed_account session account node ip expires (r ∷ rows) e = elim (Bool-cases (r.id == session)) [
  | inl t ↦ ground (arith, t)
  | inr t ↦ ground (arith, t, renewed_account session account node ip expires rows (rw t at e))
]

opened_account :
    (now : ℕ) (session account : Uuid) (node ip : Text) (expires : ℕ) (rows : List SessionRow)
    → exists_row (has_session session) rows ≡ false
    → account_of (
        find_first
          (is_open_session session)
          (rows ++ (opened now session account node ip expires ∷ [])))
      ≡ some account
unfolding opened
opened_account now session account node ip expires [] e = ground arith
opened_account now session account node ip expires (r ∷ rows) e =
    elim (Bool-cases (r.id == session)) [
      | inl t ↦ absurd (cc (rw t at e))
      | inr t ↦
          ground (arith, t, opened_account now session account node ip expires rows (rw t at e))
    ]

closed_account :
    (now : ℕ) (session : Uuid) (rows : List SessionRow)
    → account_of (
        find_first (is_open_session session) (
          update_where
            (has_session session)
            (λ (r : SessionRow). record r { state = Infrastructure.closed; closed_at = some now })
            rows))
      ≡ none
closed_account now session [] = refl
closed_account now session (r ∷ rows) = elim (Bool-cases (r.id == session)) [
  | inl t ↦ ground (arith, t, closed_account now session rows)
  | inr t ↦ ground (arith, t, closed_account now session rows)
]

-- The law of an opened session.
pub upserted_account :
    (now : ℕ) (session account : Uuid) (node ip : Text) (expires : ℕ) (db : Database)
    → Yields
        (λ (d : Database). get_session_account session d ≡ some account)
        (upsert_session now session account node ip expires db)
unfolding upsert_session get_session_account
upserted_account now session account node ip expires db =
    let kept : account_of (
          find_first (is_open_session session) (
            if exists_row (has_session session) db.sessions
            then update_where (has_session session) (renewed account node ip expires) db.sessions
            else db.sessions ++ (opened now session account node ip expires ∷ [])))
        ≡ some account =
      elim (Bool-cases (exists_row (has_session session) db.sessions)) [
        | inl t ↦ rw t (renewed_account session account node ip expires db.sessions t)
        | inr t ↦ rw t (opened_account now session account node ip expires db.sessions t)
      ] in
    search (yields_rules, kept)

-- The law of a closed one.
pub closed_session_account :
    (now : ℕ) (session : Uuid) (db db' : Database)
    → ◌≡◌ {A = Result Text Database} (ok (close_session now session db)) (ok db')
    → get_session_account session db' ≡ none
unfolding get_session_account close_session
closed_session_account now session db db' e =
    let same : close_session now session db ≡ db' = cc e in
    subst (λ (d : Database). account_of (find_first (is_open_session session) d.sessions) ≡ none)
      same (closed_account now session db.sessions)

-- `PgRepository` as an `AccountRepository`.
abbrev pub pg_repository : AccountRepository Database
pg_repository = record {
  find_account_for_login = λ username db. ok (Accounts.find_account_for_login username db);
  upsert_session = λ now session account node ip expires db.
      map_err error_text (upsert_session now session account node ip expires db);
  close_session = λ now session db. ok (close_session now session db);
  get_session_account = λ session db. ok (get_session_account session db);
  list_characters_for_account = λ account db. ok (Accounts.list_characters_for_account account db);
  create_character = λ now fresh account params db.
      map_err error_text (Accounts.create_character now fresh account params db);
  delete_character =
      λ now account character db. ok (Accounts.delete_character now account character db);
  bind_session_character = λ now session account character db.
      ok (Accounts.bind_session_character now session account character db);
  account_of_upserted = λ now session account node ip expires db db' e. ap ok (
      (upserted_account now session account node ip expires db).at db'
        (map_err-ok error_text (upsert_session now session account node ip expires db) db' e));
  account_of_closed = λ now session db db' e. ap ok (closed_session_account now session db db' e);
}
