-- ===== src/Infrastructure/Run.antt =====
-- crates/infrastructure/src/lib.rs, apps/jobs-runner/src/main.rs: the statements that change accounts,
-- sessions and characters, one after the other.
use helbreath_backend.Prelude.{
  ℕ, Bool, true, false, ◌&&◌, List, [], ◌∷◌, Option, none, some, ltb, Result, ok, err,
}
use helbreath_backend.Prelude.Int.{ℤ}
use helbreath_backend.Prelude.Text.{Text, codes}
use helbreath_backend.Prelude.Text.Equal.{eqb_text}
use helbreath_backend.Prelude.Table.{update_where, count_where}
use helbreath_backend.Domain.{Uuid, AccountStatus, Character}
use helbreath_backend.Infrastructure.{
  NewCharacterParams, SessionRow, closed, SanctionRow, Database, RepoError,
}
use helbreath_backend.Infrastructure.Accounts.{
  upsert_session, close_session, create_character, delete_character, bind_session_character,
}
use helbreath_backend.Infrastructure.Admin.{set_account_status, move_character}

-- `expires_at < now() AND closed_at IS NULL`
abbrev pub is_expired : ℕ → SessionRow → Bool
is_expired now row = ltb row.expires_at now && is_none row.closed_at
  where
    is_none : Option ℕ → Bool
    is_none none = true
    is_none (some t) = false

-- `ends_at IS NOT NULL AND ends_at < now() AND status='active'`
abbrev pub has_ended : ℕ → SanctionRow → Bool
has_ended now row = before row.ends_at && eqb_text row.status (codes "active")
  where
    before : Option ℕ → Bool
    before none = false
    before (some t) = ltb t now

-- `run_tick` of the jobs runner: the numbers of sessions closed and of sanctions expired.
unfoldable pub run_tick : ℕ → Database → (ℕ × ℕ) × Database
run_tick now db = (
  (count_where (is_expired now) db.sessions, count_where (has_ended now) db.sanctions),
  record db {
    sessions =
        update_where (is_expired now)
          (λ (r : SessionRow). record r { state = closed; closed_at = some now }) db.sessions;
    sanctions =
        update_where (has_ended now) (λ (r : SanctionRow). record r { status = codes "expired" })
          db.sanctions;
  },
)

-- A call of the repository, with the time and the fresh identifier that it takes.
pub data Statement : Type 0 where
  upsert : ℕ → Uuid → Uuid → Text → Text → ℕ → Statement
  close : ℕ → Uuid → Statement
  create : ℕ → Uuid → Uuid → NewCharacterParams → Statement
  delete : ℕ → Uuid → Uuid → Statement
  bind : ℕ → Uuid → Uuid → Uuid → Statement
  set_status : ℕ → Uuid → AccountStatus → Statement
  place : ℕ → Uuid → ℤ → ℤ → ℤ → Statement
  tick : ℕ → Statement

abbrev pub or_unchanged : Database → Result RepoError Database → Database
or_unchanged db (ok db') = db'
or_unchanged db (err e) = db

abbrev pub or_unchanged_of : Database → Result RepoError (Character × Database) → Database
or_unchanged_of db (ok (c, db')) = db'
or_unchanged_of db (err e) = db

unfoldable pub execute : Statement → Database → Database
unfolding upsert_session close_session create_character delete_character bind_session_character
    set_account_status move_character run_tick
execute (upsert now session account node ip expires) db =
    or_unchanged db (upsert_session now session account node ip expires db)
execute (close now session) db = close_session now session db
execute (create now id account params) db =
    or_unchanged_of db (create_character now id account params db)
execute (delete now account character) db = (delete_character now account character db).1
execute (bind now session account character) db =
    (bind_session_character now session account character db).1
execute (set_status now account status) db = set_account_status now account status db
execute (place now character map_id x y) db =
    or_unchanged db (move_character now character map_id x y db)
execute (tick now) db = (run_tick now db).1

unfoldable pub execute_all : List Statement → Database → Database
unfolding execute
execute_all [] db = db
execute_all (st ∷ sts) db = execute_all sts (execute st db)
