-- ===== src/Infrastructure/Bound.antt =====
-- crates/infrastructure/src/lib.rs: the characters of the sessions behind any statements.
use helbreath_backend.Prelude.{◌≡◌, false, List, [], ◌∷◌}
use helbreath_backend.Prelude.Table.{exists_row}
use helbreath_backend.Infrastructure.{Database}
use helbreath_backend.Infrastructure.Accounts.{has_session, close_session, picked, create_character}
use helbreath_backend.Infrastructure.Admin.{set_account_status}
use helbreath_backend.Infrastructure.Run.{
  Statement, upsert, close, create, delete, bind, set_status, place, tick, execute, execute_all,
  run_tick, is_expired,
}
use helbreath_backend.Infrastructure.Characters.{or_unchanged-Yields}
use helbreath_backend.Infrastructure.Sessions.{
  AllBound, upsert-AllBound, create_at-AllBound, delete-AllBound, bind-AllBound, place-AllBound,
  closing-AllBound,
}

-- A login opens a session whose identifier is new.
abbrev pub IsFresh : Statement → Database → Type 0
IsFresh (upsert now session account node ip expires) db =
    exists_row (has_session session) db.sessions ≡ false
IsFresh _ db = Unit

abbrev pub IsFreshRun : List Statement → Database → Type 0
IsFreshRun [] db = Unit
IsFreshRun (st ∷ sts) db = IsFresh st db × IsFreshRun sts (execute st db)

execute-AllBound :
    (st : Statement) (db : Database) → IsFresh st db → AllBound db → AllBound (execute st db)
unfolding execute close_session create_character set_account_status run_tick
execute-AllBound (upsert now session account node ip expires) db h v =
    or_unchanged-Yields AllBound db _ v (upsert-AllBound now session account node ip expires db h v)
execute-AllBound (close now session) db h v = closing-AllBound (has_session session) now db v
execute-AllBound (create now id account params) db h v =
    create_at-AllBound now id account params (picked account db) db v
execute-AllBound (delete now account character) db h v = delete-AllBound now account character db v
execute-AllBound (bind now session account character) db h v =
    bind-AllBound now session account character db v
execute-AllBound (set_status now account status) db h v = v
execute-AllBound (place now character map_id x y) db h v =
    or_unchanged-Yields AllBound db _ v (place-AllBound now character map_id x y db v)
execute-AllBound (tick now) db h v = closing-AllBound (is_expired now) now db v

execute_all-AllBound_from :
    (sts : List Statement) (db : Database)
    → IsFreshRun sts db
    → AllBound db
    → AllBound (execute_all sts db)
unfolding execute_all
execute_all-AllBound_from [] db h v = v
execute_all-AllBound_from (st ∷ sts) db h v =
    execute_all-AllBound_from sts (execute st db) h.1 (execute-AllBound st db h.0 v)

-- Whatever statements run on a database without sessions, if every login opens a session whose
-- identifier is new: the character of each session that is not closed is a character of the
-- session's account and is not deleted.
pub execute_all-AllBound :
    (sts : List Statement) (db : Database)
    → db.sessions ≡ []
    → IsFreshRun sts db
    → AllBound (execute_all sts db)
execute_all-AllBound sts db e h = execute_all-AllBound_from sts db h (rw e tt)
