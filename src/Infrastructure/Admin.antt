-- ===== src/Infrastructure/Admin.antt =====
-- crates/infrastructure/src/lib.rs: `AdminRepository` of `PgRepository`, as far as it changes the
-- accounts, the characters, the sanctions and the catalog of running maps.
use helbreath_backend.Prelude.{
  ℕ, ◌==◌, Bool, true, false, not, ◌&&◌, List, [], ◌∷◌, ◌++◌, Option, none, some, if◌then◌else◌,
  Result, ok, ◌>>◌, fail_if,
}
use helbreath_backend.Prelude.Int.{ℤ, eqb_ℤ, leb_ℤ}
use helbreath_backend.Prelude.Text.{Text, codes}
use helbreath_backend.Prelude.Text.Equal.{eqb_text}
use helbreath_backend.Prelude.Table.{exists_row, select_where, update_where}
use helbreath_backend.Domain.{Uuid, AccountStatus}
use helbreath_backend.Infrastructure.{
  AccountRow, CharacterRow, MapRow, MapInstanceRow, Database, RepoError, database, status_code,
}

unfoldable pub set_account_status : ℕ → Uuid → AccountStatus → Database → Database
unfolding status_code
set_account_status now account_id status db = record db {
  accounts =
      update_where (λ (r : AccountRow). r.id == account_id)
        (λ (r : AccountRow). record r { status = status_code status; updated_at = now })
        db.accounts;
}

unfoldable pub map_exists : ℤ → Database → Bool
map_exists map_id db = exists_row (λ (m : MapRow). eqb_ℤ m.id map_id) db.maps

unfoldable pub placed : ℕ → ℤ → ℤ → ℤ → CharacterRow → CharacterRow
placed now map_id x y row = record row { map_id = map_id; pos_x = x; pos_y = y; updated_at = now }

-- The update of the row of a character, which the database refuses for a map that is not in `maps`,
-- if there is such a row.
unfoldable pub move_character : ℕ → Uuid → ℤ → ℤ → ℤ → Database → Result RepoError Database
unfolding map_exists placed
move_character now character_id map_id x y db = do
  fail_if
      (exists_row (λ (r : CharacterRow). r.id == character_id) db.characters
        && not (map_exists map_id db))
      database
  ok (record db {
    characters =
        update_where (λ (r : CharacterRow). r.id == character_id) (placed now map_id x y)
          db.characters;
  })

abbrev pub is_running : MapInstanceRow → Bool
is_running row = eqb_text row.status (codes "active") && is_none row.stopped_at
  where
    is_none : Option ℕ → Bool
    is_none none = true
    is_none (some t) = false

-- `SELECT DISTINCT map_id ... ORDER BY map_id`
insert_id : ℤ → List ℤ → List ℤ
insert_id m [] = m ∷ []
insert_id m (k ∷ ks) =
    let later = insert_id m ks in
    if eqb_ℤ m k then k ∷ ks else if leb_ℤ m k then m ∷ k ∷ ks else k ∷ later

unfoldable pub distinct_ids : List MapInstanceRow → List ℤ
unfolding insert_id
distinct_ids [] = []
distinct_ids (row ∷ rows) = insert_id row.map_id (distinct_ids rows)

unfoldable pub list_active_map_ids : Database → List ℤ
unfolding distinct_ids
list_active_map_ids db = distinct_ids (select_where is_running db.map_instances)

-- The key `(map_id, shard_code)` of the default shard.
abbrev pub is_default : ℤ → MapInstanceRow → Bool
is_default map_id row = eqb_ℤ row.map_id map_id && eqb_text row.shard_code (codes "default")

unfoldable pub restarted : ℕ → MapInstanceRow → MapInstanceRow
restarted now row = record row {
  status = codes "active";
  started_at = if eqb_text row.status (codes "active") then row.started_at else now;
  stopped_at = none;
}

unfoldable pub activate_map : ℕ → ℤ → Database → Bool × Database
unfolding map_exists restarted
activate_map now map_id db =
    if map_exists map_id db
    then (
      true,
      if exists_row (is_default map_id) db.map_instances
          then record db {
            map_instances = update_where (is_default map_id) (restarted now) db.map_instances;
          }
          else record db {
            map_instances =
                db.map_instances
                ++ (record {
                  map_id = map_id;
                  shard_code = codes "default";
                  status = codes "active";
                  started_at = now;
                  stopped_at = none;
                }
                    ∷ []);
          },
    )
    else (false, db)

-- `COALESCE(stopped_at, now())`
abbrev coalesce : Option ℕ → ℕ → Option ℕ
coalesce none now = some now
coalesce (some t) now = some t

unfoldable pub stopped : ℕ → MapInstanceRow → MapInstanceRow
stopped now row = record row { status = codes "stopped"; stopped_at = coalesce row.stopped_at now }

abbrev pub is_active_of : ℤ → MapInstanceRow → Bool
is_active_of map_id row = eqb_ℤ row.map_id map_id && eqb_text row.status (codes "active")

unfoldable pub deactivate_map : ℕ → ℤ → Database → Bool × Database
unfolding map_exists stopped
deactivate_map now map_id db =
    if map_exists map_id db
    then (
      true,
      record db {
        map_instances = update_where (is_active_of map_id) (stopped now) db.map_instances;
      },
    )
    else (false, db)

pub record CreateSanctionInput : Type 0 where
  pub account_id : Option Uuid
  pub character_id : Option Uuid
  pub sanction_type : Text
  pub reason : Text
  pub starts_at : ℕ
  pub ends_at : Option ℕ
  pub issued_by_admin_id : Option Uuid

-- A column that may be NULL names a row.
abbrev named {ℓ} : {A : Type ℓ} → (Uuid → A → Bool) → Option Uuid → List A → Bool
named p none rows = true
named p (some id) rows = exists_row (p id) rows

-- The account and the character that the row names exist, or the database refuses.
unfoldable pub create_sanction : CreateSanctionInput → Database → Result RepoError Database
create_sanction input db = do
  fail_if (not (named (λ id (r : AccountRow). r.id == id) input.account_id db.accounts)) database
  fail_if (not (named (λ id (r : CharacterRow). r.id == id) input.character_id db.characters))
      database
  ok (record db {
    sanctions =
        db.sanctions
        ++ (record {
          account_id = input.account_id;
          character_id = input.character_id;
          sanction_type = input.sanction_type;
          reason = input.reason;
          starts_at = input.starts_at;
          ends_at = input.ends_at;
          issued_by_admin_id = input.issued_by_admin_id;
          status = codes "active";
        }
            ∷ []);
  })
