-- ===== src/Infrastructure/Accounts.antt =====
-- crates/infrastructure/src/lib.rs: `AccountRepository` of `PgRepository`.
use helbreath_backend.Prelude.{
  ℕ, ◌==◌, Bool, true, false, not, ◌&&◌, ◌||◌, List, [], ◌∷◌, ◌++◌, map, Option, none, some, ltb,
  leb, if◌then◌else◌, Result, ok, err, ◌>>◌, fail_if, length,
}
use helbreath_backend.Prelude.Int.{pos, eqb_ℤ}
use helbreath_backend.Prelude.Text.{Text}
use helbreath_backend.Prelude.Text.Equal.{eqb_text}
use helbreath_backend.Prelude.Table.{
  find_first, exists_row, select_where, update_where, count_where,
}
use helbreath_backend.Domain.{Uuid, Character}
use helbreath_backend.Infrastructure.{
  AccountAuthRecord, NewCharacterParams, AccountRow, SessionRow, authenticated, character_selected,
  closed, CharacterRow, MapRow, Database, RepoError, slot_limit, database, parse_status,
  character_class_code, row_to_character, is_closed,
}

unfoldable pub auth_record : AccountRow → AccountAuthRecord
unfolding parse_status
auth_record row = record {
  id = row.id;
  username = row.username;
  password_hash = row.password_hash;
  status = parse_status row.status;
}

unfoldable pub map_row {ℓ κ} : {A : Type ℓ} {B : Type κ} → (A → B) → Option A → Option B
map_row f none = none
map_row f (some a) = some (f a)

unfoldable pub find_account_for_login : Text → Database → Option AccountAuthRecord
unfolding auth_record map_row
find_account_for_login username db =
    map_row auth_record (find_first (λ (r : AccountRow). eqb_text r.username username) db.accounts)

abbrev pub has_session : Uuid → SessionRow → Bool
has_session id row = row.id == id

-- The update of a session that is there: `character_id`, `issued_at` and `last_seen_at` stay.
unfoldable pub renewed : Uuid → Text → Text → ℕ → SessionRow → SessionRow
renewed account_id gateway_node remote_ip expires_at row = record row {
  account_id = some account_id;
  gateway_node = gateway_node;
  remote_ip = remote_ip;
  state = authenticated;
  expires_at = expires_at;
  closed_at = none;
}

unfoldable pub opened : ℕ → Uuid → Uuid → Text → Text → ℕ → SessionRow
opened now session_id account_id gateway_node remote_ip expires_at = record {
  id = session_id;
  account_id = some account_id;
  character_id = none;
  gateway_node = gateway_node;
  remote_ip = remote_ip;
  state = authenticated;
  issued_at = now;
  last_seen_at = none;
  expires_at = expires_at;
  closed_at = none;
}

-- The text of the address is an `inet`, that of `gateway_node` has at most 64 characters and the
-- account exists, or the database refuses.
unfoldable pub upsert_session :
    ℕ → Uuid → Uuid → Text → Text → ℕ → Database → Result RepoError Database
unfolding renewed opened
upsert_session now session_id account_id gateway_node remote_ip expires_at db = do
  fail_if (not (db.is_inet remote_ip)) database
  fail_if (ltb 64 (length gateway_node)) database
  fail_if (not (exists_row (λ (r : AccountRow). r.id == account_id) db.accounts)) database
  ok (record db {
    sessions =
        if exists_row (has_session session_id) db.sessions
        then update_where (has_session session_id)
            (renewed account_id gateway_node remote_ip expires_at) db.sessions
        else db.sessions
          ++ (opened now session_id account_id gateway_node remote_ip expires_at ∷ []);
  })

unfoldable pub close_session : ℕ → Uuid → Database → Database
close_session now session_id db = record db {
  sessions =
      update_where (has_session session_id)
        (λ (r : SessionRow). record r { state = closed; closed_at = some now }) db.sessions;
}

-- `id=$1 AND state != 'closed'`
abbrev pub is_open_session : Uuid → SessionRow → Bool
is_open_session session_id row = row.id == session_id && not (is_closed row.state)

abbrev pub account_of : Option SessionRow → Option Uuid
account_of none = none
account_of (some row) = row.account_id

unfoldable pub get_session_account : Uuid → Database → Option Uuid
get_session_account session_id db = account_of (find_first (is_open_session session_id) db.sessions)

-- `account_id=$1 AND is_deleted=false`
abbrev pub is_live_of : Uuid → CharacterRow → Bool
is_live_of account_id row = row.account_id == account_id && not row.is_deleted

-- `ORDER BY slot ASC`
insert_by_slot : CharacterRow → List CharacterRow → List CharacterRow
insert_by_slot row [] = row ∷ []
insert_by_slot row (r ∷ rs) =
    let later = insert_by_slot row rs in if leb row.slot r.slot then row ∷ r ∷ rs else r ∷ later

sort_by_slot : List CharacterRow → List CharacterRow
unfolding insert_by_slot
sort_by_slot [] = []
sort_by_slot (r ∷ rs) = insert_by_slot r (sort_by_slot rs)

unfoldable pub list_characters_for_account : Uuid → Database → List Character
unfolding sort_by_slot row_to_character
list_characters_for_account account_id db =
    map row_to_character (sort_by_slot (select_where (is_live_of account_id) db.characters))

-- The `WHERE NOT EXISTS` of `slot_pick`.
abbrev pub is_free : Uuid → List CharacterRow → ℕ → Bool
is_free account_id rows slot =
    not (exists_row (λ (r : CharacterRow). is_live_of account_id r && r.slot == slot) rows)

-- `generate_series(0, 3)`, in order, the first.
unfoldable pub slot_pick : Uuid → List CharacterRow → Option ℕ
slot_pick account_id rows = find_first (is_free account_id rows) (0 ∷ 1 ∷ 2 ∷ 3 ∷ [])

-- A row that is there and that a unique key of `characters` does not allow beside the new one:
-- `id`, `name`, and `(account_id, slot)`. Deleted rows count.
abbrev pub collides : Uuid → Uuid → Text → ℕ → CharacterRow → Bool
collides id account_id name slot row =
    row.id == id || eqb_text row.name name || (row.account_id == account_id && row.slot == slot)

unfoldable pub new_row : ℕ → Uuid → Uuid → NewCharacterParams → ℕ → MapRow → CharacterRow
unfolding character_class_code
new_row now id account_id params slot m = record {
  id = id;
  account_id = account_id;
  name = params.name;
  slot = slot;
  class_code = character_class_code params.class;
  gender = params.gender;
  skin_color = params.skin_color;
  hair_style = params.hair_style;
  hair_color = params.hair_color;
  underwear_color = params.underwear_color;
  map_id = m.id;
  pos_x = m.default_spawn_x;
  pos_y = m.default_spawn_y;
  level = pos 1;
  exp = pos 0;
  hp = pos 100;
  mp = pos 50;
  sp = pos 50;
  stats = params.stats;
  is_deleted = false;
  created_at = now;
  updated_at = now;
}

-- `FROM slot_pick JOIN maps m ON m.id = 1`
abbrev pub joined : Option ℕ → Option MapRow → Option (ℕ × MapRow)
joined (some slot) (some m) = some (slot, m)
joined none m = none
joined (some slot) none = none

unfoldable pub picked : Uuid → Database → Option (ℕ × MapRow)
unfolding slot_pick
picked account_id db =
    joined (slot_pick account_id db.characters)
      (find_first (λ (m : MapRow). eqb_ℤ m.id (pos 1)) db.maps)

-- What the database checks of the new row: its keys, the account that it names and the 16
-- characters of a name.
unfoldable pub insert_character : CharacterRow → Database → Result RepoError (Character × Database)
unfolding row_to_character
insert_character row db = do
  fail_if (ltb 16 (length row.name)) database
  fail_if (not (exists_row (λ (r : AccountRow). r.id == row.account_id) db.accounts)) database
  fail_if (exists_row (collides row.id row.account_id row.name row.slot) db.characters) database
  ok (row_to_character row, record db { characters = db.characters ++ (row ∷ []) })

-- No row is picked if no slot is free or there is no map 1.
unfoldable pub create_at :
    ℕ
    → Uuid
    → Uuid
    → NewCharacterParams
    → Option (ℕ × MapRow)
    → Database
    → Result RepoError (Character × Database)
unfolding new_row insert_character
create_at now id account_id params none db = err slot_limit
create_at now id account_id params (some (slot, m)) db =
    insert_character (new_row now id account_id params slot m) db

unfoldable pub create_character :
    ℕ → Uuid → Uuid → NewCharacterParams → Database → Result RepoError (Character × Database)
unfolding picked create_at
create_character now id account_id params db =
    create_at now id account_id params (picked account_id db) db

-- `id=$1 AND account_id=$2 AND is_deleted=false`
abbrev pub is_character : Uuid → Uuid → CharacterRow → Bool
is_character account_id character_id row = row.id == character_id && is_live_of account_id row

-- A column that may be NULL.
abbrev pub eqb_some : Option Uuid → Uuid → Bool
eqb_some none id = false
eqb_some (some a) id = a == id

abbrev pub is_bound : Uuid → Uuid → SessionRow → Bool
is_bound account_id character_id row =
    eqb_some row.account_id account_id
    && eqb_some row.character_id character_id
    && not (is_closed row.state)

unfoldable pub mark_deleted : ℕ → CharacterRow → CharacterRow
mark_deleted now row = record row { is_deleted = true; updated_at = now }

unfoldable pub unbind : SessionRow → SessionRow
unbind row = record row { character_id = none }

-- The second statement runs if the first changed a row; its errors are dropped.
unfoldable pub delete_character : ℕ → Uuid → Uuid → Database → Bool × Database
unfolding mark_deleted unbind
delete_character now account_id character_id db =
    let rows = count_where (is_character account_id character_id) db.characters in
    (
      ltb 0 rows,
      record db {
        characters =
            update_where (is_character account_id character_id) (mark_deleted now) db.characters;
        sessions =
            if ltb 0 rows
            then update_where (is_bound account_id character_id) unbind db.sessions
            else db.sessions;
      },
    )

unfoldable pub load_character : Uuid → Uuid → Database → Option Character
unfolding map_row row_to_character
load_character account_id character_id db =
    map_row row_to_character (find_first (is_character account_id character_id) db.characters)

-- `id=$1 AND account_id=$2 AND state != 'closed'`
abbrev pub is_session_of : Uuid → Uuid → SessionRow → Bool
is_session_of session_id account_id row =
    is_open_session session_id row && eqb_some row.account_id account_id

unfoldable pub select_bound : ℕ → Uuid → SessionRow → SessionRow
select_bound now character_id row = record row {
  character_id = some character_id;
  state = character_selected;
  last_seen_at = some now;
}

-- Behind the character that was loaded.
unfoldable pub bind_loaded :
    ℕ → Uuid → Uuid → Uuid → Option Character → Database → Option Character × Database
unfolding select_bound
bind_loaded now session_id account_id character_id none db = (none, db)
bind_loaded now session_id account_id character_id (some character) db = (
  if count_where (is_session_of session_id account_id) db.sessions == 0
      then none
      else some character,
  record db {
    sessions =
        update_where (is_session_of session_id account_id) (select_bound now character_id)
          db.sessions;
  },
)

unfoldable pub bind_session_character :
    ℕ → Uuid → Uuid → Uuid → Database → Option Character × Database
unfolding load_character bind_loaded
bind_session_character now session_id account_id character_id db =
    bind_loaded now session_id account_id character_id (load_character account_id character_id db)
      db
