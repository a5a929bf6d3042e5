-- ===== src/Infrastructure.antt =====
-- crates/infrastructure/src/lib.rs: the repository, whose statements work on the tables of
-- migrations/0001_init.sql. A table is the list of its rows. A statement that the database refuses
-- changes nothing. The time and the fresh identifiers are arguments.
pub mod Accounts
pub mod Admin
pub mod Persist
pub mod Run
pub mod Characters
pub mod Slots
pub mod Freed
pub mod Sessions
pub mod Bound
mod Examples
use helbreath_backend.Prelude.{
  ℕ, ◌+◌, ◌≡◌, refl, Bool, true, false, List, [], ◌∷◌, Option, none, some, if◌then◌else◌, Result,
}
use helbreath_backend.Prelude.Int.{ℤ}
use helbreath_backend.Prelude.Text.{Text, codes}
use helbreath_backend.Prelude.Text.Equal.{eqb_text}
use helbreath_backend.Domain.{
  Uuid, AccountStatus, active, suspended, banned, CharacterClass, warrior, mage, archer,
  CharacterStats, Character,
}
use Prim.Native.String.{String}

pub record AccountAuthRecord : Type 0 where
  pub id : Uuid
  pub username : Text
  pub password_hash : Text
  pub status : AccountStatus

-- The array of the six stats is the record of them, in their order.
pub record NewCharacterParams : Type 0 where
  pub name : Text
  pub class : CharacterClass
  pub gender : ℤ
  pub skin_color : ℤ
  pub hair_style : ℤ
  pub hair_color : ℤ
  pub underwear_color : ℤ
  pub stats : CharacterStats

pub record AccountRow : Type 0 where
  pub id : Uuid
  pub username : Text
  pub password_hash : Text
  pub status : Text
  pub updated_at : ℕ

-- The values that the statements write to `sessions.state`.
pub data StoredState : Type 0 where
  authenticated character_selected closed : StoredState

pub record SessionRow : Type 0 where
  pub id : Uuid
  pub account_id : Option Uuid
  pub character_id : Option Uuid
  pub gateway_node : Text
  pub remote_ip : Text
  pub state : StoredState
  pub issued_at : ℕ
  pub last_seen_at : Option ℕ
  pub expires_at : ℕ
  pub closed_at : Option ℕ

pub record CharacterRow : Type 0 where
  pub id : Uuid
  pub account_id : Uuid
  pub name : Text
  pub slot : ℕ
  pub class_code : Text
  pub gender : ℤ
  pub skin_color : ℤ
  pub hair_style : ℤ
  pub hair_color : ℤ
  pub underwear_color : ℤ
  pub map_id : ℤ
  pub pos_x : ℤ
  pub pos_y : ℤ
  pub level : ℤ
  pub exp : ℤ
  pub hp : ℤ
  pub mp : ℤ
  pub sp : ℤ
  pub stats : CharacterStats
  pub is_deleted : Bool
  pub created_at : ℕ
  pub updated_at : ℕ

pub record MapRow : Type 0 where
  pub id : ℤ
  pub default_spawn_x : ℤ
  pub default_spawn_y : ℤ

pub record MapInstanceRow : Type 0 where
  pub map_id : ℤ
  pub shard_code : Text
  pub status : Text
  pub started_at : ℕ
  pub stopped_at : Option ℕ

pub record InventoryRow : Type 0 where
  pub character_id : Uuid
  pub version : ℕ

-- A row of `game_events`, whose payload is one of three JSON objects.
pub data GameEvent : Type 0 where
  character_position : Uuid → ℤ → ℤ → ℤ → GameEvent
  inventory_change : Uuid → ℤ → Text → GameEvent
  combat_hit : Uuid → ℤ → Uuid → ℤ → GameEvent

pub record CombatLogRow : Type 0 where
  pub attacker_entity_id : Uuid
  pub defender_entity_id : Uuid
  pub damage : ℤ

pub record SanctionRow : Type 0 where
  pub account_id : Option Uuid
  pub character_id : Option Uuid
  pub sanction_type : Text
  pub reason : Text
  pub starts_at : ℕ
  pub ends_at : Option ℕ
  pub issued_by_admin_id : Option Uuid
  pub status : Text

-- The tables, and the texts that PostgreSQL reads as `inet`.
pub record Database : Type 0 where
  pub is_inet : Text → Bool
  pub accounts : List AccountRow
  pub sessions : List SessionRow
  pub characters : List CharacterRow
  pub maps : List MapRow
  pub map_instances : List MapInstanceRow
  pub inventories : List InventoryRow
  pub game_events : List GameEvent
  pub combat_logs : List CombatLogRow
  pub sanctions : List SanctionRow

-- The errors of the repository: the one that it raises itself, and those of the database.
pub data RepoError : Type 0 where
  slot_limit database : RepoError

-- The `match` on `status` of `find_account_for_login`, and the one of `set_account_status`.
unfoldable pub parse_status : Text → AccountStatus
parse_status t =
    if eqb_text t (codes "active")
    then active
    else if eqb_text t (codes "suspended")
    then suspended
    else banned

unfoldable pub status_code : AccountStatus → Text
status_code active = codes "active"
status_code suspended = codes "suspended"
status_code banned = codes "banned"

unfoldable pub parse_character_class : Text → CharacterClass
parse_character_class t =
    if eqb_text t (codes "mage")
    then mage
    else if eqb_text t (codes "archer")
    then archer
    else warrior

unfoldable pub character_class_code : CharacterClass → Text
character_class_code warrior = codes "warrior"
character_class_code mage = codes "mage"
character_class_code archer = codes "archer"

unfoldable pub row_to_character : CharacterRow → Character
unfolding parse_character_class
row_to_character row = record {
  id = row.id;
  account_id = row.account_id;
  name = row.name;
  class = parse_character_class row.class_code;
  map_id = row.map_id;
  x = row.pos_x;
  y = row.pos_y;
  level = row.level;
  exp = row.exp;
  hp = row.hp;
  mp = row.mp;
  sp = row.sp;
  stats = row.stats;
  created_at = row.created_at;
  updated_at = row.updated_at;
}

pub parse-character_class_code :
    (c : CharacterClass) → parse_character_class (character_class_code c) ≡ c
unfolding parse_character_class character_class_code
parse-character_class_code warrior = refl
parse-character_class_code mage = refl
parse-character_class_code archer = refl

pub parse-status_code : (s : AccountStatus) → parse_status (status_code s) ≡ s
unfolding parse_status status_code
parse-status_code active = refl
parse-status_code suspended = refl
parse-status_code banned = refl

abbrev pub is_closed : StoredState → Bool
is_closed closed = true
is_closed _ = false
