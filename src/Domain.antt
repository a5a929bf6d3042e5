-- ===== src/Domain.antt =====
-- crates/domain/src/lib.rs: the validated value types. A `Uuid` is its 128-bit number; the fresh
-- ids and times that a constructor draws (`Uuid::new_v4`, `Utc::now`) are its arguments.
pub mod Rules
mod Examples
use helbreath_backend.Prelude.{
  ℕ, ◌≤◌, ◌≡◌, Bool, ◌&&◌, List, [], ◌∷◌, Option, none, some, ltb, if◌then◌else◌, Result, ok, err,
  ◌>>=◌, ◌>>◌, fail_if,
}
use helbreath_backend.Prelude.Int.{ℤ, pos, leb_ℤ, ltb_ℤ}
use helbreath_backend.Prelude.Text.{Text, len, is_empty, trim}
use Prim.Native.String.{String}

abbrev pub Uuid : Type 0
Uuid = ℕ

-- What the sources use of the crate `uuid`: `Uuid::from_bytes`, `Uuid::parse_str` and `Display`. The
-- shortest form that `parse_str` is documented to accept is that of 32 hexadecimal digits.
pub record UuidCrate : Type 0 where
  pub from_bytes : List ℕ → Uuid
  pub parse_str : Text → Option Uuid
  pub to_string : Uuid → Text
  pub parse_str_len : (t : Text) (u : Uuid) → parse_str t ≡ some u → 32 ≤ len t

pub data DomainError : Type 0 where
  empty_field : String → DomainError
  field_too_long : String → ℕ → DomainError
  invalid_stat_value : String → DomainError
  invalid_slot : ℤ → DomainError
  invalid_quantity : ℤ → DomainError

unfoldable pub normalized_text : Text → String → ℕ → Result DomainError Text
normalized_text value field max = do
  let cleaned = trim value
  fail_if (is_empty cleaned) (empty_field field)
  fail_if (ltb max (len cleaned)) (field_too_long field max)
  ok cleaned

pub data AccountStatus : Type 0 where
  active suspended banned : AccountStatus

pub record Account : Type 0 where
  pub id : Uuid
  pub username : Text
  pub email : Option Text
  pub status : AccountStatus
  pub created_at : ℕ
  pub updated_at : ℕ

normalized_email : Option Text → Result DomainError (Option Text)
normalized_email none = ok none
normalized_email (some v) = do email ← normalized_text v "email" 190; ok (some email)

-- `Account::new`
pub new_account : Uuid → ℕ → Text → Option Text → Result DomainError Account
unfolding normalized_email normalized_text
new_account id now username email = do
  username' ← normalized_text username "username" 32
  email' ← normalized_email email
  ok (record {
    id = id;
    username = username';
    email = email';
    status = active;
    created_at = now;
    updated_at = now;
  })

pub data SessionState : Type 0 where
  connecting authenticated in_character_list in_world closed : SessionState

pub data CharacterClass : Type 0 where
  warrior mage archer : CharacterClass

pub record CharacterStats : Type 0 where
  pub strength : ℤ
  pub vitality : ℤ
  pub dexterity : ℤ
  pub intelligence : ℤ
  pub magic : ℤ
  pub charisma : ℤ

-- `(1..=255).contains(&value)`
abbrev stat_ok : ℤ → Bool
stat_ok v = leb_ℤ (pos 1) v && leb_ℤ v (pos 255)

-- The loop over the fields, in their order.
validate_stats_loop : List (String × ℤ) → Result DomainError (Unit {0})
validate_stats_loop [] = ok tt
validate_stats_loop ((field, value) ∷ rest) =
    if stat_ok value then validate_stats_loop rest else err (invalid_stat_value field)

-- `CharacterStats::validate`
pub validate_stats : CharacterStats → Result DomainError (Unit {0})
unfolding validate_stats_loop
validate_stats s = validate_stats_loop (
    ("strength", s.strength)
    ∷ ("vitality", s.vitality)
    ∷ ("dexterity", s.dexterity)
    ∷ ("intelligence", s.intelligence)
    ∷ ("magic", s.magic)
    ∷ ("charisma", s.charisma)
    ∷ [])

pub record Character : Type 0 where
  pub id : Uuid
  pub account_id : Uuid
  pub name : Text
  pub class : CharacterClass
  pub map_id : ℤ
  pub x : ℤ
  pub y : ℤ
  pub level : ℤ
  pub exp : ℤ
  pub hp : ℤ
  pub mp : ℤ
  pub sp : ℤ
  pub stats : CharacterStats
  pub created_at : ℕ
  pub updated_at : ℕ

abbrev starting_stats : CharacterStats
starting_stats = record {
  strength = pos 10;
  vitality = pos 10;
  dexterity = pos 10;
  intelligence = pos 10;
  magic = pos 10;
  charisma = pos 10;
}

-- `Character::new`
pub new_character : Uuid → ℕ → Uuid → Text → CharacterClass → ℤ → Result DomainError Character
unfolding validate_stats normalized_text
new_character id now account_id name class map_id = do
  validate_stats starting_stats
  name' ← normalized_text name "character_name" 16
  ok (record {
    id = id;
    account_id = account_id;
    name = name';
    class = class;
    map_id = map_id;
    x = pos 0;
    y = pos 0;
    level = pos 1;
    exp = pos 0;
    hp = pos 100;
    mp = pos 50;
    sp = pos 50;
    stats = starting_stats;
    created_at = now;
    updated_at = now;
  })

-- `InventorySlot`, without the JSON value `metadata`, which no code of the crate reads.
pub record InventorySlot : Type 0 where
  pub slot : ℤ
  pub item_id : ℤ
  pub quantity : ℤ

-- `InventorySlot::validate`
pub validate_slot : InventorySlot → Result DomainError (Unit {0})
validate_slot s = do
  fail_if (ltb_ℤ s.slot (pos 0)) (invalid_slot s.slot)
  fail_if (leb_ℤ s.quantity (pos 0)) (invalid_quantity s.quantity)
  ok tt
