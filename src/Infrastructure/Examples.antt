-- ===== src/Infrastructure/Examples.antt =====
-- crates/infrastructure/src/lib.rs: the repository on a small database.
use helbreath_backend.Prelude.{true, ◌≡◌, ◌≤◌, refl, false, List, [], ◌∷◌, arith, err}
use helbreath_backend.Prelude.Int.{pos}
use helbreath_backend.Prelude.Text.{codes}
use helbreath_backend.Prelude.Table.{count_where}
use helbreath_backend.Domain.{mage, CharacterStats}
use helbreath_backend.Infrastructure.{NewCharacterParams, CharacterRow, MapRow, Database, database}
use helbreath_backend.Infrastructure.Accounts.{create_character, delete_character}
use helbreath_backend.Infrastructure.Run.{
  Statement, upsert, create, delete, bind, execute, execute_all,
}
use helbreath_backend.Infrastructure.Characters.{IsKeyed}
use helbreath_backend.Infrastructure.Slots.{belongs, execute_all-slots}
use helbreath_backend.Infrastructure.Freed.{create_character_freed}
use helbreath_backend.Infrastructure.Sessions.{AllBound}
use helbreath_backend.Infrastructure.Bound.{execute_all-AllBound}

abbrev stats : CharacterStats
stats = record {
  strength = pos 10;
  vitality = pos 10;
  dexterity = pos 10;
  intelligence = pos 10;
  magic = pos 10;
  charisma = pos 10;
}

abbrev params : NewCharacterParams
params = record {
  name = codes "ann";
  class = mage;
  gender = pos 0;
  skin_color = pos 0;
  hair_style = pos 0;
  hair_color = pos 0;
  underwear_color = pos 0;
  stats = stats;
}

abbrev start : MapRow
start = record { id = pos 1; default_spawn_x = pos 100; default_spawn_y = pos 100 }

abbrev empty : Database
empty = record {
  accounts =
      record {
        id = 5;
        username = codes "u";
        password_hash = codes "plain:p";
        status = codes "active";
        updated_at = 0;
      }
      ∷ [];
  sessions = [];
  characters = [];
  maps = start ∷ [];
  map_instances = [];
  inventories = [];
  game_events = [];
  combat_logs = [];
  sanctions = [];
  is_inet = λ text. true;
}

abbrev statements : List Statement
statements =
    upsert 1 11 5 (codes "gw") (codes "ip") 100
    ∷ create 2 6 5 params
    ∷ bind 3 11 5 6
    ∷ delete 4 5 6
    ∷ []

execute_all-slots_example :
    IsKeyed (execute_all statements empty).characters
    × (count_where (belongs 5) (execute_all statements empty).characters ≤ 4)
execute_all-slots_example = execute_all-slots statements empty 5 refl

execute_all-AllBound_example : AllBound (execute_all statements empty)
unfolding execute
execute_all-AllBound_example =
    execute_all-AllBound statements empty refl (refl, (tt, (tt, (tt, tt))))

-- The character of the created row.
abbrev first_row : CharacterRow
first_row = record {
  id = 6;
  account_id = 5;
  name = codes "ann";
  slot = 0;
  class_code = codes "mage";
  gender = pos 0;
  skin_color = pos 0;
  hair_style = pos 0;
  hair_color = pos 0;
  underwear_color = pos 0;
  map_id = pos 1;
  pos_x = pos 100;
  pos_y = pos 100;
  level = pos 1;
  exp = pos 0;
  hp = pos 100;
  mp = pos 50;
  sp = pos 50;
  stats = stats;
  is_deleted = false;
  created_at = 2;
  updated_at = 2;
}

abbrev populated : Database
populated = record empty { characters = first_row ∷ [] }

create_character_freed_example :
    create_character 9 7 5
      (record params { name = codes "bob" })
      (delete_character 8 5 6 populated).1
    ≡ err database
create_character_freed_example =
    create_character_freed 8 9 5 6 7 (record params { name = codes "bob" }) populated first_row
      start (refl, omega arith, tt) refl (λ i l. absurd (omega (arith, l))) refl
