-- ===== src/Domain/Examples.antt =====
-- crates/domain/src/lib.rs: the values on concrete texts and numbers.
use helbreath_backend.Prelude.{◌≡◌, refl, none, ok}
use helbreath_backend.Prelude.Int.{pos}
use helbreath_backend.Prelude.Text.{codes, trim}
use helbreath_backend.Domain.{
  Account, new_account, active, mage, Character, starting_stats, new_character,
}

abbrev account : Account
account = record {
  id = 1;
  username = codes "ann";
  email = none;
  status = active;
  created_at = 7;
  updated_at = 7;
}

new_ann : new_account 1 7 (codes " ann ") none ≡ ok account
unfolding new_account trim
new_ann = refl

abbrev character : Character
character = record {
  id = 2;
  account_id = 1;
  name = codes "Bo";
  class = mage;
  map_id = pos 1;
  x = pos 0;
  y = pos 0;
  level = pos 1;
  exp = pos 0;
  hp = pos 100;
  mp = pos 50;
  sp = pos 50;
  stats = starting_stats;
  created_at = 7;
  updated_at = 7;
}

new_bo : new_character 2 7 1 (codes "Bo ") mage (pos 1) ≡ ok character
unfolding new_character trim
new_bo = refl
