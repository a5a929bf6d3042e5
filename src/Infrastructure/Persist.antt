-- ===== src/Infrastructure/Persist.antt =====
-- crates/infrastructure/src/lib.rs: the transactions that the maps' events end in, and
-- apps/world-service/src/main.rs: `persist_map_op`, which chooses between them.
use helbreath_backend.Prelude.{
  ℕ, ◌+◌, ◌==◌, not, ◌&&◌, List, [], ◌∷◌, ◌++◌, Result, ok, err, ◌>>=◌, ◌>>◌, fail_if, ◌-◌, ◌^◌,
  leb,
}
use helbreath_backend.Prelude.Int.{ℤ}
use helbreath_backend.Prelude.Text.{Text}
use helbreath_backend.Prelude.Table.{update_where, exists_row}
use helbreath_backend.Domain.{Uuid}
use helbreath_backend.MapServer.{
  PersistOp, save_character_position, save_inventory_change, save_combat_log,
}
use helbreath_backend.Infrastructure.{
  CharacterRow, InventoryRow, GameEvent, character_position, inventory_change, combat_hit, Database,
  RepoError, database,
}
use helbreath_backend.Infrastructure.Admin.{move_character, map_exists}

-- The event names a character and a map that exist, or the database refuses.
unfoldable pub insert_event : Uuid → ℤ → GameEvent → Database → Result RepoError Database
unfolding map_exists
insert_event actor map_id event db = do
  fail_if (not (exists_row (λ (r : CharacterRow). r.id == actor) db.characters)) database
  fail_if (not (map_exists map_id db)) database
  ok (record db { game_events = db.game_events ++ (event ∷ []) })

-- Both statements in one transaction: the update has the effect of `move_character`.
unfoldable pub persist_position_snapshot :
    ℕ → Uuid → ℤ → ℤ → ℤ → Database → Result RepoError Database
unfolding move_character insert_event
persist_position_snapshot now character_id map_id x y db = do
  db' ← move_character now character_id map_id x y db
  insert_event character_id map_id (character_position character_id map_id x y) db'

-- `version` is a BIGINT, whose overflow the database refuses.
unfoldable pub persist_inventory_event : Uuid → ℤ → Text → Database → Result RepoError Database
unfolding insert_event
persist_inventory_event character_id map_id reason db = do
  fail_if
      (exists_row
        (λ (r : InventoryRow). r.character_id == character_id && leb (2 ^ 63 - 1) r.version)
        db.inventories)
      database
  insert_event character_id map_id (inventory_change character_id map_id reason) (record db {
    inventories =
        update_where (λ (r : InventoryRow). r.character_id == character_id)
          (λ (r : InventoryRow). record r { version = r.version + 1 }) db.inventories;
  })

unfoldable pub persist_combat_event : Uuid → Uuid → ℤ → ℤ → Database → Result RepoError Database
unfolding insert_event
persist_combat_event attacker defender map_id damage db =
    insert_event attacker map_id (combat_hit attacker map_id defender damage) (record db {
      combat_logs =
          db.combat_logs
          ++ (record {
            attacker_entity_id = attacker;
            defender_entity_id = defender;
            damage = damage;
          }
              ∷ []);
    })

unfoldable pub persist_map_op : ℕ → PersistOp → Database → Result RepoError Database
unfolding persist_position_snapshot persist_inventory_event persist_combat_event
persist_map_op now (save_character_position character map_id x y) db =
    persist_position_snapshot now character map_id x y db
persist_map_op now (save_inventory_change character map_id reason) db =
    persist_inventory_event character map_id reason db
persist_map_op now (save_combat_log attacker defender map_id damage) db =
    persist_combat_event attacker defender map_id damage db

keep_on_error {ℓ κ} : {E : Type κ} {A : Type ℓ} → A → Result E A → A
keep_on_error a (ok b) = b
keep_on_error a (err e) = a

-- The loop of `persist_task`, whose errors are only counted.
unfoldable pub persist_task : ℕ → List PersistOp → Database → Database
unfolding persist_map_op keep_on_error
persist_task now [] db = db
persist_task now (op ∷ ops) db = persist_task now ops (keep_on_error db (persist_map_op now op db))
