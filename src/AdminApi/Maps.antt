-- ===== src/AdminApi/Maps.antt =====
-- apps/admin-api/src/main.rs with apps/world-service/src/main.rs: the activation of a map, in the
-- registry of the database and in the running service.
use helbreath_backend.Prelude.{
  ℕ, ◌≡◌, refl, Bool, true, ◌&&◌, List, [], ◌∷◌, ◌++◌, map, ok, Bool-cases, inl, inr,
}
use helbreath_backend.Prelude.Int.{ℤ, eqb_ℤ, int_eq}
use helbreath_backend.Prelude.Assoc.Laws.{beq_refl}
use helbreath_backend.Prelude.Table.{exists_row, update_where}
use helbreath_backend.Infrastructure.{MapRow, MapInstanceRow, Database}
use helbreath_backend.Infrastructure.Admin
use helbreath_backend.Infrastructure.Admin.{is_running, is_default, restarted, map_exists}
use helbreath_backend.WorldService.Service.{done, in_catalog, world_map_activate, settle}
use helbreath_backend.WorldService.Manager.{activate}
use helbreath_backend.WorldService.Service.Represents.{Active, Represents, put, activate-Represents}
use helbreath_backend.WorldService.Service.Active.{activate-ok}
use helbreath_backend.AdminPortal.{AdminPrincipal}
use helbreath_backend.AdminApi.{AppState}
use helbreath_backend.AdminApi.Actions.{
  Moment, invoke_world_map_control, world_map_control, control_result, register, act, activate_map,
  MapAction,
}

-- The registry has a row of the map that runs.
abbrev pub is_registered : ℤ → MapInstanceRow → Bool
is_registered map_id row = eqb_ℤ row.map_id map_id && is_running row

catalog_has :
    (map_id : ℤ) (maps : List MapRow)
    → exists_row (λ (m : MapRow). eqb_ℤ m.id map_id) maps ≡ true
    → in_catalog map_id (map (λ (m : MapRow). m.id) maps) ≡ true
catalog_has map_id [] e = cc e
catalog_has map_id (m ∷ maps) e = elim (Bool-cases (eqb_ℤ m.id map_id)) [
  | inl t ↦ rw t refl
  | inr t ↦ rw t (catalog_has map_id maps (rw t at e))
]

restarted_runs :
    (now : ℕ) (map_id : ℤ) (r : MapInstanceRow)
    → is_default map_id r ≡ true
    → is_registered map_id (restarted now r) ≡ true
unfolding restarted
restarted_runs now map_id r e = elim (Bool-cases (eqb_ℤ r.map_id map_id)) [
  | inl t ↦ rw t refl
  | inr t ↦ absurd (cc (rw t at e))
]

update_runs :
    (now : ℕ) (map_id : ℤ) (rows : List MapInstanceRow)
    → exists_row (is_default map_id) rows ≡ true
    → exists_row (is_registered map_id) (update_where (is_default map_id) (restarted now) rows)
      ≡ true
update_runs now map_id [] e = absurd (cc e)
update_runs now map_id (r ∷ rows) e = elim (Bool-cases (is_default map_id r)) [
  | inl t ↦ rw (t, restarted_runs now map_id r t) refl
  | inr t ↦
      let rest = update_runs now map_id rows (rw t at e) in
      elim (Bool-cases (is_registered map_id r)) [ inl u ↦ rw (t, u) refl | inr u ↦ rw (t, u) rest ]
]

append_runs :
    (map_id : ℤ) (rows : List MapInstanceRow) (r : MapInstanceRow)
    → is_registered map_id r ≡ true
    → exists_row (is_registered map_id) (rows ++ (r ∷ [])) ≡ true
append_runs map_id [] r e = rw e refl
append_runs map_id (x ∷ rows) r e = elim (Bool-cases (is_registered map_id x)) [
  | inl t ↦ rw t refl
  | inr t ↦ rw t (append_runs map_id rows r e)
]

-- The registry behind an activation of a map of the catalog.
registry_runs :
    (now : ℕ) (map_id : ℤ) (db : Database)
    → map_exists map_id db ≡ true
    → ((Admin.activate_map now map_id db).0 ≡ true)
      × (exists_row (is_registered map_id) (Admin.activate_map now map_id db).1.map_instances
          ≡ true)
unfolding Admin.activate_map
registry_runs now map_id db e =
    elim (Bool-cases (exists_row (is_default map_id) db.map_instances)) [
      | inl t ↦ rw (e, t) (refl, update_runs now map_id db.map_instances t)
      | inr t ↦ rw (e, t) (refl, append_runs map_id db.map_instances _ (rw (beq_refl map_id) refl))
    ]

world_activated :
    (at : Moment) (map_id : ℤ) (s : AppState)
    → map_exists map_id s.repo ≡ true
    → (changed : Bool) × (world_map_control at map_id MapAction.activate s
        ≡ (done changed true, settle (activate true at.channel map_id s.world.map_manager) s.world))
unfolding world_map_control world_map_activate map_exists
world_activated at map_id s e =
    let known = catalog_has map_id s.repo.maps e in
    let answered = activate-ok at.channel map_id s.world.map_manager in
    (answered.0, rw (known, answered.1) refl)

-- An administrator's activation of a map of the catalog, when the world service is reached: it is
-- answered with success, the map is active in the service beside those that were, and the registry
-- has the map as running.
pub activate_map-IsActive :
    (a : Active) (at : Moment) (map_id : ℤ) (principal : AdminPrincipal) (s : AppState)
    → Represents a s.world
    → at.is_reachable ≡ true
    → map_exists map_id s.repo ≡ true
    → ((act at (activate_map map_id) principal s).0 ≡ ok tt)
      × Represents (put map_id at.channel a) (act at (activate_map map_id) principal s).1.world
      × (exists_row
            (is_registered map_id)
            (act at (activate_map map_id) principal s).1.repo.map_instances
          ≡ true)
unfolding act invoke_world_map_control control_result register
activate_map-IsActive a at map_id principal s v up e =
    let w = world_activated at map_id s e in
    let r = registry_runs at.now map_id s.repo e in
    rw (up, w.1, r.0) (refl, activate-Represents a s.world v at.channel map_id, r.1)
