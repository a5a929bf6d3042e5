-- ===== src/MapServer/Examples.antt =====
-- crates/map_server/src/lib.rs: a map instance on concrete commands.
use helbreath_backend.Prelude.{◌+◌, ◌≡◌, refl, inl, none, some, List, [], ◌∷◌, ◌++◌, arith}
use helbreath_backend.Prelude.Int.{pos, negsuc, ◌≤ℤ◌}
use helbreath_backend.Application.{enter_world, attack, npc_interaction}
use helbreath_backend.MapServer.{MapConfig, MapInstance, IncomingCommand, Sent, new_instance}
use helbreath_backend.MapServer.Systems.{skill_damage, system_combat, event_sends}
use helbreath_backend.MapServer.Tick.{tick, run}
use helbreath_backend.MapServer.Players.{IsFit}
use helbreath_backend.MapServer.Invariant.{run-new_instance-IsFit}
use helbreath_backend.MapServer.Damage.{skill_damage_bounds}
use helbreath_backend.MapServer.CombatLog.{IsLogged, system_combat-IsLogged}
use helbreath_backend.MapServer.Schedule.{IsFor, all_events, npc_events}
use helbreath_backend.MapServer.Delivery.{accepted, tick_delivers}
use helbreath_backend.Net.Examples.{sample_crate}

abbrev config : MapConfig
config = record { map_id = pos 1; tick_ms = 50; command_budget = 2 }

abbrev arrivals : List IncomingCommand
arrivals =
    record { session_id = 1; character_id = some 10; command = enter_world }
    ∷ record { session_id = 2; character_id = none; command = enter_world }
    ∷ record { session_id = 1; character_id = some 10; command = attack 2 }
    ∷ record { session_id = 2; character_id = none; command = npc_interaction 5 }
    ∷ []

abbrev waiting : MapInstance
waiting = record (new_instance config) { rx = arrivals }

abbrev fighting : MapInstance
fighting = record (new_instance config) { pending_attacks = (1, 2) ∷ [] }

run-new_instance-IsFit_example :
    IsFit (run sample_crate (arrivals ∷ [] ∷ []) (new_instance config)).players
run-new_instance-IsFit_example = run-new_instance-IsFit sample_crate config (arrivals ∷ [] ∷ [])

tick_delivers_example :
    IsFor
      ((tick sample_crate arrivals waiting).tick_index + 1)
      (tick sample_crate arrivals waiting).scheduled
    × (all_events (tick sample_crate arrivals waiting).scheduled
        ≡ npc_events sample_crate 1 (accepted sample_crate arrivals waiting))
    × ((out : List Sent) × ((tick sample_crate arrivals waiting).sent
          ≡ [] ++ (event_sends (all_events []) ++ out)))
tick_delivers_example = tick_delivers sample_crate arrivals waiting (omega arith) (inl refl)

system_combat-IsLogged_example :
    (out : List Sent) × ((system_combat fighting).sent ≡ [] ++ out) × IsLogged out
system_combat-IsLogged_example = system_combat-IsLogged fighting

skill_damage_bounds_example :
    (pos 10 ≤ℤ skill_damage (negsuc 12)) × (skill_damage (negsuc 12) ≤ℤ pos 16)
skill_damage_bounds_example = skill_damage_bounds (negsuc 12) (omega arith) (λ e. ground (arith, e))
