-- ===== src/MapServer/Tick.antt =====
-- crates/map_server/src/lib.rs: `process_tick` and the rounds of `run`.
use helbreath_backend.Prelude.{◌+◌, ◌%◌, ◌^◌, List, [], ◌∷◌, ◌++◌}
use helbreath_backend.Domain.{UuidCrate}
use helbreath_backend.MapServer.{IncomingCommand, MapInstance}
use helbreath_backend.MapServer.Input.{drain_incoming_queue, system_input}
use helbreath_backend.MapServer.Systems.{
  process_scheduled_events, system_movement, system_combat, system_ai, system_aoi, system_inventory,
}

module _ (uuid : UuidCrate) where
  unfoldable pub process_tick : MapInstance → MapInstance
  process_tick m =
      let m1 = process_scheduled_events m in
      let m2 = system_input uuid m1.pending_commands (record m1 { pending_commands = [] }) in
      system_inventory (system_aoi (system_ai (system_combat (system_movement m2))))

  -- One round of `run`, at which `arrived` has come in on the channel since the last.
  unfoldable pub tick : List IncomingCommand → MapInstance → MapInstance
  unfolding process_tick
  tick arrived m =
      let waiting = record m { rx = m.rx ++ arrived; tick_index = (m.tick_index + 1) % 2 ^ 64 } in
      process_tick (drain_incoming_queue waiting)

  unfoldable pub run : List (List IncomingCommand) → MapInstance → MapInstance
  unfolding tick
  run [] m = m
  run (arrived ∷ rest) m = run rest (tick arrived m)
