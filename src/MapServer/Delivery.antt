-- ===== src/MapServer/Delivery.antt =====
-- crates/map_server/src/lib.rs: the scheduled events over a whole tick.
use mathlib.Core.List.{append_assoc, append-nil}
use helbreath_backend.Prelude.{
  ◌+◌, ◌-◌, ◌%◌, ◌^◌, ◌<◌, ◌≡◌, refl, sym, ap, ◌∙◌, List, [], ◌∷◌, ◌++◌, arith, Bool-cases, inl,
  inr, ◌==◌, subst, take, Option, none, some, nat_eq,
}
use helbreath_backend.Domain.{Uuid, UuidCrate}
use helbreath_backend.Application.{
  ClientCommand, move, chat, whisper, guild_chat, heartbeat, pickup_item, drop_item, use_item,
}
use helbreath_backend.Prelude.Int.{ℤ}
use helbreath_backend.Prelude.Assoc.{lookup}
use helbreath_backend.MapServer.CombatLog.{system_combat-IsLogged}
use helbreath_backend.MapServer.{MapInstance, IncomingCommand, Sent, PlayerState}
use helbreath_backend.MapServer.Input.{
  drain_incoming_queue, next_tick_saturating, system_input, input_command, move_player, push_change,
}
use helbreath_backend.MapServer.Systems.{
  event_sends, process_scheduled_events, system_movement, system_combat, system_ai, system_aoi,
  system_inventory,
}
use helbreath_backend.MapServer.Tick.{process_tick, tick}
use helbreath_backend.MapServer.Invariant.{drain_incoming_queue_lem}
use helbreath_backend.MapServer.Schedule.{
  IsFor, all_events, npc_events, Schedules, system_input_schedule, process_scheduled_events_lem,
}

-- The systems behind the input leave the schedule alone.
systems_schedule :
    (m : MapInstance)
    → (system_inventory (system_aoi (system_ai (system_combat (system_movement m))))).scheduled
      ≡ m.scheduled
unfolding system_inventory system_combat system_movement system_ai system_aoi
systems_schedule m = ground arith

systems_tick :
    (m : MapInstance)
    → (system_inventory (system_aoi (system_ai (system_combat (system_movement m))))).tick_index
      ≡ m.tick_index
unfolding system_inventory system_combat system_movement system_ai system_aoi
systems_tick m = ground arith

-- What is sent is only added to.
abbrev pub Grows : MapInstance → MapInstance → Type 0
Grows m m' = (out : List Sent) × (m'.sent ≡ m.sent ++ out)

Grows-refl : (m : MapInstance) → Grows m m
Grows-refl m = ([], sym (append-nil m.sent))

Grows-trans : (a b c : MapInstance) → Grows a b → Grows b c → Grows a c
Grows-trans a b c (x, e) (y, e') = (x ++ y, e' ∙ ap (λ t. t ++ y) e ∙ append_assoc a.sent x y)

system_ai-Grows : (m : MapInstance) → Grows m (system_ai m)
unfolding system_ai
system_ai-Grows m = elim (Bool-cases (m.tick_index % 100 == 0)) [
  | inl t ↦ rw t (_, refl)
  | inr t ↦ rw t (Grows-refl m)
]

system_aoi-Grows : (m : MapInstance) → Grows m (system_aoi m)
unfolding system_aoi
system_aoi-Grows m = elim (Bool-cases (m.tick_index % 40 == 0)) [
  | inl t ↦ rw t (_, refl)
  | inr t ↦ rw t (Grows-refl m)
]

system_combat-Grows : (m : MapInstance) → Grows m (system_combat m)
system_combat-Grows m = let (out, e, logged) = system_combat-IsLogged m in (out, e)

system_movement-Grows : (m : MapInstance) → Grows m (system_movement m)
unfolding system_movement
system_movement-Grows m = (_, refl)

system_inventory-Grows : (m : MapInstance) → Grows m (system_inventory m)
unfolding system_inventory
system_inventory-Grows m = (_, refl)

systems-Grows :
    (m : MapInstance)
    → Grows m (system_inventory (system_aoi (system_ai (system_combat (system_movement m)))))
systems-Grows m =
    let m1 = system_movement m in
    let m2 = system_combat m1 in
    let m3 = system_ai m2 in
    let m4 = system_aoi m3 in
    Grows-trans m m4 (system_inventory m4)
      (Grows-trans m m3 m4
        (Grows-trans m m2 m3
          (Grows-trans m m1 m2 (system_movement-Grows m) (system_combat-Grows m1))
          (system_ai-Grows m2))
        (system_aoi-Grows m3))
      (system_inventory-Grows m4)

move_player-Grows :
    (o : Option PlayerState) (session : Uuid) (x y : ℤ) (m : MapInstance)
    → Grows m (move_player o session x y m)
unfolding move_player
move_player-Grows none session x y m = Grows-refl m
move_player-Grows (some p) session x y m = (_, refl)

module _ (uuid : UuidCrate) where
  input_command-Grows :
      (session : Uuid) (character : Option Uuid) (c : ClientCommand) (m : MapInstance)
      → Grows m (input_command uuid session character c m)
  unfolding input_command
  input_command-Grows session character (move x y run) m =
      move_player-Grows (lookup session m.players) session x y m
  input_command-Grows session character (chat message) m = (_, refl)
  input_command-Grows session character (whisper to message) m = (_, refl)
  input_command-Grows session character (guild_chat message) m = (_, refl)
  input_command-Grows session character heartbeat m = (_, refl)
  input_command-Grows session character (pickup_item e) m = unfold push_change in Grows-refl m
  input_command-Grows session character (drop_item s q) m = unfold push_change in Grows-refl m
  input_command-Grows session character (use_item s) m = unfold push_change in Grows-refl m
  input_command-Grows session character _ m = Grows-refl m

  system_input-Grows :
      (cs : List IncomingCommand) (m : MapInstance) → Grows m (system_input uuid cs m)
  unfolding system_input
  system_input-Grows [] m = Grows-refl m
  system_input-Grows (c ∷ cs) m =
      let m' = input_command uuid c.session_id c.character_id c.command m in
      Grows-trans m m' (system_input uuid cs m')
        (input_command-Grows c.session_id c.character_id c.command m) (system_input-Grows cs m')

  -- What a tick accepts: what was pending, and its budget of what waits on the channel.
  abbrev pub accepted : List IncomingCommand → MapInstance → List IncomingCommand
  accepted arrived m = m.pending_commands ++ take m.config.command_budget (m.rx ++ arrived)

  -- A tick at `now`, whose due events are scheduled.
  process_tick_delivers :
      (m : MapInstance)
      → IsFor m.tick_index m.scheduled
      → Schedules m.tick_index
          (npc_events uuid m.tick_index m.pending_commands)
          (record m { scheduled = [] })
          (process_tick uuid m)
        × ((out : List Sent) × ((process_tick uuid m).sent
              ≡ m.sent ++ (event_sends (all_events m.scheduled) ++ out)))
  unfolding process_tick process_scheduled_events
  process_tick_delivers m h =
      let m1 = process_scheduled_events m in
      let start = record m1 { pending_commands = [] } in
      let m2 = system_input uuid m1.pending_commands start in
      let due = process_scheduled_events_lem m h in
      let planned = system_input_schedule uuid m1.pending_commands start (inl due.0) in
      let (out, grown) =
        Grows-trans start m2
          (system_inventory (system_aoi (system_ai (system_combat (system_movement m2)))))
          (system_input-Grows m1.pending_commands start) (systems-Grows m2) in
      let settled = systems_schedule m2 in
      (
        (
          systems_tick m2 ∙ planned.0 ∙ refl,
          subst (λ s. IsFor (next_tick_saturating m.tick_index) s) (sym settled) planned.1,
          ap all_events settled
              ∙ planned.2
              ∙ ap (λ s. all_events s ++ npc_events uuid m.tick_index m.pending_commands) due.0,
        ),
        (
          out,
          grown
              ∙ ap (λ t. t ++ out) due.1
              ∙ append_assoc m.sent (event_sends (all_events m.scheduled)) out,
        ),
      )

  -- Let no tick but the next one have events scheduled, and the number of the tick be below
  -- `u64::MAX` - 1. Then the tick, whatever has arrived, sends the events that are scheduled, in their
  -- order, in front of all else; and it schedules for the tick after it an event for each interaction
  -- with an NPC among the commands that it accepts, in their order, and nothing else.
  pub tick_delivers :
      (arrived : List IncomingCommand) (m : MapInstance)
      → m.tick_index + 1 < 2 ^ 64 - 1
      → IsFor (m.tick_index + 1) m.scheduled
      → IsFor ((tick uuid arrived m).tick_index + 1) (tick uuid arrived m).scheduled
        × (all_events (tick uuid arrived m).scheduled
            ≡ npc_events uuid (m.tick_index + 1) (accepted arrived m))
        × ((out : List Sent) × ((tick uuid arrived m).sent
              ≡ m.sent ++ (event_sends (all_events m.scheduled) ++ out)))
  unfolding tick drain_incoming_queue
  tick_delivers arrived m small h =
      let waiting = record m { rx = m.rx ++ arrived; tick_index = (m.tick_index + 1) % 2 ^ 64 } in
      let ready = drain_incoming_queue waiting in
      let same : ready.tick_index ≡ m.tick_index + 1 = omega arith in
      let commands =
        ap (λ (r : MapInstance). r.pending_commands) (drain_incoming_queue_lem waiting) in
      let next : next_tick_saturating ready.tick_index ≡ ready.tick_index + 1 = omega arith in
      let d = process_tick_delivers ready (rw same h) in
      (
        subst (λ t. IsFor t (process_tick uuid ready).scheduled)
            (next ∙ ap (λ t. t + 1) (sym d.0.0)) d.0.1,
        d.0.2
            ∙ ap (λ t. npc_events uuid t ready.pending_commands) same
            ∙ ap (npc_events uuid (m.tick_index + 1)) commands,
        d.1,
      )
