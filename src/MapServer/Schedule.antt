-- ===== src/MapServer/Schedule.antt =====
-- crates/map_server/src/lib.rs: the events that a tick schedules for the next one.
use mathlib.Core.List.{append_assoc, append-nil}
use helbreath_backend.Prelude.{
  ℕ, ◌≡◌, refl, sym, ap, ◌∙◌, ◌⊎◌, List, [], ◌∷◌, ◌++◌, Option, none, some, arith, inl, inr, nat_eq,
}
use helbreath_backend.Prelude.Int.{ℤ}
use helbreath_backend.Prelude.Text.{codes}
use helbreath_backend.Prelude.Assoc.{Assoc, lookup, insert, remove}
use helbreath_backend.Prelude.Assoc.Laws.{beq_refl}
use helbreath_backend.Domain.{Uuid, UuidCrate}
use helbreath_backend.Application.{ClientCommand, move, npc_interaction}
use helbreath_backend.MapServer.{
  MapInstance, IncomingCommand, OutboundEvent, text, ScheduledEvent, PlayerState,
}
use helbreath_backend.MapServer.Input.{
  events_at, schedule, next_tick_saturating, move_player, input_command, system_input,
}
use helbreath_backend.MapServer.Systems.{event_sends, due_events, process_scheduled_events}

abbrev pub Scheduled : Type 0
Scheduled = Assoc ℕ (List ScheduledEvent)

-- Everything that is scheduled is scheduled for one tick.
abbrev pub IsFor : ℕ → Scheduled → Type 0
IsFor tick s = (s ≡ []) ⊎ ((events : List ScheduledEvent) × (s ≡ (tick, events) ∷ []))

-- All the events, in their order.
abbrev pub all_events : Scheduled → List ScheduledEvent
all_events [] = []
all_events ((tick, events) ∷ rest) = events ++ all_events rest

events_at_self :
    (tick : ℕ) (events : List ScheduledEvent) → events_at tick ((tick, events) ∷ []) ≡ events
unfolding events_at lookup
events_at_self tick events = ground (arith, beq_refl tick)

schedule_nil :
    (tick : ℕ) (event : OutboundEvent)
    → schedule tick event [] ≡ (tick, record { run_at_tick = tick; event = event } ∷ []) ∷ []
unfolding schedule events_at lookup insert
schedule_nil tick event = refl

schedule_one :
    (tick : ℕ) (event : OutboundEvent) (events : List ScheduledEvent)
    → schedule tick event ((tick, events) ∷ [])
      ≡ (tick, events ++ (record { run_at_tick = tick; event = event } ∷ [])) ∷ []
unfolding schedule insert
schedule_one tick event events = rw (events_at_self tick events, beq_refl tick) refl

schedule-IsFor :
    (tick : ℕ) (event : OutboundEvent) (s : Scheduled)
    → IsFor tick s
    → IsFor tick (schedule tick event s)
      × (all_events (schedule tick event s)
          ≡ all_events s ++ (record { run_at_tick = tick; event = event } ∷ []))
schedule-IsFor tick event s (inl e) = rw (e, schedule_nil tick event) (inr (_, refl), refl)
schedule-IsFor tick event s (inr (events, e)) =
    rw (e, schedule_one tick event events)
      (inr (_, refl), append-nil _ ∙ ap (λ t. t ++ new) (sym (append-nil events)))
  where
    new : List ScheduledEvent
    new = record { run_at_tick = tick; event = event } ∷ []

-- The due events go out, in their order, in front of all else that the tick sends, and nothing stays.
pub process_scheduled_events_lem :
    (m : MapInstance)
    → IsFor m.tick_index m.scheduled
    → ((process_scheduled_events m).scheduled ≡ [])
      × ((process_scheduled_events m).sent ≡ m.sent ++ event_sends (all_events m.scheduled))
unfolding process_scheduled_events due_events event_sends lookup remove
process_scheduled_events_lem m (inl e) = rw e (refl, refl)
process_scheduled_events_lem m (inr (events, e)) =
    rw e (rw (beq_refl m.tick_index) (refl, rw append-nil))

-- What a command leaves in the schedule, and that it leaves the tick alone.
abbrev pub Schedules : ℕ → List ScheduledEvent → MapInstance → MapInstance → Type 0
Schedules tick events m m' =
    (m'.tick_index ≡ tick)
    × IsFor (next_tick_saturating tick) m'.scheduled
    × (all_events m'.scheduled ≡ all_events m.scheduled ++ events)

module _ (uuid : UuidCrate) where
  -- What a command schedules at a tick.
  abbrev pub npc_event : ℕ → Uuid → ClientCommand → List ScheduledEvent
  npc_event tick session (npc_interaction npc) =
      record {
        run_at_tick = next_tick_saturating tick;
        event = text session (codes "npc_interaction:" ++ uuid.to_string npc);
      }
      ∷ []
  npc_event tick session _ = []

  abbrev pub npc_events : ℕ → List IncomingCommand → List ScheduledEvent
  npc_events tick [] = []
  npc_events tick (c ∷ cs) = npc_event tick c.session_id c.command ++ npc_events tick cs

  move_player_schedule :
      (o : Option PlayerState) (session : Uuid) (x y : ℤ) (m : MapInstance)
      → ((move_player o session x y m).tick_index ≡ m.tick_index)
        × ((move_player o session x y m).scheduled ≡ m.scheduled)
  unfolding move_player
  move_player_schedule none session x y m = (refl, refl)
  move_player_schedule (some p) session x y m = (refl, refl)

  input_command_schedule :
      (session : Uuid) (character : Option Uuid) (c : ClientCommand) (m : MapInstance)
      → IsFor (next_tick_saturating m.tick_index) m.scheduled
      → Schedules m.tick_index
          (npc_event m.tick_index session c)
          m
          (input_command uuid session character c m)
  unfolding input_command
  input_command_schedule session character (npc_interaction npc) m h =
      let s =
        schedule-IsFor (next_tick_saturating m.tick_index)
          (text session (codes "npc_interaction:" ++ uuid.to_string npc)) m.scheduled h in
      (refl, s.0, s.1)
  input_command_schedule session character (move x y run) m h =
      let k = move_player_schedule (lookup session m.players) session x y m in
      (k.0, rw k.1 h, rw (k.1, append-nil))
  input_command_schedule session character _ m h = (refl, h, rw append-nil)

  -- The input schedules, for the next tick, an event for each interaction with an NPC, in the order of
  -- the commands, behind what was scheduled.
  pub system_input_schedule :
      (cs : List IncomingCommand) (m : MapInstance)
      → IsFor (next_tick_saturating m.tick_index) m.scheduled
      → Schedules m.tick_index (npc_events m.tick_index cs) m (system_input uuid cs m)
  unfolding system_input
  system_input_schedule [] m h = (refl, h, rw append-nil)
  system_input_schedule (c ∷ cs) m h =
      let m' = input_command uuid c.session_id c.character_id c.command m in
      let one = input_command_schedule c.session_id c.character_id c.command m h in
      let more = system_input_schedule cs m' (rw one.0 one.1) in
      (
        more.0 ∙ one.0,
        rw one.0 at more.1,
        (rw one.0 at more.2)
            ∙ rw one.2 (
                append_assoc (all_events m.scheduled)
                  (npc_event m.tick_index c.session_id c.command) (npc_events m.tick_index cs)),
      )
