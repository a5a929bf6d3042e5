-- ===== src/MapServer/Input.antt =====
-- crates/map_server/src/lib.rs: `drain_incoming_queue` and `system_input`.
use Prim.Native.Nat.{min}
use helbreath_backend.Prelude.{
  ℕ, zero, suc, ◌+◌, ◌-◌, ◌^◌, Option, none, some, List, [], ◌∷◌, ◌++◌, nat_eq,
}
use helbreath_backend.Prelude.Int.{ℤ, pos, int_to_string}
use helbreath_backend.Prelude.Text.{Text, codes}
use helbreath_backend.Prelude.Assoc.{Assoc, lookup, insert, remove}
use helbreath_backend.Domain.{Uuid, UuidCrate}
use helbreath_backend.Application.{
  ClientCommand, enter_world, move, attack, cast_skill, pickup_item, drop_item, use_item,
  npc_interaction, chat, whisper, guild_chat, heartbeat, logout,
}
use helbreath_backend.MapServer.{
  IncomingCommand, OutboundEvent, text, save_character_position, outbound, persist, PlayerState,
  ScheduledEvent, MapInstance, emit,
}

-- The loop of `drain_incoming_queue`: `room` is the budget less the commands accepted so far. What
-- waits, and what is pending, behind it.
unfoldable pub drain_loop :
    ℕ → List IncomingCommand → List IncomingCommand → List IncomingCommand × List IncomingCommand
drain_loop zero rx pending = (rx, pending)
drain_loop (suc room) [] pending = ([], pending)
drain_loop (suc room) (cmd ∷ rx) pending = drain_loop room rx (pending ++ (cmd ∷ []))

unfoldable pub drain_incoming_queue : MapInstance → MapInstance
unfolding drain_loop
drain_incoming_queue m =
    let (rx, pending) = drain_loop m.config.command_budget m.rx m.pending_commands in
    record m { rx = rx; pending_commands = pending }

-- `unwrap_or`
unfoldable pub unwrap_or : Option Uuid → Uuid → Uuid
unwrap_or none d = d
unwrap_or (some u) d = u

abbrev pub fresh_player : Uuid → PlayerState
fresh_player character = record {
  character_id = character;
  x = pos 100;
  y = pos 100;
  hp = pos 100;
  mp = pos 100;
}

-- `entry(session).or_insert(fresh)`, and then the character's id of the entry is set.
unfoldable pub enter_player : Option PlayerState → Uuid → PlayerState
enter_player none character = fresh_player character
enter_player (some p) character = record p { character_id = character }

-- The character of a session, or the session's own id.
unfoldable pub character_of : Uuid → Assoc Uuid PlayerState → Uuid
character_of session players = elim (lookup session players) [
  | none ↦ session
  | some p ↦ p.character_id
]

unfoldable pub move_player : Option PlayerState → Uuid → ℤ → ℤ → MapInstance → MapInstance
move_player none session x y m = m
move_player (some p) session x y m =
    emit (persist (save_character_position p.character_id m.config.map_id x y) ∷ [])
      (record m { players = insert session (record p { x = x; y = y }) m.players })

unfoldable pub push_change : Uuid → Text → MapInstance → MapInstance
unfolding character_of
push_change session reason m = record m {
  pending_inventory_changes =
      m.pending_inventory_changes ++ ((character_of session m.players, reason) ∷ []);
}

unfoldable pub events_at : ℕ → Assoc ℕ (List ScheduledEvent) → List ScheduledEvent
events_at tick scheduled = elim (lookup tick scheduled) [ none ↦ [] | some events ↦ events ]

-- `scheduled.entry(tick).or_default().push(event)`
unfoldable pub schedule :
    ℕ → OutboundEvent → Assoc ℕ (List ScheduledEvent) → Assoc ℕ (List ScheduledEvent)
unfolding events_at
schedule tick event scheduled =
    insert tick (events_at tick scheduled ++ (record { run_at_tick = tick; event = event } ∷ []))
      scheduled

-- `saturating_add(1)` on u64
abbrev pub next_tick_saturating : ℕ → ℕ
next_tick_saturating tick = min (tick + 1) (2 ^ 64 - 1)

module _ (uuid : UuidCrate) where
  -- The `match` of `system_input`, for a command of a session and the character that came with it.
  unfoldable pub input_command : Uuid → Option Uuid → ClientCommand → MapInstance → MapInstance
  unfolding unwrap_or enter_player move_player push_change schedule lookup insert remove
      int_to_string
  input_command session character enter_world m = record m {
    players =
        insert session (enter_player (lookup session m.players) (unwrap_or character session))
          m.players;
  }
  input_command session character (move x y run) m =
      move_player (lookup session m.players) session x y m
  input_command session character (chat message) m = emit (outbound (text session message) ∷ []) m
  input_command session character (whisper to message) m =
      emit (outbound (text session (codes "(whisper->" ++ (to ++ (codes ") " ++ message)))) ∷ []) m
  input_command session character (guild_chat message) m =
      emit (outbound (text session (codes "[guild] " ++ message)) ∷ []) m
  input_command session character (attack target) m = record m {
    pending_attacks = m.pending_attacks ++ ((session, target) ∷ []);
  }
  input_command session character (cast_skill skill target) m = record m {
    pending_skill_casts = m.pending_skill_casts ++ ((session, skill, target) ∷ []);
  }
  input_command session character (pickup_item entity) m =
      push_change session (codes "pickup_item") m
  input_command session character (drop_item slot quantity) m =
      push_change session
        (codes "drop_item(slot="
          ++ (int_to_string slot ++ (codes ",qty=" ++ (int_to_string quantity ++ codes ")"))))
        m
  input_command session character (use_item slot) m =
      push_change session (codes "use_item(slot=" ++ (int_to_string slot ++ codes ")")) m
  input_command session character (npc_interaction npc) m = record m {
    scheduled =
        schedule (next_tick_saturating m.tick_index)
          (text session (codes "npc_interaction:" ++ uuid.to_string npc)) m.scheduled;
  }
  input_command session character heartbeat m =
      emit (outbound (text session (codes "heartbeat_ack")) ∷ []) m
  input_command session character logout m = record m { players = remove session m.players }
  input_command session character command m = m

  unfoldable pub system_input : List IncomingCommand → MapInstance → MapInstance
  unfolding input_command
  system_input [] m = m
  system_input (c ∷ cs) m = system_input cs (input_command c.session_id c.character_id c.command m)
