-- ===== src/MapServer/Invariant.antt =====
-- crates/map_server/src/lib.rs: what every tick keeps of the instance, whatever the commands.
use mathlib.Core.List.{append_assoc, append-nil}
use helbreath_backend.Prelude.{
  ℕ, zero, suc, ◌≡◌, refl, ap, ◌∙◌, List, [], ◌∷◌, ◌++◌, Bool-cases, inl, inr, ◌==◌, ◌%◌, take,
  drop, Option, none, some, nat_eq,
}
use helbreath_backend.Prelude.Int.{ℤ}
use helbreath_backend.Prelude.Assoc.{lookup}
use helbreath_backend.Domain.{Uuid, UuidCrate}
use helbreath_backend.Application.{ClientCommand, enter_world, move}
use helbreath_backend.MapServer.{MapConfig, MapInstance, IncomingCommand, new_instance, PlayerState}
use helbreath_backend.MapServer.Input.{
  drain_loop, drain_incoming_queue, system_input, input_command, move_player,
}
use helbreath_backend.MapServer.Systems.{
  process_scheduled_events, system_movement, system_combat, system_ai, system_aoi, system_inventory,
}
use helbreath_backend.MapServer.Tick.{process_tick, tick, run}
use helbreath_backend.MapServer.Players.{IsFit, system_combat-IsFit, system_input-IsFit}

drain_loop_lem :
    (room : ℕ) (rx pending : List IncomingCommand)
    → drain_loop room rx pending ≡ (drop room rx, pending ++ take room rx)
unfolding drain_loop
drain_loop_lem zero rx pending = rw append-nil
drain_loop_lem (suc room) [] pending = rw append-nil
drain_loop_lem (suc room) (c ∷ rx) pending =
    drain_loop_lem room rx (pending ++ (c ∷ []))
    ∙ ap (λ t. (drop room rx, t)) (append_assoc pending (c ∷ []) (take room rx))

-- A tick accepts commands in the order in which they arrived, its budget of them and no more; the
-- rest waits, in its order.
pub drain_incoming_queue_lem :
    (m : MapInstance)
    → drain_incoming_queue m ≡ record m {
      rx = drop m.config.command_budget m.rx;
      pending_commands = m.pending_commands ++ take m.config.command_budget m.rx;
    }
unfolding drain_incoming_queue
drain_incoming_queue_lem m =
    ap {B = MapInstance} (λ r. record m { rx = r.0; pending_commands = r.1 })
      (drain_loop_lem m.config.command_budget m.rx m.pending_commands)

-- Nothing waits for the systems of a later tick.
pub record IsDone (m : MapInstance) : Type 0 where
  pub commands : m.pending_commands ≡ []
  pub attacks : m.pending_attacks ≡ []
  pub casts : m.pending_skill_casts ≡ []
  pub changes : m.pending_inventory_changes ≡ []

system_ai_keeps :
    (m : MapInstance)
    → ((system_ai m).players ≡ m.players)
      × ((system_ai m).pending_commands ≡ m.pending_commands)
      × ((system_ai m).pending_attacks ≡ m.pending_attacks)
      × ((system_ai m).pending_skill_casts ≡ m.pending_skill_casts)
unfolding system_ai
system_ai_keeps m = elim (Bool-cases (m.tick_index % 100 == 0)) [
  | inl t ↦ rw t (refl, refl, refl, refl)
  | inr t ↦ rw t (refl, refl, refl, refl)
]

system_aoi_keeps :
    (m : MapInstance)
    → ((system_aoi m).players ≡ m.players)
      × ((system_aoi m).pending_commands ≡ m.pending_commands)
      × ((system_aoi m).pending_attacks ≡ m.pending_attacks)
      × ((system_aoi m).pending_skill_casts ≡ m.pending_skill_casts)
unfolding system_aoi
system_aoi_keeps m = elim (Bool-cases (m.tick_index % 40 == 0)) [
  | inl t ↦ rw t (refl, refl, refl, refl)
  | inr t ↦ rw t (refl, refl, refl, refl)
]

-- The systems behind the combat change neither the players nor what is pending for the others.
later_systems :
    (m : MapInstance)
    → ((system_inventory (system_aoi (system_ai m))).players ≡ m.players)
      × ((system_inventory (system_aoi (system_ai m))).pending_commands ≡ m.pending_commands)
      × ((system_inventory (system_aoi (system_ai m))).pending_attacks ≡ m.pending_attacks)
      × ((system_inventory (system_aoi (system_ai m))).pending_skill_casts ≡ m.pending_skill_casts)
      × ((system_inventory (system_aoi (system_ai m))).pending_inventory_changes ≡ [])
unfolding system_inventory
later_systems m =
    let a = system_aoi_keeps (system_ai m) in
    let b = system_ai_keeps m in (a.0 ∙ b.0, a.1 ∙ b.1, a.2 ∙ b.2, a.3 ∙ b.3, refl)

module _ (uuid : UuidCrate) where
  process_tick-IsFit : (m : MapInstance) → IsFit m.players → IsFit (process_tick uuid m).players
  unfolding process_tick
  process_tick-IsFit m f =
      let m1 = process_scheduled_events m in
      let m2 = system_input uuid m1.pending_commands (record m1 { pending_commands = [] }) in
      let m3 = system_movement m2 in
      rw (later_systems (system_combat m3)).0 (
        system_combat-IsFit m3 (
          unfold process_scheduled_events system_movement in
          system_input-IsFit uuid m1.pending_commands (record m1 { pending_commands = [] }) f))

  tick-IsFit :
      (arrived : List IncomingCommand) (m : MapInstance)
      → IsFit m.players
      → IsFit (tick uuid arrived m).players
  unfolding tick
  tick-IsFit arrived m f = process_tick-IsFit _ (unfold drain_incoming_queue in f)

combat_commands :
    (m : MapInstance) → (system_combat (system_movement m)).pending_commands ≡ m.pending_commands
unfolding system_combat system_movement
combat_commands m = refl

move_player_commands :
    (o : Option PlayerState) (session : Uuid) (x y : ℤ) (m : MapInstance)
    → (move_player o session x y m).pending_commands ≡ m.pending_commands
unfolding move_player
move_player_commands none session x y m = refl
move_player_commands (some p) session x y m = refl

input_command_commands :
    (uuid : UuidCrate) (session : Uuid) (character : Option Uuid) (c : ClientCommand)
    (m : MapInstance)
    → (input_command uuid session character c m).pending_commands ≡ m.pending_commands
unfolding input_command
input_command_commands uuid session character (move x y run) m =
    move_player_commands (lookup session m.players) session x y m
input_command_commands uuid session character enter_world m = refl
input_command_commands uuid session character _ m = refl

module _ (uuid : UuidCrate) where
  system_input_commands :
      (cs : List IncomingCommand) (m : MapInstance)
      → (system_input uuid cs m).pending_commands ≡ m.pending_commands
  unfolding system_input
  system_input_commands [] m = refl
  system_input_commands (c ∷ cs) m =
      system_input_commands cs (input_command uuid c.session_id c.character_id c.command m)
      ∙ input_command_commands uuid c.session_id c.character_id c.command m

  process_tick-IsDone : (m : MapInstance) → IsDone (process_tick uuid m)
  unfolding process_tick
  process_tick-IsDone m =
      let m1 = process_scheduled_events m in
      let m2 = system_input uuid m1.pending_commands (record m1 { pending_commands = [] }) in
      let m4 = system_combat (system_movement m2) in
      let later = later_systems m4 in
      record {
        commands =
            later.1
            ∙ combat_commands m2
            ∙ system_input_commands m1.pending_commands (record m1 { pending_commands = [] });
        attacks = later.2 ∙ (unfold system_combat in refl);
        casts = later.3 ∙ (unfold system_combat in refl);
        changes = later.4;
      }

  run-IsFit :
      (rounds : List (List IncomingCommand)) (m : MapInstance)
      → IsFit m.players
      → IsFit (run uuid rounds m).players
  unfolding run
  run-IsFit [] m f = f
  run-IsFit (arrived ∷ rest) m f =
      run-IsFit rest (tick uuid arrived m) (tick-IsFit uuid arrived m f)

  -- From a new instance, whatever commands arrive in whatever rounds: no session stands twice in the
  -- table of players, and every player's life and mana are between 0 and 100.
  pub run-new_instance-IsFit :
      (config : MapConfig) (rounds : List (List IncomingCommand))
      → IsFit (run uuid rounds (new_instance config)).players
  run-new_instance-IsFit config rounds =
      run-IsFit rounds (new_instance config) (record { distinct = tt; healthy = tt })

  -- After every tick, from any state and whatever arrives, no command that
  -- the tick accepted and no attack, skill or inventory change waits for a later one.
  pub tick_settles :
      (arrived : List IncomingCommand) (m : MapInstance) → IsDone (tick uuid arrived m)
  unfolding tick
  tick_settles arrived m = process_tick-IsDone _
