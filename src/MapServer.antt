-- ===== src/MapServer.antt =====
-- crates/map_server/src/lib.rs: a map instance, which runs ticks. This file holds its state; the
-- children hold the systems of a tick and what is proved of them. A send to one of the two channels
-- is an entry of `sent`, in the order of the sends; whether the receiver still listens does not
-- change the instance. Metrics and traces are left out.
pub mod Input
pub mod Systems
pub mod Tick
pub mod Players
pub mod Damage
pub mod Invariant
pub mod Schedule
pub mod Delivery
pub mod CombatLog
mod Examples
use helbreath_backend.Prelude.{
  ℕ, zero, suc, ◌+◌, Bool, true, false, Option, none, some, List, [], ◌∷◌, ◌++◌,
}
use helbreath_backend.Prelude.Int.{ℤ, pos}
use helbreath_backend.Prelude.Text.{Text}
use helbreath_backend.Prelude.Assoc.{Assoc}
use helbreath_backend.Domain.{Uuid}
use helbreath_backend.Application.{ClientCommand}

pub record MapConfig : Type 0 where
  pub map_id : ℤ
  pub tick_ms : ℕ
  pub command_budget : ℕ

pub record IncomingCommand : Type 0 where
  pub session_id : Uuid
  pub character_id : Option Uuid
  pub command : ClientCommand

pub data OutboundEvent : Type 0 where
  text : Uuid → Text → OutboundEvent
  position : Uuid → ℤ → ℤ → OutboundEvent
  combat_result : Uuid → Uuid → ℤ → OutboundEvent

pub data PersistOp : Type 0 where
  save_character_position : Uuid → ℤ → ℤ → ℤ → PersistOp
  save_inventory_change : Uuid → ℤ → Text → PersistOp
  save_combat_log : Uuid → Uuid → ℤ → ℤ → PersistOp

pub data Sent : Type 0 where
  outbound : OutboundEvent → Sent
  persist : PersistOp → Sent

pub record PlayerState : Type 0 where
  pub character_id : Uuid
  pub x : ℤ
  pub y : ℤ
  pub hp : ℤ
  pub mp : ℤ

pub record ScheduledEvent : Type 0 where
  pub run_at_tick : ℕ
  pub event : OutboundEvent

-- `rx` is what waits in the channel, and `sent` what went to the other two.
pub record MapInstance : Type 0 where
  pub config : MapConfig
  pub rx : List IncomingCommand
  pub sent : List Sent
  pub tick_index : ℕ
  pub players : Assoc Uuid PlayerState
  pub pending_commands : List IncomingCommand
  pub scheduled : Assoc ℕ (List ScheduledEvent)
  pub pending_attacks : List (Uuid × Uuid)
  pub pending_skill_casts : List (Uuid × ℤ × Option Uuid)
  pub pending_inventory_changes : List (Uuid × Text)

-- `MapInstance::new`
abbrev pub new_instance : MapConfig → MapInstance
new_instance config = record {
  config = config;
  rx = [];
  sent = [];
  tick_index = 0;
  players = [];
  pending_commands = [];
  scheduled = [];
  pending_attacks = [];
  pending_skill_casts = [];
  pending_inventory_changes = [];
}

-- `outbound_tx.send` and `persist_tx.send`
abbrev pub emit : List Sent → MapInstance → MapInstance
emit out m = record m { sent = m.sent ++ out }
