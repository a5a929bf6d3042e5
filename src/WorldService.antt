-- ===== src/WorldService.antt =====
-- apps/world-service/src/main.rs: the data of the world service, which runs the coordinator and the
-- map instances behind an HTTP interface. A channel is its number, as in `World`.
pub mod Outbound
pub mod Manager
pub mod Service
mod Examples
use helbreath_backend.Prelude.{ℕ, Bool, Option, none, some, List, [], ◌∷◌}
use helbreath_backend.Prelude.Int.{ℤ}
use helbreath_backend.Prelude.Text.{Text}
use helbreath_backend.Prelude.Assoc.{Assoc}
use helbreath_backend.Domain.{Uuid}
use helbreath_backend.Application.{ClientCommand}
use helbreath_backend.MapServer.{OutboundEvent, MapInstance, text, position, combat_result}
use Prim.Native.String.{String}

pub data RouteCommandRequest : Type 0 where
  heartbeat enter_world : RouteCommandRequest
  chat : Text → RouteCommandRequest
  move : ℤ → ℤ → Bool → RouteCommandRequest
  attack : Uuid → RouteCommandRequest
  cast_skill : ℤ → Option Uuid → RouteCommandRequest
  pickup_item : Uuid → RouteCommandRequest
  drop_item : ℤ → ℤ → RouteCommandRequest
  use_item : ℤ → RouteCommandRequest
  npc_interaction : Uuid → RouteCommandRequest
  whisper : Text → Text → RouteCommandRequest
  guild_chat : Text → RouteCommandRequest
  logout : RouteCommandRequest

pub record RouteEnvelope : Type 0 where
  pub session_id : Uuid
  pub character_id : Option Uuid
  pub command : RouteCommandRequest

-- The `match req.command` of `route_command`.
pub command_of : RouteCommandRequest → ClientCommand
command_of RouteCommandRequest.heartbeat = ClientCommand.heartbeat
command_of RouteCommandRequest.enter_world = ClientCommand.enter_world
command_of (RouteCommandRequest.chat message) = ClientCommand.chat message
command_of (RouteCommandRequest.move x y run) = ClientCommand.move x y run
command_of (RouteCommandRequest.attack target) = ClientCommand.attack target
command_of (RouteCommandRequest.cast_skill skill target) = ClientCommand.cast_skill skill target
command_of (RouteCommandRequest.pickup_item entity) = ClientCommand.pickup_item entity
command_of (RouteCommandRequest.drop_item slot quantity) = ClientCommand.drop_item slot quantity
command_of (RouteCommandRequest.use_item slot) = ClientCommand.use_item slot
command_of (RouteCommandRequest.npc_interaction npc) = ClientCommand.npc_interaction npc
command_of (RouteCommandRequest.whisper to message) = ClientCommand.whisper to message
command_of (RouteCommandRequest.guild_chat message) = ClientCommand.guild_chat message
command_of RouteCommandRequest.logout = ClientCommand.logout

pub record WorldOutboundRecord : Type 0 where
  pub seq : ℕ
  pub kind : String
  pub session_id : Option Uuid
  pub attacker : Option Uuid
  pub defender : Option Uuid
  pub x : Option ℤ
  pub y : Option ℤ
  pub damage : Option ℤ
  pub text : Option Text

unfoldable pub outbound_to_record : ℕ → OutboundEvent → WorldOutboundRecord
outbound_to_record seq (OutboundEvent.text session message) = record {
  seq = seq;
  kind = "text";
  session_id = some session;
  attacker = none;
  defender = none;
  x = none;
  y = none;
  damage = none;
  text = some message;
}
outbound_to_record seq (position session x y) = record {
  seq = seq;
  kind = "position";
  session_id = some session;
  attacker = none;
  defender = none;
  x = some x;
  y = some y;
  damage = none;
  text = none;
}
outbound_to_record seq (combat_result attacker defender damage) = record {
  seq = seq;
  kind = "combat_result";
  session_id = none;
  attacker = some attacker;
  defender = some defender;
  x = none;
  y = none;
  damage = some damage;
  text = none;
}

-- The map instance that `map_task` runs, and the channel from the coordinator that `router_task`
-- reads and forwards to the instance's queue.
pub record MapRuntimeHandle : Type 0 where
  pub map_task : MapInstance
  pub router_task : ℕ

pub record MapRuntimeManager : Type 0 where
  pub tick_ms : ℕ
  pub command_budget : ℕ
  pub runtimes : Assoc ℤ MapRuntimeHandle

-- `MapRuntimeManager::new`
abbrev pub new_manager : ℕ → ℕ → MapRuntimeManager
new_manager tick_ms command_budget = record {
  tick_ms = tick_ms;
  command_budget = command_budget;
  runtimes = [];
}
