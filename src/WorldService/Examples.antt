-- ===== src/WorldService/Examples.antt =====
-- apps/world-service/src/main.rs: the world service on concrete requests.
use helbreath_backend.Prelude.{
  ◌≡◌, refl, true, false, none, some, List, [], ◌∷◌, ◌++◌, arith, nat_eq,
}
use helbreath_backend.Prelude.Int.{pos, int_eq}
use helbreath_backend.Prelude.Assoc.{lookup}
use helbreath_backend.Prelude.Buffer.{last}
use helbreath_backend.Application.{enter_world, move}
use helbreath_backend.MapServer.{OutboundEvent, position, new_instance}
use helbreath_backend.World.{WorldState, stats_of, route_to_map, register_map, run}
use helbreath_backend.World.Counts.{IsCounted, run-stats}
use helbreath_backend.Gateway.{
  Between, opened, closed, SessionRuntime, WorldRouteCommandRequest, Request, Answers, Gateway,
}
use helbreath_backend.Gateway.Router.{is_in_world, resolve_map_id, route_client_command}
use helbreath_backend.WorldService.{
  RouteCommandRequest, RouteEnvelope, MapRuntimeHandle, new_manager,
}
use helbreath_backend.WorldService.Outbound.{
  new_log, outbound_task, query_limit, outbound_rows, numbered, outbound_rows-outbound_task,
}
use helbreath_backend.WorldService.Service.{
  Service, new_service, start_maps, has_players, players_online, accepted, world_map_deactivate,
  shut_down, route_command,
}
use helbreath_backend.WorldService.Service.Active
use helbreath_backend.WorldService.Service.Represents.{Represents, channel_of, no_maps}
use helbreath_backend.WorldService.Service.Active.{
  run_service, run_spec, start_spec, deactivation, routing, run_service-refines,
}
use helbreath_backend.WorldService.Service.Race.{
  race, race_unrouted, shut_down-Represents, world_map_deactivate_guarded,
}
use helbreath_backend.WorldService.Service.Route.{relay, queued, in_world_command_reaches}

abbrev events : List OutboundEvent
events = position 5 (pos 1) (pos 2) ∷ position 5 (pos 1) (pos 3) ∷ []

outbound_rows-outbound_task_example :
    outbound_rows (some 0) (outbound_task events new_log)
    ≡ last (query_limit (some 0)) (numbered 1 events)
outbound_rows-outbound_task_example = outbound_rows-outbound_task events (some 0) (omega arith)

abbrev envelope : RouteEnvelope
envelope = record {
  session_id = 11;
  character_id = some 6;
  command = RouteCommandRequest.move (pos 3) (pos 4) false;
}

abbrev started : Service
started = start_maps 7 (pos 1 ∷ []) (new_service 50 100)

abbrev requests : List Active.Request
requests = routing (pos 1) envelope ∷ deactivation (pos 1) ∷ []

run_service-refines_example :
    Represents
      (run_spec requests started (start_spec 7 (pos 1 ∷ []) no_maps))
      (run_service requests started)
run_service-refines_example = run_service-refines 50 100 7 (pos 1 ∷ []) requests

started-Represents : Represents (start_spec 7 (pos 1 ∷ []) no_maps) started
unfolding run_service run_spec
started-Represents = run_service-refines 50 100 7 (pos 1 ∷ []) []

shut_down-Represents_example : Represents no_maps (shut_down started)
shut_down-Represents_example =
    shut_down-Represents (start_spec 7 (pos 1 ∷ []) no_maps) started started-Represents

race_unrouted_example :
    (channel_of (lookup (pos 1) (race 8 (pos 1) started).map_manager.runtimes) ≡ some 8)
    × (lookup (pos 1) (race 8 (pos 1) started).coordinator.map_senders ≡ none)
    × ((route_command (pos 1) envelope (race 8 (pos 1) started)).0 ≡ accepted)
    × ((route_command (pos 1) envelope (race 8 (pos 1) started)).1.map_manager.runtimes
        ≡ (race 8 (pos 1) started).map_manager.runtimes)
race_unrouted_example =
    race_unrouted (start_spec 7 (pos 1 ∷ []) no_maps) started (pos 1) 8 envelope started-Represents

-- A coordinator with a map and a session in it.
abbrev busy : WorldState
busy = record {
  map_senders = (pos 1, 7) ∷ [];
  players_by_map = (pos 1, 1) ∷ [];
  session_map = (11, pos 1) ∷ [];
}

busy-IsCounted : IsCounted busy
unfolding run
busy-IsCounted =
    (run-stats (register_map (pos 1) 7 ∷ route_to_map (pos 1) 11 none enter_world ∷ []) 3
      (tt, (omega arith, tt)) (omega arith)).0

abbrev crowded : Service
crowded = record { map_manager = new_manager 50 100; coordinator = busy }

world_map_deactivate_guarded_example :
    world_map_deactivate (pos 1) crowded
    ≡ (has_players (players_online (pos 1) (stats_of crowded.coordinator)), crowded)
unfolding lookup
world_map_deactivate_guarded_example =
    world_map_deactivate_guarded crowded (pos 1) 11 busy-IsCounted refl

abbrev player : SessionRuntime
player = record {
  remote_ip = 9;
  account_id = some 5;
  character_id = some 6;
  map_id = some (pos 1);
  in_world = true;
}

abbrev gateway : Gateway
gateway = record { sessions = (11, player) ∷ []; requests = [] }

abbrev no_answers : Answers
no_answers = record { login = none; delete = none; select = none; world = true }

abbrev started_handle : MapRuntimeHandle
started_handle = record {
  map_task = new_instance (record { map_id = pos 1; tick_ms = 50; command_budget = 100 });
  router_task = 7;
}

-- Another client connects and one closes its connection.
abbrev others : Between
others = record { at_check = opened 12 9 ∷ []; at_request = closed 13 ∷ []; at_write = [] }

in_world_command_reaches_example :
    (q : Request) × ((route_client_command no_answers others 11 none
        (move (pos 3) (pos 4) false)
        gateway).requests
      ≡ [] ++ (q ∷ []))
    × (lookup (resolve_map_id (some player) none) (relay q started).map_manager.runtimes
        ≡ some (
            queued
              (record {
                session_id = 11;
                character_id = player.character_id;
                command = move (pos 3) (pos 4) false;
              })
              started_handle))
unfolding lookup is_in_world start_maps resolve_map_id
in_world_command_reaches_example =
    in_world_command_reaches no_answers others gateway 11 player none (move (pos 3) (pos 4) false)
      (WorldRouteCommandRequest.move (pos 3) (pos 4) false) (start_spec 7 (pos 1 ∷ []) no_maps)
      started started_handle
      (record {
        opens_check = refl;
        opens_request = refl;
        closes_check = refl;
        closes_request = refl;
      })
      refl refl refl started-Represents refl
