-- ===== src/WorldService/Service.antt =====
-- apps/world-service/src/main.rs: the handlers, over the manager and the coordinator together. The
-- messages that a handler sends reach the coordinator at once, and a command that the coordinator
-- sends reaches the queue of the map instance whose router task reads the channel.
pub mod Represents
pub mod Active
pub mod Race
pub mod Route
use helbreath_backend.Prelude.{
  ℕ, suc, ◌==◌, Bool, true, false, not, List, [], ◌∷◌, ◌++◌, Option, none, some, ltb, if◌then◌else◌,
  Result, ok, err, map,
}
use helbreath_backend.Prelude.Int.{ℤ, pos, eqb_ℤ, leb_ℤ, int_eq}
use helbreath_backend.Prelude.Text.{Text, trim, is_empty}
use helbreath_backend.Prelude.Assoc.{Assoc, lookup}
use helbreath_backend.MapServer.{IncomingCommand, MapInstance, PersistOp}
use helbreath_backend.MapServer
use helbreath_backend.World.{
  WorldMessage, WorldState, WorldStats, RoutedCommand, Effect, send, reply, route_to_map, broadcast,
  new_world, run, stats_of,
}
use helbreath_backend.WorldService.{
  RouteEnvelope, MapRuntimeHandle, MapRuntimeManager, new_manager, command_of,
}
use helbreath_backend.WorldService.Manager.{Outcome, activate, deactivate, shutdown, is_some}
use Prim.Native.String.{String}

pub record Service : Type 0 where
  pub map_manager : MapRuntimeManager
  pub coordinator : WorldState

abbrev pub new_service : ℕ → ℕ → Service
new_service tick_ms command_budget = record {
  map_manager = new_manager tick_ms command_budget;
  coordinator = new_world;
}

-- One round of the router task.
abbrev pub incoming_of : RoutedCommand → IncomingCommand
incoming_of routed = record {
  session_id = routed.session_id;
  character_id = routed.character_id;
  command = routed.command;
}

unfoldable pub receive : ℕ → RoutedCommand → MapRuntimeHandle → MapRuntimeHandle
receive channel routed h =
    if h.router_task == channel
    then record h {
      map_task = record h.map_task { rx = h.map_task.rx ++ (incoming_of routed ∷ []) };
    }
    else h

unfoldable pub receive_all : ℕ → RoutedCommand → Assoc ℤ MapRuntimeHandle → Assoc ℤ MapRuntimeHandle
unfolding receive
receive_all channel routed [] = []
receive_all channel routed ((map_id, h) ∷ rest) =
    (map_id, receive channel routed h) ∷ receive_all channel routed rest

unfoldable pub forward : List Effect → Assoc ℤ MapRuntimeHandle → Assoc ℤ MapRuntimeHandle
unfolding receive_all
forward [] runtimes = runtimes
forward (send channel routed ∷ effects) runtimes =
    forward effects (receive_all channel routed runtimes)
forward (reply channel stats ∷ effects) runtimes = forward effects runtimes

-- The coordinator takes the messages that were sent, and the router tasks what it sends.
unfoldable pub tell : List WorldMessage → Service → Service
unfolding run forward
tell messages s =
    let (coordinator, effects) = run s.coordinator messages in
    record {
      map_manager = record s.map_manager { runtimes = forward effects s.map_manager.runtimes };
      coordinator = coordinator;
    }

unfoldable pub settle : Outcome → Service → Service
unfolding tell
settle outcome s = tell outcome.sent (record s { map_manager = outcome.manager })

-- What a handler answers in its JSON object.
pub data Answer : Type 0 where
  done : Bool → Bool → Answer
  refused : String → Answer
  has_players : ℕ → Answer
  accepted : Answer

-- `maps.into_iter().any(|map| map.id == map_id)`, over the ids of the catalog.
abbrev pub in_catalog : ℤ → List ℤ → Bool
in_catalog map_id [] = false
in_catalog map_id (id ∷ ids) = if eqb_ℤ id map_id then true else in_catalog map_id ids

abbrev activate_answer : Result String Bool → Answer
activate_answer (ok changed) = done changed true
activate_answer (err reason) = refused "activation_failed"

-- `maps` is what `list_maps` gives, none if it fails.
unfoldable pub world_map_activate : Option (List ℤ) → Bool → ℕ → ℤ → Service → Answer × Service
unfolding activate settle
world_map_activate none is_open channel map_id s = (refused "catalog_unavailable", s)
world_map_activate (some maps) is_open channel map_id s =
    let outcome = activate is_open channel map_id s.map_manager in
    if in_catalog map_id maps
    then (activate_answer outcome.result, settle outcome s)
    else (refused "map_not_found", s)

-- `players_by_map.iter().find(..).map(..).unwrap_or(0)`
unfoldable pub players_online : ℤ → WorldStats → ℕ
unfolding lookup
players_online map_id stats = elim (lookup map_id stats.players_by_map) [ none ↦ 0 | some n ↦ n ]

abbrev deactivate_answer : Result String Bool → Answer
deactivate_answer (ok changed) = done changed false
deactivate_answer (err reason) = refused "deactivation_failed"

unfoldable pub world_map_deactivate : ℤ → Service → Answer × Service
unfolding players_online stats_of deactivate settle
world_map_deactivate map_id s =
    let outcome = deactivate map_id s.map_manager in
    let online = players_online map_id (stats_of s.coordinator) in
    if ltb 0 online
    then (has_players online, s)
    else (deactivate_answer outcome.result, settle outcome s)

unfoldable pub world_broadcast : Text → Service → Answer × Service
unfolding tell trim
world_broadcast message s =
    if is_empty (trim message)
    then (refused "message_empty", s)
    else (accepted, tell (broadcast message ∷ []) s)

unfoldable pub route_command : ℤ → RouteEnvelope → Service → Answer × Service
unfolding tell command_of
route_command map_id req s = (
  accepted,
  tell (route_to_map map_id req.session_id req.character_id (command_of req.command) ∷ []) s,
)

-- `startup_maps.push(1)` on an empty list.
abbrev or_first : List ℤ → List ℤ
or_first [] = pos 1 ∷ []
or_first (m ∷ ms) = m ∷ ms

-- `sort_unstable`
insert_sorted : ℤ → List ℤ → List ℤ
insert_sorted m [] = m ∷ []
insert_sorted m (k ∷ ks) =
    let later = insert_sorted m ks in if leb_ℤ m k then m ∷ k ∷ ks else k ∷ later

sort_unstable : List ℤ → List ℤ
unfolding insert_sorted
sort_unstable [] = []
sort_unstable (m ∷ ms) = insert_sorted m (sort_unstable ms)

-- `dedup`: of equal neighbours one stays.
keep_first : ℤ → List ℤ → List ℤ
keep_first m [] = m ∷ []
keep_first m (k ∷ ks) = if eqb_ℤ m k then k ∷ ks else m ∷ k ∷ ks

dedup : List ℤ → List ℤ
unfolding keep_first
dedup [] = []
dedup (m ∷ ms) = keep_first m (dedup ms)

-- `active` is what `list_active_map_ids` gives, none if it fails.
unfoldable pub startup_maps : Option (List ℤ) → List ℤ
unfolding sort_unstable dedup
startup_maps none = pos 1 ∷ []
startup_maps (some active) = dedup (sort_unstable (or_first active))

-- The loop over the startup maps, with new channels from `channel` on.
unfoldable pub start_maps : ℕ → List ℤ → Service → Service
unfolding activate settle
start_maps channel [] s = s
start_maps channel (m ∷ ms) s =
    start_maps (suc channel) ms (settle (activate true channel m s.map_manager) s)

unfoldable pub shut_down : Service → Service
unfolding shutdown settle
shut_down s = settle (shutdown s.map_manager) s
