-- ===== src/WorldService/Service/Active.antt =====
-- apps/world-service/src/main.rs: which maps are active, as the manager and the coordinator see it.
use helbreath_backend.Prelude.{
  ℕ, suc, ◌≡◌, refl, Bool, true, false, List, [], ◌∷◌, Option, none, some, Bool-cases, inl, inr,
  ltb, ok,
}
use helbreath_backend.Prelude.Int.{ℤ, int_eq}
use helbreath_backend.Prelude.Text.{Text, trim, is_empty}
use helbreath_backend.Prelude.Assoc.{lookup}
use helbreath_backend.Domain.{Uuid}
use helbreath_backend.Application.{ClientCommand, enter_world, logout}
use helbreath_backend.World.{
  WorldState, route_to_map, broadcast, count_command, handle, run, stats_of,
}
use helbreath_backend.WorldService.{RouteEnvelope, MapRuntimeManager}
use helbreath_backend.WorldService.Manager.{is_active, activate, deactivate}
use helbreath_backend.WorldService.Service.{
  Service, Answer, done, tell, new_service, players_online, start_maps, world_map_activate,
  world_map_deactivate, world_broadcast, route_command, in_catalog,
}
use helbreath_backend.WorldService.Service.Represents.{
  Active, Represents, tell-Represents, put, drop_map, no_maps, activate-Represents,
  deactivate-Represents,
}

-- The requests that reach the running service over HTTP, with what the catalog of maps answers to an
-- activation and the new channel that it would use.
pub data Request : Type 0 where
  activation : Option (List ℤ) → ℕ → ℤ → Request
  deactivation : ℤ → Request
  broadcasting : Text → Request
  routing : ℤ → RouteEnvelope → Request

unfoldable pub step : Request → Service → Answer × Service
unfolding world_map_activate world_map_deactivate world_broadcast route_command
step (activation maps channel map_id) s = world_map_activate maps true channel map_id s
step (deactivation map_id) s = world_map_deactivate map_id s
step (broadcasting message) s = world_broadcast message s
step (routing map_id req) s = route_command map_id req s

-- What a request means for the set of active maps, by its answer alone.
abbrev pub spec : Request → Answer → Active → Active
spec (activation maps channel map_id) (done changed is_active) a = put map_id channel a
spec (deactivation map_id) (done changed is_active) a = drop_map map_id a
spec _ _ a = a

senders-count_command :
    (k : ℤ) (session : Uuid) (c : ClientCommand) (w : WorldState)
    → (count_command k session c w).map_senders ≡ w.map_senders
unfolding count_command
senders-count_command k session enter_world w = refl
senders-count_command k session logout w = refl
senders-count_command k session _ w = refl

route-Represents :
    (a : Active) (s : Service) (map_id : ℤ) (session : Uuid) (character : Option Uuid)
    (c : ClientCommand)
    → Represents a s
    → Represents a (tell (route_to_map map_id session character c ∷ []) s)
unfolding run handle
route-Represents a s map_id session character c v =
    tell-Represents a (route_to_map map_id session character c ∷ []) s v.runtimes v.running
      (rw (senders-count_command map_id session c s.coordinator) v.senders)
      (λ j. rw (senders-count_command map_id session c s.coordinator) (v.routed j))

pub activate-ok :
    (channel : ℕ) (map_id : ℤ) (m : MapRuntimeManager)
    → (changed : Bool) × ((activate true channel map_id m).result ≡ ok changed)
unfolding activate
activate-ok channel map_id m = elim (Bool-cases (is_active map_id m)) [
  | inl t ↦ rw t (false, refl)
  | inr t ↦ rw t (true, refl)
]

deactivate-ok :
    (map_id : ℤ) (m : MapRuntimeManager)
    → (changed : Bool) × ((deactivate map_id m).result ≡ ok changed)
unfolding deactivate
deactivate-ok map_id m = elim (Bool-cases (is_active map_id m)) [
  | inl t ↦ rw t (true, refl)
  | inr t ↦ rw t (false, refl)
]

broadcast-Represents :
    (a : Active) (s : Service) (message : Text)
    → Represents a s
    → Represents a (tell (broadcast message ∷ []) s)
unfolding run handle
broadcast-Represents a s message v =
    tell-Represents a (broadcast message ∷ []) s v.runtimes v.running v.senders v.routed

-- Every answered request does to the manager and the coordinator what it means for the set of
-- active maps.
step-Represents :
    (a : Active) (r : Request) (s : Service)
    → Represents a s
    → Represents (spec r (step r s).0 a) (step r s).1
unfolding step world_map_activate world_map_deactivate world_broadcast route_command
step-Represents a (activation none channel map_id) s v = v
step-Represents a (activation (some maps) channel map_id) s v =
    elim (Bool-cases (in_catalog map_id maps)) [
      | inl t ↦ rw t (
          rw (activate-ok channel map_id s.map_manager).1
            (activate-Represents a s v channel map_id))
      | inr t ↦ rw t v
    ]
step-Represents a (deactivation map_id) s v =
    elim (Bool-cases (ltb 0 (players_online map_id (stats_of s.coordinator)))) [
      | inl t ↦ rw t v
      | inr t ↦ rw (t, (deactivate-ok map_id s.map_manager).1) (deactivate-Represents a s v map_id)
    ]
step-Represents a (broadcasting message) s v = elim (Bool-cases (is_empty (trim message))) [
  | inl t ↦ rw t v
  | inr t ↦ rw t (broadcast-Represents a s message v)
]
step-Represents a (routing map_id req) s v = route-Represents a s map_id _ _ _ v

-- The requests one after the other, on the service and on the view.
unfoldable pub run_service : List Request → Service → Service
unfolding step
run_service [] s = s
run_service (r ∷ rs) s = run_service rs (step r s).1

unfoldable pub run_spec : List Request → Service → Active → Active
unfolding step
run_spec [] s a = a
run_spec (r ∷ rs) s a = run_spec rs (step r s).1 (spec r (step r s).0 a)

run-Represents :
    (rs : List Request) (s : Service) (a : Active)
    → Represents a s
    → Represents (run_spec rs s a) (run_service rs s)
unfolding run_service run_spec
run-Represents [] s a v = v
run-Represents (r ∷ rs) s a v =
    run-Represents rs (step r s).1 (spec r (step r s).0 a) (step-Represents a r s v)

abbrev pub start_spec : ℕ → List ℤ → Active → Active
start_spec channel [] a = a
start_spec channel (m ∷ ms) a = start_spec (suc channel) ms (put m channel a)

start-Represents :
    (channel : ℕ) (ms : List ℤ) (s : Service) (a : Active)
    → Represents a s
    → Represents (start_spec channel ms a) (start_maps channel ms s)
unfolding start_maps
start-Represents channel [] s a v = v
start-Represents channel (m ∷ ms) s a v =
    start-Represents (suc channel) ms _ (put m channel a) (activate-Represents a s v channel m)

new_service-Represents :
    (tick_ms command_budget : ℕ) → Represents no_maps (new_service tick_ms command_budget)
unfolding lookup
new_service-Represents tick_ms command_budget = record {
  runtimes = tt;
  senders = tt;
  running = λ j. refl;
  routed = λ j. refl;
}

-- The service that has started some maps and answered some requests runs, and its coordinator
-- routes to, exactly the maps that the answers say are active, with the same channels: the started
-- ones and those activated, with the channel of the first time, less those deactivated since.
pub run_service-refines :
    (tick_ms command_budget channel : ℕ) (ms : List ℤ) (rs : List Request)
    → let started = start_maps channel ms (new_service tick_ms command_budget) in
      Represents (run_spec rs started (start_spec channel ms no_maps)) (run_service rs started)
run_service-refines tick_ms command_budget channel ms rs =
    run-Represents rs _ _
      (start-Represents channel ms _ no_maps (new_service-Represents tick_ms command_budget))
