-- ===== src/WorldService/Service/Race.antt =====
-- apps/world-service/src/main.rs: the end of a map's runtime: the shutdown, the guard of a
-- deactivation, and an activation that falls between the two halves of a deactivation.
use helbreath_backend.Prelude.{
  ℕ, ◌≤◌, ◌≡◌, refl, ◌∙◌, Bool, true, false, [], ◌∷◌, Option, none, some, arith, if◌then◌else◌, ltb,
  nat_eq, lt→ltb,
}
use helbreath_backend.Prelude.Int.{ℤ, pos, eqb_ℤ, int_eq}
use helbreath_backend.Prelude.Assoc.{Assoc, lookup, insert, remove, Distinct}
use helbreath_backend.Prelude.Assoc.Laws.{
  lookup-insert, lookup-remove, Distinct-insert, Distinct-remove, beq_refl,
}
use helbreath_backend.Domain.{Uuid}
use helbreath_backend.World.{WorldState, counter, stats_of, unregister_map, handle, run, deliver}
use helbreath_backend.World.Counts.{IsCounted, sessions_in_old}
use helbreath_backend.World.Maps.{sessions_in}
use helbreath_backend.WorldService.{RouteEnvelope, MapRuntimeHandle}
use helbreath_backend.WorldService.Manager.{
  activate, take_handle, unregister, unregister_all, shutdown, is_some,
}
use helbreath_backend.WorldService.Service.{
  Service, has_players, accepted, forward, tell, settle, players_online, world_map_deactivate,
  shut_down, route_command,
}
use helbreath_backend.WorldService.Service.Represents.{
  Active, Represents, channel_of, no_maps, tell-Represents,
}

-- The coordinator's channels behind the messages of a shutdown.
senders-unregister_all :
    (j : ℤ) (rs : Assoc ℤ MapRuntimeHandle) (w : WorldState)
    → Distinct w.map_senders
    → Distinct (run w (unregister_all rs)).0.map_senders
      × (lookup j (run w (unregister_all rs)).0.map_senders
          ≡ (if is_some (lookup j rs) then none else lookup j w.map_senders))
unfolding unregister_all unregister run handle lookup
senders-unregister_all j [] w d = (d, refl)
senders-unregister_all j ((k, h) ∷ rs) w d =
    let w' = (handle w (unregister_map k)).0 in
    let later = senders-unregister_all j rs w' (Distinct-remove k w.map_senders d) in
    (later.0, later.1 ∙ rw (lookup-remove k j w.map_senders d) (here (eqb_ℤ k j) (lookup j rs)))
  where
    here :
        (b : Bool) (o : Option MapRuntimeHandle)
        → (if is_some o then none else if b then none else lookup j w.map_senders)
          ≡ (if is_some (if b then some h else o) then none else lookup j w.map_senders)
    here true none = refl
    here true (some g) = refl
    here false none = refl
    here false (some g) = refl

-- Behind a shutdown no map runs and the coordinator routes to none.
pub shut_down-Represents :
    (a : Active) (s : Service) → Represents a s → Represents no_maps (shut_down s)
unfolding shut_down shutdown settle lookup
shut_down-Represents a s v =
    tell-Represents no_maps (unregister_all s.map_manager.runtimes) _ tt (λ j. refl)
      (senders-unregister_all (pos 0) s.map_manager.runtimes s.coordinator v.senders).0
      (λ j.
        (senders-unregister_all j s.map_manager.runtimes s.coordinator v.senders).1
        ∙ rw (v.routed j, ← v.running j) (absent (lookup j s.map_manager.runtimes)))
  where
    absent : (o : Option MapRuntimeHandle) → (if is_some o then none else channel_of o) ≡ none
    absent none = refl
    absent (some h) = refl

players_online_lem :
    (map_id : ℤ) (w : WorldState)
    → players_online map_id (stats_of w) ≡ counter map_id w.players_by_map
unfolding players_online stats_of counter
players_online_lem map_id w = refl

-- While the counters are exact, a map in which some session stands is not deactivated: the handler
-- refuses and changes nothing.
pub world_map_deactivate_guarded :
    (s : Service) (map_id : ℤ) (session : Uuid)
    → IsCounted s.coordinator
    → lookup session s.coordinator.session_map ≡ some map_id
    → world_map_deactivate map_id s
      ≡ (has_players (players_online map_id (stats_of s.coordinator)), s)
unfolding world_map_deactivate
world_map_deactivate_guarded s map_id session v e =
    let inside : 1 ≤ sessions_in map_id s.coordinator.session_map =
      ground
        (arith, sessions_in_old map_id session s.coordinator.session_map, e, beq_refl map_id) in
    let busy : ltb 0 (players_online map_id (stats_of s.coordinator)) ≡ true =
      lt→ltb 0 _ (omega (arith, players_online_lem map_id s.coordinator, v.exact map_id, inside)) in
    rw busy refl

-- The three steps of the race: a deactivation takes the handle, an activation of the same map runs,
-- and the deactivation sends its message.
pub race : ℕ → ℤ → Service → Service
unfolding take_handle settle activate tell unregister
race channel map_id s =
    let taken = record s { map_manager = take_handle map_id s.map_manager } in
    let activated = settle (activate true channel map_id taken.map_manager) taken in
    tell (unregister map_id) activated

lookup-remove_same {ℓ} :
    {V : Type ℓ} (k : ℤ) (m : Assoc ℤ V) → Distinct m → lookup k (remove k m) ≡ none
lookup-remove_same k m d = rw (lookup-remove k k m d, beq_refl k) refl

lookup-insert_same {ℓ} :
    {V : Type ℓ} (k : ℤ) (x : V) (m : Assoc ℤ V) → lookup k (insert k x m) ≡ some x
lookup-insert_same k x m = rw (lookup-insert k k x m, beq_refl k) refl

-- A command for a map that the coordinator does not route to changes no instance.
route_command_lost :
    (s : Service) (map_id : ℤ) (req : RouteEnvelope)
    → lookup map_id s.coordinator.map_senders ≡ none
    → (route_command map_id req s).1.map_manager.runtimes ≡ s.map_manager.runtimes
unfolding route_command tell run handle deliver forward
route_command_lost s map_id req e = rw e refl

-- If an activation of a map falls between the two halves of its deactivation, the new runtime runs
-- while the coordinator routes nothing to its map: every command for it is answered with success
-- and reaches no instance.
pub race_unrouted :
    (a : Active) (s : Service) (map_id : ℤ) (channel : ℕ) (req : RouteEnvelope)
    → Represents a s
    → (channel_of (lookup map_id (race channel map_id s).map_manager.runtimes) ≡ some channel)
      × (lookup map_id (race channel map_id s).coordinator.map_senders ≡ none)
      × ((route_command map_id req (race channel map_id s)).0 ≡ accepted)
      × ((route_command map_id req (race channel map_id s)).1.map_manager.runtimes
          ≡ (race channel map_id s).map_manager.runtimes)
unfolding race
race_unrouted a s map_id channel req v =
    (runs, unrouted, unfold route_command in refl, route_command_lost _ map_id req unrouted)
  where
    absent : lookup map_id (remove map_id s.map_manager.runtimes) ≡ none
    absent = lookup-remove_same map_id s.map_manager.runtimes v.runtimes

    runs : channel_of (lookup map_id (race channel map_id s).map_manager.runtimes) ≡ some channel
    runs = rw absent (rw (lookup-insert_same map_id _ (remove map_id s.map_manager.runtimes)) refl)

    unrouted : lookup map_id (race channel map_id s).coordinator.map_senders ≡ none
    unrouted = rw absent (
        lookup-remove_same map_id (insert map_id channel s.coordinator.map_senders)
          (Distinct-insert map_id channel s.coordinator.map_senders v.senders))
