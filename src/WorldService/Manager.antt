-- ===== src/WorldService/Manager.antt =====
-- apps/world-service/src/main.rs: `MapRuntimeManager`. An operation gives the manager behind it and
-- the messages that it sends to the coordinator, in their order.
use helbreath_backend.Prelude.{
  ℕ, Bool, true, false, List, [], ◌∷◌, ◌++◌, Option, none, some, if◌then◌else◌, Result, ok, err,
}
use helbreath_backend.Prelude.Int.{ℤ, int_eq}
use helbreath_backend.Prelude.Assoc.{Assoc, lookup, insert, remove}
use helbreath_backend.MapServer.{new_instance}
use helbreath_backend.World.{WorldMessage, register_map, unregister_map}
use helbreath_backend.WorldService.{MapRuntimeHandle, MapRuntimeManager}
use Prim.Native.String.{String}

abbrev pub is_some {ℓ} : {A : Type ℓ} → Option A → Bool
is_some none = false
is_some (some a) = true

unfoldable pub is_active : ℤ → MapRuntimeManager → Bool
unfolding lookup
is_active map_id m = is_some (lookup map_id m.runtimes)

pub record Outcome : Type 0 where
  pub result : Result String Bool
  pub manager : MapRuntimeManager
  pub sent : List WorldMessage

-- `is_open` says whether the coordinator still receives, and `channel` is the new channel between
-- the coordinator and the router task.
unfoldable pub activate : Bool → ℕ → ℤ → MapRuntimeManager → Outcome
unfolding is_active insert
activate is_open channel map_id m =
    if is_active map_id m
    then record { result = ok false; manager = m; sent = [] }
    else if is_open
    then record {
      result = ok true;
      manager = record m {
        runtimes =
            insert map_id
              (record {
                map_task = new_instance (record {
                  map_id = map_id;
                  tick_ms = m.tick_ms;
                  command_budget = m.command_budget;
                });
                router_task = channel;
              })
              m.runtimes;
      };
      sent = register_map map_id channel ∷ [];
    }
    else record { result = err "world coordinator unavailable"; manager = m; sent = [] }

-- The first half of `deactivate`, under the lock.
unfoldable pub take_handle : ℤ → MapRuntimeManager → MapRuntimeManager
unfolding remove
take_handle map_id m = record m { runtimes = remove map_id m.runtimes }

-- The second half, behind the lock, for a handle that was there.
unfoldable pub unregister : ℤ → List WorldMessage
unregister map_id = unregister_map map_id ∷ []

unfoldable pub deactivate : ℤ → MapRuntimeManager → Outcome
unfolding is_active take_handle unregister
deactivate map_id m =
    if is_active map_id m
    then record { result = ok true; manager = take_handle map_id m; sent = unregister map_id }
    else record { result = ok false; manager = m; sent = [] }

-- `for (map_id, handle) in handles`
unfoldable pub unregister_all : Assoc ℤ MapRuntimeHandle → List WorldMessage
unfolding unregister
unregister_all [] = []
unregister_all ((map_id, handle) ∷ rest) = unregister map_id ++ unregister_all rest

unfoldable pub shutdown : MapRuntimeManager → Outcome
unfolding unregister_all
shutdown m = record {
  result = ok true;
  manager = record m { runtimes = [] };
  sent = unregister_all m.runtimes;
}
