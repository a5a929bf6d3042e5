-- ===== src/World/Examples.antt =====
-- crates/world/src/lib.rs: the coordinator on concrete messages.
use helbreath_backend.Prelude.{◌≡◌, refl, none, List, [], ◌∷◌, arith, length}
use helbreath_backend.Prelude.Int.{pos}
use helbreath_backend.Prelude.Assoc.{lookup}
use helbreath_backend.Application.{enter_world, logout}
use helbreath_backend.World.{
  WorldMessage, register_map, route_to_map, get_stats, new_world, handle, run, reply,
}
use helbreath_backend.World.Counts.{IsCounted, IsOrderlyRun, stray_logout, run-stats}

-- A map, and a session that enters it.
abbrev opening : List WorldMessage
opening = register_map (pos 1) 7 ∷ route_to_map (pos 1) 11 none enter_world ∷ []

opening-IsOrderlyRun : IsOrderlyRun new_world opening
unfolding handle
opening-IsOrderlyRun = (tt, (omega arith, tt))

opening_sessions : (run new_world opening).0.session_map ≡ (11, pos 1) ∷ []
unfolding run
opening_sessions = refl

run-stats_example :
    IsCounted (run new_world opening).0
    × ((handle (run new_world opening).0 (get_stats 3)).1
        ≡ reply 3 (record {
          online_players = length (run new_world opening).0.session_map;
          players_by_map = (run new_world opening).0.players_by_map;
        })
          ∷ [])
run-stats_example = run-stats opening 3 opening-IsOrderlyRun (rw opening_sessions (omega arith))

opening-IsCounted : IsCounted (run new_world opening).0
opening-IsCounted = (run-stats opening 3 opening-IsOrderlyRun (rw opening_sessions (omega arith))).0

stray_logout_example :
    ¬ IsCounted (handle (run new_world opening).0 (route_to_map (pos 1) 99 none logout)).0
stray_logout_example =
    stray_logout (run new_world opening).0 (pos 1) 99 none opening-IsCounted
      (rw opening_sessions (unfold lookup in refl)) (rw opening_sessions (omega arith))
