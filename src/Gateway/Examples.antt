-- ===== src/Gateway/Examples.antt =====
-- apps/gateway/src/main.rs: the gateway on concrete events and bytes.
use helbreath_backend.Prelude.{
  ℕ, ◌≤◌, ◌≡◌, refl, true, false, none, some, List, [], ◌∷◌, ◌++◌, arith, nat_eq,
}
use helbreath_backend.Prelude.Int.{pos}
use helbreath_backend.Prelude.Assoc.{lookup}
use helbreath_backend.Application.{
  move, enter_world, character_select, LoginPayload, login, InternalCommand,
}
use helbreath_backend.Net.{pre_auth}
use helbreath_backend.Net.RateLimiter.{new_limiter}
use helbreath_backend.Net.Examples.{sample_crate, exact}
use helbreath_backend.Gateway.{
  WorldRouteCommandRequest, world_route, Answers, Between, opened, closed, new_session, Gateway,
  new_gateway,
}
use helbreath_backend.Gateway.Router.{
  is_authenticated, changed, route_client_command, Event, change, taken, run,
}
use helbreath_backend.Gateway.Router.Safe.{IsSafe}
use helbreath_backend.Gateway.Router.Routed.{IsFresh}
use helbreath_backend.Gateway.Router.Requests.{ever_closed_within, run-new_gateway-IsSafe}
use helbreath_backend.Gateway.Router.Guests.{guest_requests, route_client_command_guest}
use helbreath_backend.Gateway.Session.{Arrival, start_session, handle_session}
use helbreath_backend.Gateway.Session.Phases.{IsRun}
use helbreath_backend.Gateway.Session.Order.{logins, handle_session_played, logins-handle_session}
use helbreath_backend.Gateway.Connections.{
  on_accept, on_end, start, accepted, over, IsExact, reached-IsExact,
}

abbrev answers : Answers
answers = record {
  login = some (record { accepted = true; account_id = some 5 });
  delete = none;
  select = some (record { is_ok = true; character_id = some 6; map_id = some (pos 2) });
  world = true;
}

abbrev quiet : Between
quiet = record { at_check = []; at_request = []; at_write = [] }

-- The client closes its connection while its last command is routed.
abbrev ending : Between
ending = record { at_check = []; at_request = closed 1 ∷ []; at_write = [] }

abbrev payload : LoginPayload
payload = record { username = 117 ∷ []; password = 112 ∷ []; client_version = 48 ∷ [] }

abbrev events : List Event
events =
    change (opened 1 9)
    ∷ taken answers quiet (InternalCommand.route_client_command 1 none (login payload))
    ∷ taken answers quiet (InternalCommand.route_client_command 1 none (character_select 6))
    ∷ taken answers quiet (InternalCommand.route_client_command 1 none enter_world)
    ∷ taken answers ending
        (InternalCommand.route_client_command 1 none (move (pos 3) (pos 4) false))
    ∷ []

run-new_gateway-IsSafe_example :
    IsSafe (λ u. ever_closed_within events u ≡ true) (run events new_gateway)
run-new_gateway-IsSafe_example =
    run-new_gateway-IsSafe events (tt, (fresh, (fresh, (fresh, (fresh_ending, tt)))))
  where
    fresh : IsFresh 1 quiet
    fresh = record { request = refl; write = refl }

    fresh_ending : IsFresh 1 ending
    fresh_ending = record { request = refl; write = refl }

abbrev inside : Gateway
inside = record {
  sessions =
      (
        1,
        record {
          remote_ip = 9;
          account_id = some 5;
          character_id = some 6;
          map_id = some (pos 2);
          in_world = true;
        },
      )
      ∷ [];
  requests = [];
}

-- The client is gone when the router reads the character for its last command.
lost_character :
    (route_client_command answers ending 1 none (move (pos 3) (pos 4) false) inside).requests
    ≡ world_route (pos 2) 1 none (WorldRouteCommandRequest.move (pos 3) (pos 4) false) ∷ []
unfolding route_client_command
lost_character = refl

abbrev lobby : Gateway
lobby = record { sessions = (1, new_session 9) ∷ []; requests = [] }

route_client_command_guest_example :
    (route_client_command answers quiet 1 none (move (pos 3) (pos 4) false) lobby).requests
    ≡ [] ++ guest_requests quiet 1 none (move (pos 3) (pos 4) false) lobby
unfolding lookup changed
route_client_command_guest_example =
    route_client_command_guest answers quiet 1 none (move (pos 3) (pos 4) false) lobby
      (unfold is_authenticated in refl)

abbrev arrival : ℕ → Arrival
arrival i = record { now = i; redis = some true }

-- The frame of a login of `u` with the password `p`.
abbrev login_frame : List ℕ
login_frame = 5 ∷ 0 ∷ 0x01 ∷ 0x00 ∷ 117 ∷ 0 ∷ 112 ∷ []

abbrev reads : List ((ℕ → Arrival) × List ℕ)
reads = (arrival, login_frame) ∷ (arrival, login_frame) ∷ []

handle_session_played_example :
    IsRun pre_auth
      (handle_session sample_crate exact 1024 reads (start_session (new_limiter exact 0 10 10)))
handle_session_played_example =
    handle_session_played sample_crate exact 1024 (new_limiter exact 0 10 10) reads

logins-handle_session_example :
    logins
      (handle_session sample_crate exact 1024 reads
        (start_session (new_limiter exact 0 10 10))).sent
    ≤ 1
logins-handle_session_example =
    logins-handle_session sample_crate exact 1024 (new_limiter exact 0 10 10) reads

reached-IsExact_example :
    IsExact 2 (on_end 9 (on_accept 2 9 (record { counts = []; running = [] })))
reached-IsExact_example =
    reached-IsExact 2 (on_end 9 (on_accept 2 9 (record { counts = []; running = [] }))) (
      over 9 (on_accept 2 9 (record { counts = []; running = [] }))
        (unfold on_accept in omega arith) (accepted 9 (record { counts = []; running = [] }) start))
