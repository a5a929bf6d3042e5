-- ===== src/Gateway/Router/Requests.antt =====
-- apps/gateway/src/main.rs: what the requests of the gateway presuppose of their sessions.
use helbreath_backend.Prelude.{◌&&◌, ◌||◌, All, ◌≡◌, Bool, true, false, List, [], ◌∷◌, nat_eq, ◌==◌}
use helbreath_backend.Prelude.Assoc.Laws.{beq_refl}
use helbreath_backend.Domain.{Uuid}
use helbreath_backend.Application.{InternalCommand, disconnect_session}
use helbreath_backend.Gateway.{auth_logout, Gateway, new_gateway}
use helbreath_backend.Gateway.Router.{route, Event, change, taken, on_event, run}
use helbreath_backend.Gateway.Router.Changes.{closes, or_left, or_right}
use helbreath_backend.Gateway.Router.Safe.{meanwhile-IsSafe, IsSafe, send-IsSafe, remove-IsSafe}
use helbreath_backend.Gateway.Router.Routed.{IsFresh, route_client_command-IsSafe}

-- The router works on a command of the session, and the session is closed when the router reads it
-- for the request.
abbrev pub closed_within : Uuid → Event → Bool
closed_within u (taken answers between (InternalCommand.route_client_command session hint c)) =
    (session == u) && closes u between.at_request
closed_within u _ = false

abbrev pub ever_closed_within : List Event → Uuid → Bool
ever_closed_within [] u = false
ever_closed_within (e ∷ es) u = closed_within u e || ever_closed_within es u

abbrev pub IsFreshEvent : Event → Type 0
IsFreshEvent (taken answers between (InternalCommand.route_client_command session hint c)) =
    IsFresh session between
IsFreshEvent _ = Unit

on_event-IsSafe :
    (P : Uuid → Type 0) (e : Event) (g : Gateway)
    → IsFreshEvent e
    → ((u : Uuid) → closed_within u e ≡ true → P u)
    → IsSafe P g
    → IsSafe P (on_event e g)
unfolding on_event route
on_event-IsSafe P (change c) g f k h = meanwhile-IsSafe P (c ∷ []) g h
on_event-IsSafe P (taken answers between (InternalCommand.route_client_command session hint c)) g f
      k h =
    route_client_command-IsSafe P between session f
      (λ closed. k session (rw (beq_refl session) closed)) answers hint c g h
on_event-IsSafe P (taken answers between (disconnect_session session reason)) g f k h =
    remove-IsSafe P session _
      (meanwhile-IsSafe P between.at_write _ (send-IsSafe P (auth_logout session) g tt h))
on_event-IsSafe P (taken answers between _) g f k h = h

run-IsSafe :
    (P : Uuid → Type 0) (es : List Event) (g : Gateway)
    → All IsFreshEvent es
    → ((u : Uuid) → ever_closed_within es u ≡ true → P u)
    → IsSafe P g
    → IsSafe P (run es g)
unfolding run
run-IsSafe P [] g f k h = h
run-IsSafe P (e ∷ es) g f k h =
    run-IsSafe P es (on_event e g) f.1
      (λ u c. k u (or_right (closed_within u e) (ever_closed_within es u) c))
      (on_event-IsSafe P e g f.0
        (λ u c. k u (or_left (closed_within u e) (ever_closed_within es u) c)) h)

-- From the start, whatever the clients send and whatever the services answer, and however
-- connections open and end, also between two accesses of the router to the table: a session in the
-- world has an account and a character, and every request to the world service but a heartbeat or a
-- logout names a character, unless its session was closed between the check of one of its commands
-- and the read for the request; if no connection that opens while a command is routed draws the
-- identifier of the command's session.
pub run-new_gateway-IsSafe :
    (es : List Event)
    → All IsFreshEvent es
    → IsSafe (λ u. ever_closed_within es u ≡ true) (run es new_gateway)
run-new_gateway-IsSafe es f =
    run-IsSafe _ es new_gateway f (λ u c. c) (record { distinct = tt; sound = tt; carried = tt })
