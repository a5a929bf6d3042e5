-- ===== src/WorldService/Service/Route.antt =====
-- apps/gateway/src/main.rs, apps/world-service/src/main.rs, crates/world/src/lib.rs: the way of a
-- command from the gateway's router through the world service to the queue of a map instance.
use helbreath_backend.Prelude.{
  ℕ, ◌≡◌, refl, sym, ap, ◌∙◌, true, false, [], ◌∷◌, ◌++◌, Option, none, some, Bool-cases, inl, inr,
  nat_eq,
}
use helbreath_backend.Prelude.Int.{ℤ, eqb_ℤ, int_eq}
use helbreath_backend.Prelude.Assoc.{Assoc, lookup}
use helbreath_backend.Prelude.Assoc.Laws.{beq_refl}
use helbreath_backend.Domain.{Uuid}
use helbreath_backend.Application.{
  ClientCommand, move, attack, cast_skill, pickup_item, drop_item, use_item, npc_interaction, chat,
  whisper, guild_chat,
}
use helbreath_backend.MapServer.{IncomingCommand}
use helbreath_backend.World.{RoutedCommand, handle, run, deliver}
use helbreath_backend.WorldService.{
  RouteCommandRequest, RouteEnvelope, MapRuntimeHandle, command_of,
}
use helbreath_backend.WorldService.Service.{
  Service, receive, receive_all, forward, tell, route_command,
}
use helbreath_backend.WorldService.Service.Represents.{Active, Represents, channel_of}
use helbreath_backend.Gateway.{
  SessionRuntime, WorldRouteCommandRequest, Request, world_route, Answers, Between, Gateway,
}
use helbreath_backend.Gateway.Router.Changes.{opens, closes, changed_stays}
use helbreath_backend.Gateway.Router.{
  changed, is_in_world, resolve_map_id, send, route_world_command, route_in_world,
  route_client_command,
}

-- A handle whose instance has one more command in its queue.
abbrev pub queued : IncomingCommand → MapRuntimeHandle → MapRuntimeHandle
queued c h = record h { map_task = record h.map_task { rx = h.map_task.rx ++ (c ∷ []) } }

abbrev pub map_handle :
    (MapRuntimeHandle → MapRuntimeHandle) → Option MapRuntimeHandle → Option MapRuntimeHandle
map_handle f none = none
map_handle f (some h) = some (f h)

lookup-receive_all :
    (j : ℤ) (channel : ℕ) (r : RoutedCommand) (rs : Assoc ℤ MapRuntimeHandle)
    → lookup j (receive_all channel r rs) ≡ map_handle (receive channel r) (lookup j rs)
unfolding lookup receive_all
lookup-receive_all j channel r [] = refl
lookup-receive_all j channel r ((k, h) ∷ rs) = elim (Bool-cases (eqb_ℤ k j)) [
  | inl t ↦ rw t refl
  | inr t ↦ rw t (lookup-receive_all j channel r rs)
]

-- A command for an active map is queued at its instance, behind what waits there.
pub route_command_reaches :
    (a : Active) (s : Service) (map_id : ℤ) (req : RouteEnvelope) (h : MapRuntimeHandle)
    → Represents a s
    → lookup map_id s.map_manager.runtimes ≡ some h
    → lookup map_id (route_command map_id req s).1.map_manager.runtimes
      ≡ some (
          queued
            (record {
              session_id = req.session_id;
              character_id = req.character_id;
              command = command_of req.command;
            })
            h)
unfolding route_command tell run handle deliver forward receive
route_command_reaches a s map_id req h v e =
    let routed = v.routed map_id ∙ sym (v.running map_id) ∙ ap channel_of e in
    rw routed (
      lookup-receive_all map_id h.router_task _ s.map_manager.runtimes
      ∙ rw (e, beq_refl h.router_task) refl)

-- The body of a request over HTTP: both sides derive the same tags and field names for it.
abbrev pub over_http : WorldRouteCommandRequest → RouteCommandRequest
over_http WorldRouteCommandRequest.heartbeat = RouteCommandRequest.heartbeat
over_http WorldRouteCommandRequest.enter_world = RouteCommandRequest.enter_world
over_http (WorldRouteCommandRequest.move x y run) = RouteCommandRequest.move x y run
over_http (WorldRouteCommandRequest.attack target) = RouteCommandRequest.attack target
over_http (WorldRouteCommandRequest.cast_skill skill target) =
    RouteCommandRequest.cast_skill skill target
over_http (WorldRouteCommandRequest.pickup_item entity) = RouteCommandRequest.pickup_item entity
over_http (WorldRouteCommandRequest.drop_item slot quantity) =
    RouteCommandRequest.drop_item slot quantity
over_http (WorldRouteCommandRequest.use_item slot) = RouteCommandRequest.use_item slot
over_http (WorldRouteCommandRequest.npc_interaction npc) = RouteCommandRequest.npc_interaction npc
over_http (WorldRouteCommandRequest.chat message) = RouteCommandRequest.chat message
over_http (WorldRouteCommandRequest.whisper to message) = RouteCommandRequest.whisper to message
over_http (WorldRouteCommandRequest.guild_chat message) = RouteCommandRequest.guild_chat message
over_http WorldRouteCommandRequest.logout = RouteCommandRequest.logout

-- The world service takes a request of the gateway. The other requests go to the auth service.
abbrev pub relay : Request → Service → Service
relay (world_route map_id session character request) s =
    (route_command map_id
      (record { session_id = session; character_id = character; command = over_http request }) s).1
relay _ s = s

-- The commands of the game, and the gateway's request for each.
abbrev pub game_request : ClientCommand → Option WorldRouteCommandRequest
game_request (move x y run) = some (WorldRouteCommandRequest.move x y run)
game_request (attack target) = some (WorldRouteCommandRequest.attack target)
game_request (cast_skill skill target) = some (WorldRouteCommandRequest.cast_skill skill target)
game_request (pickup_item entity) = some (WorldRouteCommandRequest.pickup_item entity)
game_request (drop_item slot quantity) = some (WorldRouteCommandRequest.drop_item slot quantity)
game_request (use_item slot) = some (WorldRouteCommandRequest.use_item slot)
game_request (npc_interaction npc) = some (WorldRouteCommandRequest.npc_interaction npc)
game_request (chat message) = some (WorldRouteCommandRequest.chat message)
game_request (whisper to message) = some (WorldRouteCommandRequest.whisper to message)
game_request (guild_chat message) = some (WorldRouteCommandRequest.guild_chat message)
game_request _ = none

some_inj {ℓ} : {A : Type ℓ} (a b : A) → some a ≡ some b → a ≡ b
some_inj a b e = cc

-- The request means the command, and the router treats the command as the request.
game_request_lem :
    (answers : Answers) (between : Between) (session : Uuid) (hint : Option ℤ) (c : ClientCommand)
    (r : WorldRouteCommandRequest) (g : Gateway)
    → game_request c ≡ some r
    → (command_of (over_http r) ≡ c)
      × (route_client_command answers between session hint c g
          ≡ route_in_world between session hint r g)
unfolding command_of route_client_command
game_request_lem answers between session hint (move x y run) r g e =
    let same = some_inj _ r e in rw (← same) (refl, refl)
game_request_lem answers between session hint (attack t) r g e =
    let same = some_inj _ r e in rw (← same) (refl, refl)
game_request_lem answers between session hint (cast_skill k t) r g e =
    let same = some_inj _ r e in rw (← same) (refl, refl)
game_request_lem answers between session hint (pickup_item i) r g e =
    let same = some_inj _ r e in rw (← same) (refl, refl)
game_request_lem answers between session hint (drop_item i q) r g e =
    let same = some_inj _ r e in rw (← same) (refl, refl)
game_request_lem answers between session hint (use_item i) r g e =
    let same = some_inj _ r e in rw (← same) (refl, refl)
game_request_lem answers between session hint (npc_interaction n) r g e =
    let same = some_inj _ r e in rw (← same) (refl, refl)
game_request_lem answers between session hint (chat t) r g e =
    let same = some_inj _ r e in rw (← same) (refl, refl)
game_request_lem answers between session hint (whisper u t) r g e =
    let same = some_inj _ r e in rw (← same) (refl, refl)
game_request_lem answers between session hint (guild_chat t) r g e =
    let same = some_inj _ r e in rw (← same) (refl, refl)
game_request_lem answers between session hint _ r g e = absurd (cc e)

-- No connection of the session ends, or opens with its identifier, before the request is made.
pub record Stays (session : Uuid) (between : Between) : Type 0 where
  pub opens_check : opens session between.at_check ≡ false
  pub opens_request : opens session between.at_request ≡ false
  pub closes_check : closes session between.at_check ≡ false
  pub closes_request : closes session between.at_request ≡ false

-- A command of the game from a session that is in the world, for a map that is active, while other
-- connections open and end, but not the session's own: the gateway makes one request for it, and
-- when the world service has taken this request, the queue of the map's instance has the same
-- command, of the same session and character, behind what waits there.
pub in_world_command_reaches :
    (answers : Answers) (between : Between) (g : Gateway) (session : Uuid) (player : SessionRuntime)
    (hint : Option ℤ) (c : ClientCommand) (r : WorldRouteCommandRequest) (a : Active) (s : Service)
    (h : MapRuntimeHandle)
    → Stays session between
    → lookup session g.sessions ≡ some player
    → is_in_world (some player) ≡ true
    → game_request c ≡ some r
    → Represents a s
    → lookup (resolve_map_id (some player) hint) s.map_manager.runtimes ≡ some h
    → (q : Request) × ((route_client_command answers between session hint c g).requests
        ≡ g.requests ++ (q ∷ []))
      × (lookup (resolve_map_id (some player) hint) (relay q s).map_manager.runtimes
          ≡ some (
              queued
                (record { session_id = session; character_id = player.character_id; command = c })
                h))
unfolding route_in_world route_world_command send
in_world_command_reaches answers between g session player hint c r a s h there known inside game v
      runs =
    let map_id = resolve_map_id (some player) hint in
    let meant = game_request_lem answers between session hint c r g game in
    let checked =
      changed_stays session between.at_check g.sessions there.opens_check there.closes_check
      ∙ known in
    let read =
      changed_stays session between.at_request (changed between.at_check g.sessions)
        there.opens_request there.closes_request
      ∙ checked in
    (
      world_route map_id session player.character_id r,
      ap (λ (x : Gateway). x.requests) meant.1 ∙ rw (known, checked, inside, read) refl,
      route_command_reaches a s map_id _ h v runs ∙ rw meant.0 refl,
    )
