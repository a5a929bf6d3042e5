-- ===== src/Gateway.antt =====
-- apps/gateway/src/main.rs: the data of the gateway, which speaks with the clients on TCP and with
-- the authentication and world services on HTTP. An address is its number, 0.0.0.0 is 0.
pub mod Router
pub mod Session
pub mod Connections
mod Examples
use helbreath_backend.Prelude.{ℕ, Bool, true, false, List, [], ◌∷◌, ◌++◌, Option, none, some}
use helbreath_backend.Prelude.Int.{ℤ}
use helbreath_backend.Prelude.Text.{Text}
use helbreath_backend.Prelude.Assoc.{Assoc}
use helbreath_backend.Domain.{Uuid}
use helbreath_backend.Application.{LoginPayload, CharacterCreatePayload}

abbrev pub IpAddr : Type 0
IpAddr = ℕ

pub record SessionRuntime : Type 0 where
  pub remote_ip : IpAddr
  pub account_id : Option Uuid
  pub character_id : Option Uuid
  pub map_id : Option ℤ
  pub in_world : Bool

-- What `run_game_tcp` inserts for a new connection.
abbrev pub new_session : IpAddr → SessionRuntime
new_session ip = record {
  remote_ip = ip;
  account_id = none;
  character_id = none;
  map_id = none;
  in_world = false;
}

pub data WorldRouteCommandRequest : Type 0 where
  heartbeat enter_world : WorldRouteCommandRequest
  move : ℤ → ℤ → Bool → WorldRouteCommandRequest
  attack : Uuid → WorldRouteCommandRequest
  cast_skill : ℤ → Option Uuid → WorldRouteCommandRequest
  pickup_item : Uuid → WorldRouteCommandRequest
  drop_item : ℤ → ℤ → WorldRouteCommandRequest
  use_item : ℤ → WorldRouteCommandRequest
  npc_interaction : Uuid → WorldRouteCommandRequest
  chat : Text → WorldRouteCommandRequest
  whisper : Text → Text → WorldRouteCommandRequest
  guild_chat : Text → WorldRouteCommandRequest
  logout : WorldRouteCommandRequest

-- The HTTP requests of the gateway.
pub data Request : Type 0 where
  auth_login : Uuid → LoginPayload → IpAddr → Request
  auth_logout : Uuid → Request
  auth_character_list : Uuid → Request
  auth_character_create : Uuid → CharacterCreatePayload → Request
  auth_character_delete auth_character_select : Uuid → Uuid → Request
  world_route : ℤ → Uuid → Option Uuid → WorldRouteCommandRequest → Request

pub record AuthLoginResponse : Type 0 where
  pub accepted : Bool
  pub account_id : Option Uuid

pub record AuthCharacterSelectResponse : Type 0 where
  pub is_ok : Bool
  pub character_id : Option Uuid
  pub map_id : Option ℤ

-- What the services answer to the requests of one command, where the router reads the answer; none
-- stands for a request that fails, a status that is no success and a body that does not parse.
pub record Answers : Type 0 where
  pub login : Option AuthLoginResponse
  pub delete : Option Bool
  pub select : Option AuthCharacterSelectResponse
  pub world : Bool

-- What the tasks of the connections do to the table of sessions while the router works on a command:
-- `run_game_tcp` inserts a session, `handle_session` removes its own.
pub data Change : Type 0 where
  opened : Uuid → IpAddr → Change
  closed : Uuid → Change

-- The changes in front of the three places where the router takes the lock on the table again: the
-- check of the session, the read for a request, and the write behind the answer.
pub record Between : Type 0 where
  pub at_check : List Change
  pub at_request : List Change
  pub at_write : List Change

-- The sessions that the connections and the router share, and the requests made, in their order.
pub record Gateway : Type 0 where
  pub sessions : Assoc Uuid SessionRuntime
  pub requests : List Request

abbrev pub new_gateway : Gateway
new_gateway = record { sessions = []; requests = [] }
