-- ===== src/Lib.antt =====
-- The backend of the game server, as far as its own logic goes: the client protocol, the gateway that
-- speaks it, the services behind the gateway, the coordinator that routes commands to the maps, the
-- map instance that plays them, the database statements, and the actions of the administrators.
--
-- A client's bytes reach the gateway (apps/gateway/src/main.rs), which cuts them into frames, limits
-- their rate, decodes and translates each into a command, and checks it against the phase of the
-- session. Its router passes a command to the auth service (apps/auth-service/src/main.rs, with
-- crates/auth/src/lib.rs) or to the world service (apps/world-service/src/main.rs), chat included. The
-- world service's coordinator (crates/world/src/lib.rs) counts the players of each map and hands the
-- command to the map's instance (crates/map_server/src/lib.rs), which handles it in one of its ticks.
-- The chat service (apps/chat-service/src/main.rs, with crates/chat/src/lib.rs) stands by itself.
-- Accounts, sessions and characters are rows of the database (crates/infrastructure/src/lib.rs, on the
-- tables of migrations/0001_init.sql), which the jobs runner (apps/jobs-runner/src/main.rs) clears.
-- Administrators act through apps/admin-api/src/main.rs on the database and the world service, each
-- with the permissions of crates/admin_portal/src/lib.rs.
--
-- Files, and what they model:
-- Prelude and its children: shared helpers. Int is i16, i32 and i64, Text a string as the list of its
--   code points, Assoc a HashMap or BTreeMap as a list of pairs, Results Rust's Result with `?`.
-- Domain: crates/domain/src/lib.rs, the validated values (normalized_text, Account::new,
--   CharacterStats::validate, Character::new, InventorySlot::validate), with the
--   proofs in Domain/Rules. `UuidCrate` stands for the crate uuid; its one law is that a text that
--   parses has 32 bytes or more.
-- Application: crates/application/src/lib.rs, the commands and validate_client_command.
--   Application/Permission says which command is open in which state.
-- Net: crates/net/src/lib.rs, the opcode tables, error codes and phases. Net/Frame is decode_frame,
--   encode_frame and split_frames; Net/Codec the compression, the obfuscation and the wire frames;
--   Net/Client translate_packet; Net/Server translate_server_packet; Net/RateLimiter the token bucket.
-- World: crates/world/src/lib.rs, WorldCoordinator::run as a step `handle` from a state and a message
--   to the next state and what is sent. World/Maps and World/Counts hold the proofs.
-- MapServer: crates/map_server/src/lib.rs, MapInstance. Input is drain_incoming_queue and system_input,
--   Systems the other systems, Tick process_tick and the rounds of run.
-- Gateway: apps/gateway/src/main.rs. Router is run_internal_router with all that it calls, Session is
--   handle_session, Connections the count of the connections per address in run_game_tcp.
-- WorldService: apps/world-service/src/main.rs. Manager is MapRuntimeManager, Service the handlers
--   over the manager, the coordinator and the queues of the instances, with the startup; Outbound is
--   the task that keeps the newest events, with its query. Service/Represents and Service/Active have
--   the abstract set of active maps, Service/Route the way of a command from the gateway, Service/Race
--   a race.
-- Chat: crates/chat/src/lib.rs, the envelopes; Chat/Service the handlers of the chat service.
-- Infrastructure: the tables as lists of rows. Accounts is the AccountRepository of PgRepository,
--   Admin its statements for administrators, Persist the transactions that a map's events end in, Run
--   any sequence of calls, with `run_tick` of the jobs runner. Characters, Slots, Freed, Sessions and
--   Bound hold proofs.
-- Auth: crates/auth/src/lib.rs, validate_credentials, over the interface `AccountRepository`, a record
--   of the repository's operations. Auth/RateWindow is is_rate_limited, Auth/Handlers the handlers
--   of the auth service. Auth/Postgres fills the interface with the statements of Infrastructure, and
--   Auth/Accounts follows a new character through them. `Argon2` stands for the crate argon2.
-- AdminPortal: crates/admin_portal/src/lib.rs, roles and permissions.
-- AdminApi: apps/admin-api/src/main.rs, the sessions of administrators and `authenticate`.
--   AdminApi/Actions has the handlers that act, over the database and the world service together;
--   Guard, Maps, Bans and Audit hold the proofs.
-- The module Examples of each part holds concrete runs.
--
-- Numbers are natural numbers or integers, with the wrapping, saturating and clamping of the source
-- written out. Where the source draws a fresh id or the time, the definition has an argument. A send
-- on a channel is an entry of a log, in the order of the sends; that a receiver may be gone does not
-- change the sender's state in the source, and does not here. The order of a HashMap's iteration is
-- that of a list, which is arbitrary.
--
-- Fuel: split_frames runs on the length of the buffer and one, since a frame takes two bytes or more;
-- compress and decompress run on the length of the payload, since a round takes one byte or more.
-- All else is structural recursion.
--
-- Concurrency: the router of the gateway takes the lock on the table of sessions anew for each access,
-- and the tasks of the connections open and close sessions in between; what they do there is an
-- argument, `Between`, of the routing of a command, as are the answers of the services. The world
-- service's coordinator takes the messages of a handler before the next handler runs, except in
-- WorldService/Service/Race.
--
-- Simplifications: the doubles of the token bucket are whole numbers of units, and their rounding is a
-- parameter, `F64`, that errs by at most one part in 2^53. What `chrono` makes of a number of minutes
-- is a parameter, with a panic as a value. The reads of a session come with the instants and with what
-- Redis answers. A statement of the database, and a transaction, is one step, which changes nothing
-- when the database refuses it for a key, a missing row or a text that is no address; that the
-- connection fails is left out, but in the handlers of the auth service a timeout may fall before or
-- behind the statements. A table has the keys and foreign keys that the statements rely on, and no
-- widths of texts but that of the gateway's node. The audit log keeps no payloads, and administrators
-- reach the world service or do not, as an argument says.
--
-- Not modelled: the map server app (apps/map-server/src/main.rs), which runs one instance by itself; of
-- the admin api the pages, the dashboard, the searches, the audit query and the control of systemd; of
-- the repository the searches, the inventory and the administrators' own rows; health and metrics
-- routes; configuration, metrics, traces, the protobuf records and the test support.
pub mod Prelude
pub mod Domain
pub mod Application
pub mod Net
pub mod World
pub mod MapServer
pub mod Gateway
pub mod WorldService
pub mod Chat
pub mod Infrastructure
pub mod Auth
pub mod AdminPortal
pub mod AdminApi
