-- ===== src/World.antt =====
-- crates/world/src/lib.rs: the world coordinator, which routes commands to the maps and counts the
-- players of each. A message is handled as one step from a state to the next and the effects that
-- the step has, in their order. A channel's sender is the number of its channel.
pub mod Maps
pub mod Counts
mod Examples
use helbreath_backend.Prelude.{
  ℕ, ◌+◌, ◌-◌, ◌%◌, ◌^◌, Bool, true, false, not, Option, none, some, List, [], ◌∷◌, ◌++◌, ltb,
  if◌then◌else◌,
}
use helbreath_backend.Prelude.Int.{ℤ, eqb_ℤ, int_eq}
use helbreath_backend.Prelude.Text.{Text}
use helbreath_backend.Prelude.Assoc.{Assoc, lookup, insert, remove}
use helbreath_backend.Domain.{Uuid}
use helbreath_backend.Application.{ClientCommand, enter_world, logout}
use helbreath_backend.Prelude.{nat_eq}

pub record RoutedCommand : Type 0 where
  pub session_id : Uuid
  pub character_id : Option Uuid
  pub command : ClientCommand

pub data WorldMessage : Type 0 where
  register_map : ℤ → ℕ → WorldMessage
  unregister_map : ℤ → WorldMessage
  route_to_map : ℤ → Uuid → Option Uuid → ClientCommand → WorldMessage
  broadcast : Text → WorldMessage
  get_stats : ℕ → WorldMessage

pub record WorldStats : Type 0 where
  pub online_players : ℕ
  pub players_by_map : List (ℤ × ℕ)

-- What a step sends: a command to a map's channel, or the statistics to the channel of a reply.
pub data Effect : Type 0 where
  send : ℕ → RoutedCommand → Effect
  reply : ℕ → WorldStats → Effect

pub record WorldState : Type 0 where
  pub map_senders : Assoc ℤ ℕ
  pub players_by_map : Assoc ℤ ℕ
  pub session_map : Assoc Uuid ℤ

-- `WorldCoordinator::new`
abbrev pub new_world : WorldState
new_world = record { map_senders = []; players_by_map = []; session_map = [] }

-- The value of an entry that is there or becomes 0.
unfoldable pub counter : ℤ → Assoc ℤ ℕ → ℕ
unfolding lookup
counter map_id counts = elim (lookup map_id counts) [ none ↦ 0 | some n ↦ n ]

-- `entry(map_id).or_insert(0)`
unfoldable pub open_entry : ℤ → Assoc ℤ ℕ → Assoc ℤ ℕ
unfolding counter insert
open_entry map_id counts = insert map_id (counter map_id counts) counts

-- `saturating_sub(1)` and `saturating_add(1)` of an entry that is opened before. A saturated u64
-- stays where it is.
pub leave_map : ℤ → Assoc ℤ ℕ → Assoc ℤ ℕ
unfolding counter insert
leave_map map_id counts = insert map_id (counter map_id counts - 1) counts

pub join_map : ℤ → Assoc ℤ ℕ → Assoc ℤ ℕ
unfolding counter insert
join_map map_id counts =
    let n = counter map_id counts in insert map_id (if ltb n (2 ^ 64 - 1) then n + 1 else n) counts

-- `session_map.retain(|_, current_map| *current_map != map_id)`
unfoldable pub retain_other : ℤ → Assoc Uuid ℤ → Assoc Uuid ℤ
retain_other map_id [] = []
retain_other map_id ((session, current) ∷ rest) =
    let kept = retain_other map_id rest in
    if eqb_ℤ current map_id then kept else (session, current) ∷ kept

-- The counters behind an `EnterWorld`, from the map that the session was in.
pub move_counts : Option ℤ → ℤ → Assoc ℤ ℕ → Assoc ℤ ℕ
unfolding join_map leave_map
move_counts none map_id counts = join_map map_id counts
move_counts (some prev) map_id counts =
    if eqb_ℤ prev map_id then counts else join_map map_id (leave_map prev counts)

or_map : Option ℤ → ℤ → ℤ
or_map none map_id = map_id
or_map (some m) map_id = m

-- The `match command` of `RouteToMap`.
unfoldable pub count_command : ℤ → Uuid → ClientCommand → WorldState → WorldState
unfolding move_counts leave_map or_map insert remove lookup
count_command map_id session enter_world s = record s {
  session_map = insert session map_id s.session_map;
  players_by_map = move_counts (lookup session s.session_map) map_id s.players_by_map;
}
count_command map_id session logout s = record s {
  session_map = remove session s.session_map;
  players_by_map = leave_map (or_map (lookup session s.session_map) map_id) s.players_by_map;
}
count_command map_id session command s = s

unfoldable pub deliver : Option ℕ → RoutedCommand → List Effect
deliver none command = []
deliver (some channel) command = send channel command ∷ []

pub sum_counts : Assoc ℤ ℕ → ℕ
sum_counts [] = 0
sum_counts ((m, n) ∷ rest) = n + sum_counts rest

-- The sum is a u64.
unfoldable pub stats_of : WorldState → WorldStats
unfolding sum_counts
stats_of s = record {
  online_players = sum_counts s.players_by_map % 2 ^ 64;
  players_by_map = s.players_by_map;
}

-- One round of `WorldCoordinator::run`.
unfoldable pub handle : WorldState → WorldMessage → WorldState × List Effect
unfolding open_entry retain_other count_command deliver stats_of insert remove lookup
handle s (register_map map_id channel) = (
  record s {
    map_senders = insert map_id channel s.map_senders;
    players_by_map = open_entry map_id s.players_by_map;
  },
  [],
)
handle s (unregister_map map_id) = (
  record s {
    map_senders = remove map_id s.map_senders;
    players_by_map = remove map_id s.players_by_map;
    session_map = retain_other map_id s.session_map;
  },
  [],
)
handle s (route_to_map map_id session character command) = (
  count_command map_id session command s,
  deliver (lookup map_id s.map_senders)
      (record { session_id = session; character_id = character; command = command }),
)
handle s (broadcast message) = (s, [])
handle s (get_stats channel) = (s, reply channel (stats_of s) ∷ [])

-- The loop of `run`, over the messages that arrive.
unfoldable pub run : WorldState → List WorldMessage → WorldState × List Effect
unfolding handle
run s [] = (s, [])
run s (m ∷ ms) =
    let (s', effects) = handle s m in let (s'', later) = run s' ms in (s'', effects ++ later)
