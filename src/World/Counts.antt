-- ===== src/World/Counts.antt =====
-- crates/world/src/lib.rs: the player counters and the sessions of each map.
use helbreath_backend.Prelude.{
  ℕ, ◌+◌, ◌-◌, ◌%◌, ◌^◌, ◌≤◌, ◌<◌, ◌≡◌, ◌≢◌, refl, ◌∙◌, List, [], ◌∷◌, Option, none, some, arith,
  if◌then◌else◌, Bool-cases, Option-cases, inl, inr, length, nat_eq, lt→ltb,
}
use helbreath_backend.Prelude.Int.{ℤ, eqb_ℤ, eqb_ℤ_iff, int_eq}
use helbreath_backend.Prelude.Assoc.{Assoc, lookup, insert, remove, Distinct}
use helbreath_backend.Prelude.Assoc.Laws.{
  lookup-insert, lookup-remove, Distinct-insert, Distinct-remove, beq_refl,
}
use helbreath_backend.Domain.{Uuid}
use helbreath_backend.Application.{ClientCommand, enter_world, logout}
use helbreath_backend.World.{
  WorldState, WorldMessage, register_map, unregister_map, route_to_map, broadcast, get_stats,
  counter, open_entry, leave_map, join_map, move_counts, or_map, count_command, sum_counts,
  stats_of, handle, run, new_world, reply,
}
use helbreath_backend.World.Maps.{
  sessions_in, is_in, sessions_in-insert, sessions_in-remove, sessions_in-retain_other,
  Distinct-retain_other, sessions_in-le, sum_counts-sessions, sessions_counted_all,
  counter-AllCounted,
}

-- Each counter is the number of sessions that stand in its map, and no key stands twice.
pub record IsCounted (s : WorldState) : Type 0 where
  pub sessions : Distinct s.session_map
  pub maps : Distinct s.players_by_map
  pub exact : (m : ℤ) → counter m s.players_by_map ≡ sessions_in m s.session_map

counter_of_lookup :
    (j : ℤ) (n : ℕ) (counts : Assoc ℤ ℕ) → lookup j counts ≡ some n → n ≡ counter j counts
unfolding counter
counter_of_lookup j n counts e = ground (arith, e)

counter-insert :
    (k j : ℤ) (n : ℕ) (counts : Assoc ℤ ℕ)
    → counter j (insert k n counts) ≡ (if eqb_ℤ k j then n else counter j counts)
unfolding counter
counter-insert k j n counts = ground (arith, lookup-insert k j n counts)

counter-remove :
    (k j : ℤ) (counts : Assoc ℤ ℕ)
    → Distinct counts
    → counter j (remove k counts) ≡ (if eqb_ℤ k j then 0 else counter j counts)
unfolding counter
counter-remove k j counts d = ground (arith, lookup-remove k j counts d)

counter-open_entry :
    (k j : ℤ) (counts : Assoc ℤ ℕ) → counter j (open_entry k counts) ≡ counter j counts
unfolding open_entry
counter-open_entry k j counts =
    ground (arith, counter-insert k j (counter k counts) counts, eqb_ℤ_iff k j)

counter-leave_map :
    (k j : ℤ) (counts : Assoc ℤ ℕ)
    → counter j (leave_map k counts)
      ≡ (if eqb_ℤ k j then counter j counts - 1 else counter j counts)
unfolding leave_map
counter-leave_map k j counts =
    ground (arith, counter-insert k j (counter k counts - 1) counts, eqb_ℤ_iff k j)

counter-join_map :
    (k j : ℤ) (counts : Assoc ℤ ℕ)
    → counter k counts < 2 ^ 64 - 1
    → counter j (join_map k counts) ≡ (if eqb_ℤ k j then counter j counts + 1 else counter j counts)
unfolding join_map
counter-join_map k j counts room =
    rw (lt→ltb (counter k counts) (2 ^ 64 - 1) room)
      (ground (arith, counter-insert k j (counter k counts + 1) counts, eqb_ℤ_iff k j))

Distinct-join_map : (k : ℤ) (counts : Assoc ℤ ℕ) → Distinct counts → Distinct (join_map k counts)
unfolding join_map
Distinct-join_map k counts d = Distinct-insert k _ counts d

Distinct-leave_map : (k : ℤ) (counts : Assoc ℤ ℕ) → Distinct counts → Distinct (leave_map k counts)
unfolding leave_map
Distinct-leave_map k counts d = Distinct-insert k _ counts d

Distinct-move_counts :
    (prev : Option ℤ) (k : ℤ) (counts : Assoc ℤ ℕ)
    → Distinct counts
    → Distinct (move_counts prev k counts)
unfolding move_counts
Distinct-move_counts none k counts d = Distinct-join_map k counts d
Distinct-move_counts (some p) k counts d = elim (Bool-cases (eqb_ℤ p k)) [
  | inl t ↦ rw t d
  | inr t ↦ rw t (Distinct-join_map k (leave_map p counts) (Distinct-leave_map p counts d))
]

-- The counters behind a move, where the session's old map counts it.
counter-move_counts :
    (prev : Option ℤ) (k j : ℤ) (counts : Assoc ℤ ℕ)
    → counter k counts < 2 ^ 64 - 1
    → is_in j prev ≤ counter j counts
    → counter j (move_counts prev k counts) + is_in j prev
      ≡ counter j counts + (if eqb_ℤ k j then 1 else 0)
unfolding move_counts
counter-move_counts none k j counts room h = ground (arith, counter-join_map k j counts room)
counter-move_counts (some p) k j counts room h = elim (Bool-cases (eqb_ℤ p k)) [
  | inl t ↦ let same = (eqb_ℤ_iff p k).0 t in rw (t, same) refl
  | inr t ↦ rw t (
      ground (
        arith,
        counter-join_map k j (leave_map p counts),
        counter-leave_map p j counts,
        counter-leave_map p k counts,
        eqb_ℤ_iff p k,
        eqb_ℤ_iff p j,
        eqb_ℤ_iff k j,
      ))
]

pub sessions_in_old :
    (j : ℤ) (session : Uuid) (sm : Assoc Uuid ℤ) → is_in j (lookup session sm) ≤ sessions_in j sm
sessions_in_old j session sm = omega (arith, sessions_in-remove j session sm)

module _ (s : WorldState) (v : IsCounted s) where
  -- A session that enters a map, from no map, from this one or from another.
  enter-IsCounted :
      (k : ℤ) (session : Uuid)
      → length s.session_map < 2 ^ 64 - 1
      → IsCounted (count_command k session enter_world s)
  unfolding count_command
  enter-IsCounted k session room = record {
    sessions = Distinct-insert session k s.session_map v.sessions;
    maps = Distinct-move_counts (lookup session s.session_map) k s.players_by_map v.maps;
    exact = λ j. omega (
      arith,
      v.exact j,
      sessions_in_old j session s.session_map,
      sessions_in-insert j session k s.session_map,
      counter-move_counts (lookup session s.session_map) k j s.players_by_map
          (omega (arith, v.exact k, sessions_in-le k s.session_map))
          (omega (arith, v.exact j, sessions_in_old j session s.session_map)),
    );
  }

  -- A session that is in a map leaves it.
  leave-IsCounted :
      (k : ℤ) (session : Uuid)
      → lookup session s.session_map ≢ none
      → IsCounted (count_command k session logout s)
  unfolding count_command or_map
  leave-IsCounted k session there = elim (Option-cases (lookup session s.session_map)) [
    | inl e ↦ absurd (there e)
    | inr (p, e) ↦ rw e (record {
      sessions = Distinct-remove session s.session_map v.sessions;
      maps = Distinct-leave_map p s.players_by_map v.maps;
      exact = λ j. ground (
        arith,
        v.exact j,
        sessions_in-remove j session s.session_map,
        e,
        counter-leave_map p j s.players_by_map,
      );
    })
  ]

  unregister-IsCounted : (k : ℤ) → IsCounted (handle s (unregister_map k)).0
  unfolding handle
  unregister-IsCounted k = record {
    sessions = Distinct-retain_other k s.session_map v.sessions;
    maps = Distinct-remove k s.players_by_map v.maps;
    exact = λ j. ground (
      arith,
      v.exact j,
      counter-remove k j s.players_by_map v.maps,
      sessions_in-retain_other j k s.session_map,
    );
  }

  register-IsCounted : (k : ℤ) (channel : ℕ) → IsCounted (handle s (register_map k channel)).0
  unfolding handle
  register-IsCounted k channel = record {
    sessions = v.sessions;
    maps = unfold open_entry in Distinct-insert k _ s.players_by_map v.maps;
    exact = λ j. counter-open_entry k j s.players_by_map ∙ v.exact j;
  }

-- There is room for one more session, and a logout names a session that is in a map.
abbrev pub IsOrderly : WorldState → WorldMessage → Type 0
IsOrderly s (route_to_map k session character enter_world) = length s.session_map < 2 ^ 64 - 1
IsOrderly s (route_to_map k session character logout) = lookup session s.session_map ≢ none
IsOrderly s _ = Unit

count_command-IsCounted :
    (s : WorldState) (k : ℤ) (session : Uuid) (character : Option Uuid) (c : ClientCommand)
    → IsCounted s
    → IsOrderly s (route_to_map k session character c)
    → IsCounted (count_command k session c s)
unfolding count_command
count_command-IsCounted s k session character enter_world v h = enter-IsCounted s v k session h
count_command-IsCounted s k session character logout v h = leave-IsCounted s v k session h
count_command-IsCounted s k session character _ v h = v

-- Every message keeps the counters equal to the sessions of each map: registering and unregistering a
-- map, entering one, moving to another, every other command, a broadcast and a question for the
-- statistics; a logout, if it names a session that is in a map, and an entry if there are
-- fewer than 2 ^ 64 - 1 sessions.
pub handle-IsCounted :
    (s : WorldState) (m : WorldMessage) → IsCounted s → IsOrderly s m → IsCounted (handle s m).0
unfolding handle
handle-IsCounted s (register_map k channel) v h = register-IsCounted s v k channel
handle-IsCounted s (unregister_map k) v h = unregister-IsCounted s v k
handle-IsCounted s (route_to_map k session character c) v h =
    count_command-IsCounted s k session character c v h
handle-IsCounted s (broadcast message) v h = v
handle-IsCounted s (get_stats channel) v h = v

-- A logout of a session that is in no map, routed to a map that has players, makes the
-- counters wrong where they were right: they are no longer the sessions of each map.
pub stray_logout :
    (s : WorldState) (k : ℤ) (session : Uuid) (character : Option Uuid)
    → IsCounted s
    → lookup session s.session_map ≡ none
    → 0 < sessions_in k s.session_map
    → ¬ IsCounted (handle s (route_to_map k session character logout)).0
unfolding handle count_command or_map
stray_logout s k session character v absent busy w =
    let wrong : counter k (leave_map k s.players_by_map)
        ≡ sessions_in k (remove session s.session_map) =
      rw absent at (w.exact k) in
    ground (
      arith,
      wrong,
      absent,
      v.exact k,
      beq_refl k,
      counter-leave_map k k s.players_by_map,
      sessions_in-remove k session s.session_map,
    )

abbrev pub IsOrderlyRun : WorldState → List WorldMessage → Type 0
IsOrderlyRun s [] = Unit
IsOrderlyRun s (m ∷ ms) = IsOrderly s m × IsOrderlyRun (handle s m).0 ms

run-IsCounted_from :
    (s : WorldState) (ms : List WorldMessage)
    → IsCounted s
    → IsOrderlyRun s ms
    → IsCounted (run s ms).0
unfolding run
run-IsCounted_from s [] v h = v
run-IsCounted_from s (m ∷ ms) v h =
    run-IsCounted_from (handle s m).0 ms (handle-IsCounted s m v h.0) h.1

pub new_world-IsCounted : IsCounted new_world
unfolding counter
new_world-IsCounted = record { sessions = tt; maps = tt; exact = λ j. refl }

-- From the start, behind every sequence of messages in which each logout names a session that is in a
-- map, and with fewer than 2 ^ 64 - 1 sessions at each entry and 2 ^ 64 at the end, the counters are the sessions of each map, and a question for the statistics is answered, on
-- its channel, by the number of sessions that are in a map and by these counters.
pub run-stats :
    (ms : List WorldMessage) (channel : ℕ)
    → IsOrderlyRun new_world ms
    → length (run new_world ms).0.session_map < 2 ^ 64
    → IsCounted (run new_world ms).0
      × ((handle (run new_world ms).0 (get_stats channel)).1
          ≡ reply channel (record {
            online_players = length (run new_world ms).0.session_map;
            players_by_map = (run new_world ms).0.players_by_map;
          })
            ∷ [])
unfolding handle stats_of
run-stats ms channel orderly small =
    let s = (run new_world ms).0 in
    let v = run-IsCounted_from new_world ms new_world-IsCounted orderly in
    (v, rw (online s v small))
  where
    of_lookup :
        (s : WorldState) (v : IsCounted s) (j : ℤ) (n : ℕ)
        → lookup j s.players_by_map ≡ some n
        → n ≡ sessions_in j s.session_map
    of_lookup s v j n e = counter_of_lookup j n s.players_by_map e ∙ v.exact j

    online :
        (s : WorldState)
        → IsCounted s
        → length s.session_map < 2 ^ 64
        → sum_counts s.players_by_map % 2 ^ 64 ≡ length s.session_map
    online s v small =
        let total =
          sum_counts-sessions s.players_by_map s.session_map v.maps (of_lookup s v)
          ∙ sessions_counted_all s.players_by_map s.session_map v.maps
              (counter-AllCounted s.players_by_map s.session_map (λ j. omega (arith, v.exact j))) in
        rw total (omega arith)
