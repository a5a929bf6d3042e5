-- ===== src/MapServer/Systems.antt =====
-- crates/map_server/src/lib.rs: the systems of a tick behind the input.
use helbreath_backend.Prelude.{
  ℕ, ◌+◌, ◌%◌, Bool, Option, none, some, List, [], ◌∷◌, ◌++◌, nat_eq, ◌==◌, if◌then◌else◌, length,
}
use helbreath_backend.Prelude.Int.{
  ℤ, pos, ltb_ℤ, eqb_ℤ, max_ℤ, sub32, add32, abs32, rem, int_to_string, decimal,
}
use helbreath_backend.Prelude.Text.{Text, codes}
use helbreath_backend.Prelude.Assoc.{Assoc, lookup, insert, remove}
use helbreath_backend.Domain.{Uuid}
use helbreath_backend.MapServer.{
  text, position, combat_result, save_inventory_change, save_combat_log, Sent, outbound, persist,
  PlayerState, ScheduledEvent, MapInstance, emit,
}

-- `process_scheduled_events`
unfoldable pub event_sends : List ScheduledEvent → List Sent
event_sends [] = []
event_sends (e ∷ es) = outbound e.event ∷ event_sends es

unfoldable pub due_events : Option (List ScheduledEvent) → List Sent
unfolding event_sends
due_events none = []
due_events (some events) = event_sends events

unfoldable pub process_scheduled_events : MapInstance → MapInstance
unfolding due_events lookup remove
process_scheduled_events m =
    emit (due_events (lookup m.tick_index m.scheduled))
      (record m { scheduled = remove m.tick_index m.scheduled })

unfoldable pub position_sends : Assoc Uuid PlayerState → List Sent
position_sends [] = []
position_sends ((session, p) ∷ rest) = outbound (position session p.x p.y) ∷ position_sends rest

unfoldable pub system_movement : MapInstance → MapInstance
unfolding position_sends
system_movement m = emit (position_sends m.players) m

-- `(hp - damage).max(0)`
unfoldable pub wound : ℤ → PlayerState → PlayerState
unfolding sub32
wound damage p = record p { hp = max_ℤ (sub32 p.hp damage) (pos 0) }

unfoldable pub attack_damage : ℕ → ℤ
attack_damage tick = pos (5 + tick % 4)

pub record ResolvedAttack : Type 0 where
  pub attacker : Uuid
  pub defender : Uuid
  pub attacker_character_id : Uuid
  pub defender_character_id : Uuid
  pub damage : ℤ
  pub defeated : Bool

unfoldable pub resolve_attack :
    ℤ
    → Uuid
    → Uuid
    → Option PlayerState
    → Option PlayerState
    → Assoc Uuid PlayerState
    → Assoc Uuid PlayerState × List ResolvedAttack
unfolding wound
resolve_attack damage attacker defender (some a) (some d) players =
    let d' = wound damage d in
    (
      insert defender d' players,
      record {
        attacker = attacker;
        defender = defender;
        attacker_character_id = a.character_id;
        defender_character_id = d.character_id;
        damage = damage;
        defeated = eqb_ℤ d'.hp (pos 0);
      }
          ∷ [],
    )
resolve_attack damage attacker defender _ _ players = (players, [])

-- The first loop of `system_combat`.
unfoldable pub resolve_attacks :
    ℤ → List (Uuid × Uuid) → Assoc Uuid PlayerState → Assoc Uuid PlayerState × List ResolvedAttack
unfolding resolve_attack
resolve_attacks damage [] players = (players, [])
resolve_attacks damage ((attacker, defender) ∷ rest) players =
    let (players', one) =
      resolve_attack damage attacker defender (lookup attacker players) (lookup defender players)
        players in
    let (players'', more) = resolve_attacks damage rest players' in (players'', one ++ more)

-- The second loop: what is sent for the resolved attacks.
unfoldable pub attack_sends : ℤ → List ResolvedAttack → List Sent
attack_sends map_id [] = []
attack_sends map_id (r ∷ rest) =
    outbound (combat_result r.attacker r.defender r.damage)
    ∷ persist (save_combat_log r.attacker_character_id r.defender_character_id map_id r.damage)
    ∷ ((if r.defeated then outbound (text r.defender (codes "you are defeated")) ∷ [] else [])
        ++ attack_sends map_id rest)

pub record ResolvedSkill : Type 0 where
  pub caster : Uuid
  pub caster_character_id : Uuid
  pub skill_id : ℤ
  pub target_id : Option Uuid

-- A cast: the caster without its mana, what is sent, and the skill, if it is resolved.
unfoldable pub pay_skill :
    Uuid
    → ℤ
    → Option Uuid
    → Option PlayerState
    → Assoc Uuid PlayerState
    → Assoc Uuid PlayerState × List Sent × List ResolvedSkill
unfolding sub32
pay_skill caster skill target none players = (players, [], [])
pay_skill caster skill target (some p) players =
    if ltb_ℤ p.mp (pos 10)
    then (players, outbound (text caster (codes "not enough mana")) ∷ [], [])
    else (
      insert caster (record p { mp = sub32 p.mp (pos 10) }) players,
      [],
      record {
        caster = caster;
        caster_character_id = p.character_id;
        skill_id = skill;
        target_id = target;
      }
          ∷ [],
    )

-- The third loop.
unfoldable pub pay_skills :
    List (Uuid × ℤ × Option Uuid)
    → Assoc Uuid PlayerState
    → Assoc Uuid PlayerState × List Sent × List ResolvedSkill
unfolding pay_skill
pay_skills [] players = (players, [], [])
pay_skills ((caster, skill, target) ∷ rest) players =
    let (players', out, one) = pay_skill caster skill target (lookup caster players) players in
    let (players'', out', more) = pay_skills rest players' in (players'', out ++ out', one ++ more)

-- `10 + (skill_id.abs() % 7)`
unfoldable pub skill_damage : ℤ → ℤ
unfolding add32 abs32 rem
skill_damage skill = add32 (pos 10) (rem (abs32 skill) 7)

unfoldable pub hit_target :
    ℤ
    → ResolvedSkill
    → Uuid
    → Option PlayerState
    → Assoc Uuid PlayerState
    → Assoc Uuid PlayerState × List Sent
unfolding wound skill_damage
hit_target map_id r target none players = (players, [])
hit_target map_id r target (some p) players =
    let damage = skill_damage r.skill_id in
    (
      insert target (wound damage p) players,
      outbound (combat_result r.caster target damage)
          ∷ persist (save_combat_log r.caster_character_id p.character_id map_id damage)
          ∷ [],
    )

unfoldable pub apply_skill :
    ℤ → ResolvedSkill → Option Uuid → Assoc Uuid PlayerState → Assoc Uuid PlayerState × List Sent
unfolding hit_target int_to_string
apply_skill map_id r (some target) players =
    hit_target map_id r target (lookup target players) players
apply_skill map_id r none players =
    (players, outbound (text r.caster (codes "skill_cast:" ++ int_to_string r.skill_id)) ∷ [])

-- The fourth loop.
unfoldable pub apply_skills :
    ℤ → List ResolvedSkill → Assoc Uuid PlayerState → Assoc Uuid PlayerState × List Sent
unfolding apply_skill
apply_skills map_id [] players = (players, [])
apply_skills map_id (r ∷ rest) players =
    let (players', out) = apply_skill map_id r r.target_id players in
    let (players'', out') = apply_skills map_id rest players' in (players'', out ++ out')

unfoldable pub system_attacks : MapInstance → MapInstance
unfolding resolve_attacks attack_sends attack_damage
system_attacks m =
    let (players, resolved) =
      resolve_attacks (attack_damage m.tick_index) m.pending_attacks m.players in
    emit (attack_sends m.config.map_id resolved)
      (record m { players = players; pending_attacks = [] })

unfoldable pub system_skills : MapInstance → MapInstance
unfolding pay_skills apply_skills
system_skills m =
    let (players, out, resolved) = pay_skills m.pending_skill_casts m.players in
    let (players', out') = apply_skills m.config.map_id resolved players in
    emit (out ++ out') (record m { players = players'; pending_skill_casts = [] })

-- `system_combat`: the attacks, then the skills.
unfoldable pub system_combat : MapInstance → MapInstance
unfolding system_attacks system_skills
system_combat m = system_skills (system_attacks m)

unfoldable pub first_player : Assoc Uuid PlayerState → List Sent
first_player [] = []
first_player ((session, p) ∷ rest) = outbound (text session (codes "npc_ai_tick")) ∷ []

unfoldable pub system_ai : MapInstance → MapInstance
unfolding first_player
system_ai m = if m.tick_index % 100 == 0 then emit (first_player m.players) m else m

unfoldable pub aoi_sends : ℕ → Assoc Uuid PlayerState → List Sent
unfolding decimal
aoi_sends population [] = []
aoi_sends population ((session, p) ∷ rest) =
    outbound (text session (codes "aoi_update:visible=" ++ decimal population))
    ∷ aoi_sends population rest

unfoldable pub system_aoi : MapInstance → MapInstance
unfolding aoi_sends
system_aoi m = if m.tick_index % 40 == 0 then emit (aoi_sends (length m.players) m.players) m else m

unfoldable pub inventory_sends : ℤ → List (Uuid × Text) → List Sent
inventory_sends map_id [] = []
inventory_sends map_id ((character, reason) ∷ rest) =
    persist (save_inventory_change character map_id reason) ∷ inventory_sends map_id rest

unfoldable pub system_inventory : MapInstance → MapInstance
unfolding inventory_sends
system_inventory m =
    emit (inventory_sends m.config.map_id m.pending_inventory_changes)
      (record m { pending_inventory_changes = [] })
