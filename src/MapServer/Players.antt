-- ===== src/MapServer/Players.antt =====
-- crates/map_server/src/lib.rs: the table of players through a tick.
use helbreath_backend.Prelude.{
  ℕ, List, [], ◌∷◌, Option, none, some, arith, Bool-cases, inl, inr, nat_eq, ◌==◌,
}
use helbreath_backend.Prelude.Int.{ℤ, pos, ltb_ℤ}
use helbreath_backend.Prelude.Assoc.{Assoc, lookup, insert, remove, Distinct}
use helbreath_backend.Prelude.Assoc.Laws.{Distinct-insert, Distinct-remove}
use helbreath_backend.Domain.{Uuid, UuidCrate}
use helbreath_backend.Application.{ClientCommand, enter_world, move, logout}
use helbreath_backend.MapServer.{MapInstance, IncomingCommand, PlayerState}
use helbreath_backend.MapServer.Input.{
  enter_player, move_player, unwrap_or, input_command, system_input,
}
use helbreath_backend.MapServer.Systems.{
  attack_damage, resolve_attack, resolve_attacks, pay_skill, pay_skills, hit_target, apply_skill,
  apply_skills, ResolvedSkill, system_combat, skill_damage,
}
use helbreath_backend.MapServer.Tick.{tick, run}
use helbreath_backend.MapServer.Damage.{
  IsHealthy, wound-IsHealthy, IsPoints-pay, attack_damage_range, skill_damage_range,
}

abbrev pub Players : Type 0
Players = Assoc Uuid PlayerState

abbrev pub AllHealthy : Players → Type 0
AllHealthy [] = Unit
AllHealthy ((k, p) ∷ rest) = IsHealthy p × AllHealthy rest

-- No session stands twice, and the points of every player are between 0 and 100.
pub record IsFit (players : Players) : Type 0 where
  pub distinct : Distinct players
  pub healthy : AllHealthy players

AllHealthy-insert :
    (k : Uuid) (p : PlayerState) (players : Players)
    → AllHealthy players
    → IsHealthy p
    → AllHealthy (insert k p players)
unfolding insert
AllHealthy-insert k p [] h w = (w, tt)
AllHealthy-insert k p ((i, q) ∷ rest) h w = elim (Bool-cases (i == k)) [
  | inl t ↦ rw t (w, h.1)
  | inr t ↦ rw t (h.0, AllHealthy-insert k p rest h.1 w)
]

AllHealthy-remove :
    (k : Uuid) (players : Players) → AllHealthy players → AllHealthy (remove k players)
unfolding remove
AllHealthy-remove k [] h = tt
AllHealthy-remove k ((i, q) ∷ rest) h = elim (Bool-cases (i == k)) [
  | inl t ↦ rw t h.1
  | inr t ↦ rw t (h.0, AllHealthy-remove k rest h.1)
]

-- What stands behind a key is healthy.
abbrev HealthyOption : Option PlayerState → Type 0
HealthyOption none = Unit
HealthyOption (some p) = IsHealthy p

healthy_lookup :
    (k : Uuid) (players : Players) → AllHealthy players → HealthyOption (lookup k players)
unfolding lookup
healthy_lookup k [] h = tt
healthy_lookup k ((i, q) ∷ rest) h = elim (Bool-cases (i == k)) [
  | inl t ↦ rw t h.0
  | inr t ↦ rw t (healthy_lookup k rest h.1)
]

IsFit-insert :
    (k : Uuid) (p : PlayerState) (players : Players)
    → IsFit players
    → IsHealthy p
    → IsFit (insert k p players)
IsFit-insert k p players f h = record {
  distinct = Distinct-insert k p players f.distinct;
  healthy = AllHealthy-insert k p players f.healthy h;
}

IsFit-remove : (k : Uuid) (players : Players) → IsFit players → IsFit (remove k players)
IsFit-remove k players f = record {
  distinct = Distinct-remove k players f.distinct;
  healthy = AllHealthy-remove k players f.healthy;
}

resolve_attack-IsFit :
    (tick : ℕ) (attacker defender : Uuid) (a d : Option PlayerState) (players : Players)
    → HealthyOption d
    → IsFit players
    → IsFit (resolve_attack (attack_damage tick) attacker defender a d players).0
unfolding resolve_attack
resolve_attack-IsFit tick attacker defender (some a) (some d) players h f =
    IsFit-insert defender _ players f (
      wound-IsHealthy (attack_damage tick) d (omega (arith, attack_damage_range tick))
        (omega (arith, attack_damage_range tick)) h)
resolve_attack-IsFit tick attacker defender _ _ players h f = f

resolve_attacks-IsFit :
    (tick : ℕ) (attacks : List (Uuid × Uuid)) (players : Players)
    → IsFit players
    → IsFit (resolve_attacks (attack_damage tick) attacks players).0
unfolding resolve_attacks
resolve_attacks-IsFit tick [] players f = f
resolve_attacks-IsFit tick ((attacker, defender) ∷ rest) players f =
    resolve_attacks-IsFit tick rest _ (
      resolve_attack-IsFit tick attacker defender (lookup attacker players)
        (lookup defender players) players (healthy_lookup defender players f.healthy) f)

pay_skill-IsFit :
    (caster : Uuid) (skill : ℤ) (target : Option Uuid) (o : Option PlayerState) (players : Players)
    → HealthyOption o
    → IsFit players
    → IsFit (pay_skill caster skill target o players).0
unfolding pay_skill
pay_skill-IsFit caster skill target none players h f = f
pay_skill-IsFit caster skill target (some p) players h f = elim (Bool-cases (ltb_ℤ p.mp (pos 10))) [
  | inl t ↦ rw t f
  | inr t ↦ rw t (IsFit-insert caster _ players f (h.0, IsPoints-pay p.mp h.1 t))
]

pay_skills-IsFit :
    (casts : List (Uuid × ℤ × Option Uuid)) (players : Players)
    → IsFit players
    → IsFit (pay_skills casts players).0
unfolding pay_skills
pay_skills-IsFit [] players f = f
pay_skills-IsFit ((caster, skill, target) ∷ rest) players f = pay_skills-IsFit rest _ (
    pay_skill-IsFit caster skill target (lookup caster players) players
      (healthy_lookup caster players f.healthy) f)

hit_target-IsFit :
    (map_id : ℤ) (r : ResolvedSkill) (target : Uuid) (o : Option PlayerState) (players : Players)
    → HealthyOption o
    → IsFit players
    → IsFit (hit_target map_id r target o players).0
unfolding hit_target
hit_target-IsFit map_id r target none players h f = f
hit_target-IsFit map_id r target (some p) players h f = IsFit-insert target _ players f (
    wound-IsHealthy (skill_damage r.skill_id) p (omega (arith, skill_damage_range r.skill_id))
      (omega (arith, skill_damage_range r.skill_id)) h)

apply_skill-IsFit :
    (map_id : ℤ) (r : ResolvedSkill) (target : Option Uuid) (players : Players)
    → IsFit players
    → IsFit (apply_skill map_id r target players).0
unfolding apply_skill
apply_skill-IsFit map_id r none players f = f
apply_skill-IsFit map_id r (some target) players f =
    hit_target-IsFit map_id r target (lookup target players) players
      (healthy_lookup target players f.healthy) f

apply_skills-IsFit :
    (map_id : ℤ) (rs : List ResolvedSkill) (players : Players)
    → IsFit players
    → IsFit (apply_skills map_id rs players).0
unfolding apply_skills
apply_skills-IsFit map_id [] players f = f
apply_skills-IsFit map_id (r ∷ rest) players f =
    apply_skills-IsFit map_id rest _ (apply_skill-IsFit map_id r r.target_id players f)

pub system_combat-IsFit : (m : MapInstance) → IsFit m.players → IsFit (system_combat m).players
unfolding system_combat
system_combat-IsFit m f =
    let struck = (resolve_attacks (attack_damage m.tick_index) m.pending_attacks m.players).0 in
    let paid = pay_skills m.pending_skill_casts struck in
    apply_skills-IsFit m.config.map_id paid.2 paid.0 (
      pay_skills-IsFit m.pending_skill_casts struck
        (resolve_attacks-IsFit m.tick_index m.pending_attacks m.players f))

enter_player-IsHealthy :
    (o : Option PlayerState) (character : Uuid)
    → HealthyOption o
    → IsHealthy (enter_player o character)
unfolding enter_player
enter_player-IsHealthy none character h = omega arith
enter_player-IsHealthy (some p) character h = h

move_player-IsFit :
    (o : Option PlayerState) (session : Uuid) (x y : ℤ) (m : MapInstance)
    → HealthyOption o
    → IsFit m.players
    → IsFit (move_player o session x y m).players
unfolding move_player
move_player-IsFit none session x y m h f = f
move_player-IsFit (some p) session x y m h f = IsFit-insert session _ m.players f h

module _ (uuid : UuidCrate) where
  input_command-IsFit :
      (session : Uuid) (character : Option Uuid) (c : ClientCommand) (m : MapInstance)
      → IsFit m.players
      → IsFit (input_command uuid session character c m).players
  unfolding input_command
  input_command-IsFit session character enter_world m f = IsFit-insert session _ m.players f (
      enter_player-IsHealthy (lookup session m.players) (unwrap_or character session)
        (healthy_lookup session m.players f.healthy))
  input_command-IsFit session character (move x y run) m f =
      move_player-IsFit (lookup session m.players) session x y m
        (healthy_lookup session m.players f.healthy) f
  input_command-IsFit session character logout m f = IsFit-remove session m.players f
  input_command-IsFit session character _ m f = f

  pub system_input-IsFit :
      (cs : List IncomingCommand) (m : MapInstance)
      → IsFit m.players
      → IsFit (system_input uuid cs m).players
  unfolding system_input
  system_input-IsFit [] m f = f
  system_input-IsFit (c ∷ cs) m f =
      system_input-IsFit cs _ (input_command-IsFit c.session_id c.character_id c.command m f)
