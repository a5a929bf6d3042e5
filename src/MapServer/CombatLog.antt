-- ===== src/MapServer/CombatLog.antt =====
-- crates/map_server/src/lib.rs: the combat results and the combat logs of a tick.
use mathlib.Core.List.{append_assoc}
use helbreath_backend.Prelude.{
  ◌≡◌, refl, sym, ap, ap₂, ◌∙◌, List, [], ◌∷◌, ◌++◌, Option, none, some, Bool-cases, inl, inr,
  nat_eq,
}
use helbreath_backend.Prelude.Int.{ℤ, pos, ltb_ℤ}
use helbreath_backend.Prelude.Assoc.{lookup}
use helbreath_backend.Domain.{Uuid}
use helbreath_backend.MapServer.{
  MapInstance, text, position, combat_result, save_combat_log, save_character_position,
  save_inventory_change, Sent, outbound, persist, PlayerState,
}
use helbreath_backend.MapServer.Players.{Players}
use helbreath_backend.MapServer.Systems.{
  ResolvedAttack, attack_sends, attack_damage, resolve_attacks, ResolvedSkill, pay_skill,
  pay_skills, hit_target, apply_skill, apply_skills, system_combat,
}

-- The damage of each combat result that is sent, in order.
abbrev pub shown : List Sent → List ℤ
shown [] = []
shown (outbound (combat_result a d damage) ∷ rest) = damage ∷ shown rest
shown (outbound (text a t) ∷ rest) = shown rest
shown (outbound (position a x y) ∷ rest) = shown rest
shown (persist op ∷ rest) = shown rest

-- The damage of each combat that is logged for a map, in order; a log for another map has none.
abbrev pub logged : List Sent → List ℤ
logged [] = []
logged (persist (save_combat_log a d m damage) ∷ rest) = damage ∷ logged rest
logged (persist (save_character_position c m x y) ∷ rest) = logged rest
logged (persist (save_inventory_change c m r) ∷ rest) = logged rest
logged (outbound e ∷ rest) = logged rest

shown-append : (xs ys : List Sent) → shown (xs ++ ys) ≡ shown xs ++ shown ys
shown-append [] ys = refl
shown-append (outbound (combat_result a d damage) ∷ xs) ys =
    ap (λ t. damage ∷ t) (shown-append xs ys)
shown-append (outbound (text a t) ∷ xs) ys = shown-append xs ys
shown-append (outbound (position a x y) ∷ xs) ys = shown-append xs ys
shown-append (persist op ∷ xs) ys = shown-append xs ys

logged-append : (xs ys : List Sent) → logged (xs ++ ys) ≡ logged xs ++ logged ys
logged-append [] ys = refl
logged-append (persist (save_combat_log a d m damage) ∷ xs) ys =
    ap (λ t. damage ∷ t) (logged-append xs ys)
logged-append (persist (save_character_position c m x y) ∷ xs) ys = logged-append xs ys
logged-append (persist (save_inventory_change c m r) ∷ xs) ys = logged-append xs ys
logged-append (outbound e ∷ xs) ys = logged-append xs ys

abbrev pub IsLogged : List Sent → Type 0
IsLogged out = shown out ≡ logged out

IsLogged-append : (xs ys : List Sent) → IsLogged xs → IsLogged ys → IsLogged (xs ++ ys)
IsLogged-append xs ys h k = shown-append xs ys ∙ ap₂ (λ a b. a ++ b) h k ∙ sym (logged-append xs ys)

attack_sends-IsLogged : (map_id : ℤ) (rs : List ResolvedAttack) → IsLogged (attack_sends map_id rs)
unfolding attack_sends
attack_sends-IsLogged map_id [] = refl
attack_sends-IsLogged map_id (r ∷ rest) = elim (Bool-cases r.defeated) [
  | inl t ↦ rw t (ap (λ x. r.damage ∷ x) (attack_sends-IsLogged map_id rest))
  | inr t ↦ rw t (ap (λ x. r.damage ∷ x) (attack_sends-IsLogged map_id rest))
]

pay_skill-IsLogged :
    (caster : Uuid) (skill : ℤ) (target : Option Uuid) (o : Option PlayerState) (players : Players)
    → IsLogged (pay_skill caster skill target o players).1
unfolding pay_skill
pay_skill-IsLogged caster skill target none players = refl
pay_skill-IsLogged caster skill target (some p) players = elim (Bool-cases (ltb_ℤ p.mp (pos 10))) [
  | inl t ↦ rw t refl
  | inr t ↦ rw t refl
]

pay_skills-IsLogged :
    (casts : List (Uuid × ℤ × Option Uuid)) (players : Players)
    → IsLogged (pay_skills casts players).1
unfolding pay_skills
pay_skills-IsLogged [] players = refl
pay_skills-IsLogged ((caster, skill, target) ∷ rest) players =
    let one = pay_skill caster skill target (lookup caster players) players in
    IsLogged-append one.1 (pay_skills rest one.0).1
      (pay_skill-IsLogged caster skill target (lookup caster players) players)
      (pay_skills-IsLogged rest one.0)

apply_skill-IsLogged :
    (map_id : ℤ) (r : ResolvedSkill) (target : Option Uuid) (players : Players)
    → IsLogged (apply_skill map_id r target players).1
unfolding apply_skill
apply_skill-IsLogged map_id r none players = refl
apply_skill-IsLogged map_id r (some target) players = hit (lookup target players)
  where
    hit : (o : Option PlayerState) → IsLogged (hit_target map_id r target o players).1
    hit none = refl
    hit (some p) = refl

apply_skills-IsLogged :
    (map_id : ℤ) (rs : List ResolvedSkill) (players : Players)
    → IsLogged (apply_skills map_id rs players).1
unfolding apply_skills
apply_skills-IsLogged map_id [] players = refl
apply_skills-IsLogged map_id (r ∷ rest) players =
    let one = apply_skill map_id r r.target_id players in
    IsLogged-append one.1 (apply_skills map_id rest one.0).1
      (apply_skill-IsLogged map_id r r.target_id players) (apply_skills-IsLogged map_id rest one.0)

-- The combat of a tick sends, behind what was sent, as many combat results as combat logs, with the
-- same damage in the same order.
pub system_combat-IsLogged :
    (m : MapInstance) → (out : List Sent) × ((system_combat m).sent ≡ m.sent ++ out) × IsLogged out
unfolding system_combat
system_combat-IsLogged m =
    let struck = resolve_attacks (attack_damage m.tick_index) m.pending_attacks m.players in
    let paid = pay_skills m.pending_skill_casts struck.0 in
    let hits = apply_skills m.config.map_id paid.2 paid.0 in
    let first = attack_sends m.config.map_id struck.1 in
    (
      first ++ (paid.1 ++ hits.1),
      append_assoc m.sent first (paid.1 ++ hits.1),
      IsLogged-append first (paid.1 ++ hits.1) (attack_sends-IsLogged m.config.map_id struck.1) (
          IsLogged-append paid.1 hits.1 (pay_skills-IsLogged m.pending_skill_casts struck.0)
            (apply_skills-IsLogged m.config.map_id paid.2 paid.0)),
    )
