-- ===== src/MapServer/Damage.antt =====
-- crates/map_server/src/lib.rs: the damage of an attack and of a skill.
use helbreath_backend.Prelude.{ℕ, false, ◌-◌, ◌^◌, ◌<◌, ◌≡◌, ◌≢◌, arith}
use helbreath_backend.Prelude.Int.{ℤ, pos, negsuc, ◌≤ℤ◌, sub32, max_ℤ, ltb_ℤ}
use helbreath_backend.MapServer.{PlayerState}
use helbreath_backend.MapServer.Systems.{wound, attack_damage, skill_damage}

-- The range of an i32.
abbrev pub IsI32 : ℤ → Type 0
IsI32 (pos n) = n < 2 ^ 31
IsI32 (negsuc n) = n < 2 ^ 31

abbrev pub least : ℤ
least = negsuc (2 ^ 31 - 1)

-- A skill whose id is any i32 but the least does between 10 and 16 points of damage.
pub skill_damage_bounds :
    (skill : ℤ)
    → IsI32 skill
    → skill ≢ least
    → (pos 10 ≤ℤ skill_damage skill) × (skill_damage skill ≤ℤ pos 16)
unfolding skill_damage
skill_damage_bounds (pos n) h ne = ground arith
skill_damage_bounds (negsuc n) h ne = ground arith

-- Of whatever id a skill is, its damage lies between 4 and 16.
pub skill_damage_range :
    (skill : ℤ) → (pos 4 ≤ℤ skill_damage skill) × (skill_damage skill ≤ℤ pos 16)
unfolding skill_damage
skill_damage_range (pos n) = ground arith
skill_damage_range (negsuc n) = ground arith

-- Points of life or of mana.
abbrev pub IsPoints : ℤ → Type 0
IsPoints v = (pos 0 ≤ℤ v) × (v ≤ℤ pos 100)

abbrev pub IsHealthy : PlayerState → Type 0
IsHealthy p = IsPoints p.hp × IsPoints p.mp

IsPoints-wound :
    (hp damage : ℤ)
    → IsPoints hp
    → pos 0 ≤ℤ damage
    → damage ≤ℤ pos 16
    → IsPoints (max_ℤ (sub32 hp damage) (pos 0))
unfolding sub32
IsPoints-wound (pos hp) (pos d) h l u = ground arith
IsPoints-wound (pos hp) (negsuc d) h l u = absurd (omega arith)
IsPoints-wound (negsuc hp) d h l u = absurd (omega arith)

pub wound-IsHealthy :
    (damage : ℤ) (p : PlayerState)
    → pos 0 ≤ℤ damage
    → damage ≤ℤ pos 16
    → IsHealthy p
    → IsHealthy (wound damage p)
unfolding wound
wound-IsHealthy damage p l u h = (IsPoints-wound p.hp damage h.0 l u, h.1)

pub IsPoints-pay : (mp : ℤ) → IsPoints mp → ltb_ℤ mp (pos 10) ≡ false → IsPoints (sub32 mp (pos 10))
unfolding sub32
IsPoints-pay (pos mp) h enough = ground arith
IsPoints-pay (negsuc mp) h enough = absurd (omega arith)

pub attack_damage_range : (tick : ℕ) → (pos 5 ≤ℤ attack_damage tick) × (attack_damage tick ≤ℤ pos 8)
unfolding attack_damage
attack_damage_range tick = omega arith
