-- ===== src/Domain/Rules.antt =====
-- crates/domain/src/lib.rs: what the constructors and the validations of the values let through.
use helbreath_backend.Prelude.{
  ◌≡◌, ◌↔◌, refl, ap, true, false, ◌≤◌, List, [], ◌∷◌, Option, none, some, arith, Result, ok,
  >>=-eq-ok, Bool-cases, inl, inr, ℕ, All,
}
use helbreath_backend.Prelude.Int.{ℤ, pos, negsuc, ◌≤ℤ◌}
use helbreath_backend.Prelude.Text.{Text, is_empty, trim, len}
use helbreath_backend.Prelude.Text.Trim.{trim-trim}
use helbreath_backend.Domain.{
  Uuid, DomainError, normalized_text, normalized_email, Account, new_account, CharacterClass,
  CharacterStats, stat_ok, validate_stats_loop, validate_stats, Character, starting_stats,
  new_character, InventorySlot, validate_slot,
}
use Prim.Native.String.{String}

-- A text as the database is to hold it.
abbrev pub IsNormal : ℕ → Text → Type 0
IsNormal max t = (is_empty t ≡ false) × (trim t ≡ t) × (len t ≤ max)

normalized_text-IsNormal :
    (value : Text) (field : String) (max : ℕ) (t : Text)
    → normalized_text value field max ≡ ok t
    → (t ≡ trim value) × IsNormal max t
unfolding normalized_text
normalized_text-IsNormal value field max t h =
    let same : t ≡ trim value = ground (arith, h) in
    let full : is_empty t ≡ false = ground (arith, h, same) in
    let fits : len t ≤ max = ground (arith, h, same) in
    (same, (full, rw same (trim-trim value), fits))

abbrev pub IsNormalOption : Option Text → Type 0
IsNormalOption none = Unit
IsNormalOption (some t) = IsNormal 190 t

normalized_email-IsNormalOption :
    (email r : Option Text) → normalized_email email ≡ ok r → IsNormalOption r
unfolding normalized_email
normalized_email-IsNormalOption none r h = let same : none ≡ r = cc in rw (← same) tt
normalized_email-IsNormalOption (some v) r h =
    let (t, p, q) = >>=-eq-ok (normalized_text v "email" 190) _ h in
    let same : some t ≡ r = cc in rw (← same) (normalized_text-IsNormal v "email" 190 t p).1

-- A range of a stat.
abbrev pub IsStat : ℤ → Type 0
IsStat v = (pos 1 ≤ℤ v) × (v ≤ℤ pos 255)

stat_ok_iff : (v : ℤ) → (stat_ok v ≡ true) ↔ IsStat v
stat_ok_iff (pos n) = ground arith
stat_ok_iff (negsuc n) = ground arith

validate_stats_loop_iff :
    (fields : List (String × ℤ))
    → (validate_stats_loop fields ≡ ok tt) ↔ All (λ f. IsStat f.1) fields
unfolding validate_stats_loop
validate_stats_loop_iff [] = (λ h. tt, λ h. refl)
validate_stats_loop_iff ((field, v) ∷ rest) = elim (Bool-cases (stat_ok v)) [
  | inl e ↦ rw e (
    λ h. ((stat_ok_iff v).0 e, (validate_stats_loop_iff rest).0 h),
    λ h. (validate_stats_loop_iff rest).1 h.1,
  )
  | inr e ↦ rw e (λ h. absurd (cc h), λ h. absurd (cc (e, (stat_ok_iff v).1 h.0)))
]

-- Stats are valid exactly when each of the six is between 1 and 255.
pub validate_stats_iff :
    (s : CharacterStats)
    → (validate_stats s ≡ ok tt) ↔ (
        IsStat s.strength
        × IsStat s.vitality
        × IsStat s.dexterity
        × IsStat s.intelligence
        × IsStat s.magic
        × IsStat s.charisma)
unfolding validate_stats
validate_stats_iff s =
    let loop = validate_stats_loop_iff fields in
    (
      λ h. let (a, (b, (c, (d, (e, (f, u)))))) = loop.0 h in (a, b, c, d, e, f),
      λ h. loop.1 (h.0, (h.1, (h.2, (h.3, (h.4, (h.5, tt)))))),
    )
  where
    fields : List (String × ℤ)
    fields =
        ("strength", s.strength)
        ∷ ("vitality", s.vitality)
        ∷ ("dexterity", s.dexterity)
        ∷ ("intelligence", s.intelligence)
        ∷ ("magic", s.magic)
        ∷ ("charisma", s.charisma)
        ∷ []

-- A slot is valid exactly when its number is not negative and its quantity is positive.
pub validate_slot_iff :
    (s : InventorySlot) → (validate_slot s ≡ ok tt) ↔ ((pos 0 ≤ℤ s.slot) × (pos 1 ≤ℤ s.quantity))
unfolding validate_slot
validate_slot_iff s = ground arith

-- An account that is made has a username and, if it has one, an email that are trimmed, not empty and
-- within 32 and 190 bytes; the username is the given one, trimmed.
pub new_account-IsNormal :
    (id : Uuid) (now : ℕ) (username : Text) (email : Option Text) (a : Account)
    → new_account id now username email ≡ ok a
    → (a.username ≡ trim username) × IsNormal 32 a.username × IsNormalOption a.email
unfolding new_account
new_account-IsNormal id now username email a h =
    let (u, p, q) = >>=-eq-ok (normalized_text username "username" 32) _ h in
    let (e, r, s) = >>=-eq-ok (normalized_email email) _ q in
    let good = normalized_text-IsNormal username "username" 32 u p in
    let name : u ≡ a.username = cc in
    let mail : e ≡ a.email = cc in
    (
      rw (← name) good.0,
      rw (← name) good.1,
      rw (← mail) (normalized_email-IsNormalOption email e r),
    )

abbrev made : Character → Result DomainError Character
made = ok

ok_inj : (a b : Character) → made a ≡ ok b → a ≡ b
ok_inj a b e = cc

-- A character that is made has valid stats, and the given name, trimmed, which is not empty and
-- within 16 bytes.
pub new_character-IsNormal :
    (id : Uuid) (now : ℕ) (account_id : Uuid) (name : Text) (class : CharacterClass) (map_id : ℤ)
    (c : Character)
    → new_character id now account_id name class map_id ≡ ok c
    → (c.name ≡ trim name) × IsNormal 16 c.name × (validate_stats c.stats ≡ ok tt)
unfolding new_character validate_stats
new_character-IsNormal id now account_id name class map_id c h =
    let (t, r, s) =
      >>=-eq-ok (normalized_text name "character_name" 16) (λ name'. made (born name')) h in
    let good = normalized_text-IsNormal name "character_name" 16 t r in
    let same = ok_inj (born t) c s in
    let called : t ≡ c.name = ap (λ (x : Character). x.name) same in
    let stats : starting_stats ≡ c.stats = ap (λ (x : Character). x.stats) same in
    (rw (← called) good.0, rw (← called) good.1, rw (← stats) refl)
  where
    born : Text → Character
    born name' = record {
      id = id;
      account_id = account_id;
      name = name';
      class = class;
      map_id = map_id;
      x = pos 0;
      y = pos 0;
      level = pos 1;
      exp = pos 0;
      hp = pos 100;
      mp = pos 50;
      sp = pos 50;
      stats = starting_stats;
      created_at = now;
      updated_at = now;
    }
