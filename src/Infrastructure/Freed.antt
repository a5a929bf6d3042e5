-- ===== src/Infrastructure/Freed.antt =====
-- crates/infrastructure/src/lib.rs: what the deletion of a character leaves for the next creation.
use helbreath_backend.Prelude.{
  ℕ, zero, suc, ◌==◌, ◌≤◌, ◌<◌, ◌≡◌, refl, subst, ◌∙◌, Bool, true, false, ◌&&◌, List, [], ◌∷◌, some,
  arith, ltb, err, Bool-cases, inl, inr, length, All,
}
use helbreath_backend.Prelude.Int.{pos, eqb_ℤ}
use helbreath_backend.Prelude.Text.{Text}
use helbreath_backend.Prelude.Table.{
  find_first, exists_row, update_where, exists-update_where, exists-of_find_first, find_first-holds,
}
use helbreath_backend.Domain.{Uuid}
use helbreath_backend.Infrastructure.{
  NewCharacterParams, AccountRow, CharacterRow, MapRow, Database, database,
}
use helbreath_backend.Infrastructure.Accounts.{
  is_live_of, is_free, slot_pick, collides, new_row, picked, insert_character, create_at,
  create_character, is_character, mark_deleted, delete_character,
}
use helbreath_backend.Infrastructure.Characters.{IsKeyed}
use helbreath_backend.Infrastructure.Slots.{in_slot}

-- The row that a deletion hits is the only one with its identifier, and with its slot.
Only : Uuid → Uuid → CharacterRow → CharacterRow → Type 0
Only account character r x =
    (is_character account character x ≡ true → x.slot ≡ r.slot)
    × (in_slot account r.slot x ≡ true → x.id ≡ character)

no_collision :
    (p : CharacterRow → Bool) (P : CharacterRow → Type 0) (rs : List CharacterRow)
    → ((x : CharacterRow) → p x ≡ false → P x)
    → exists_row p rs ≡ false
    → All P rs
no_collision p P [] h e = tt
no_collision p P (x ∷ rs) h e = elim (Bool-cases (p x)) [
  | inl t ↦ absurd (cc (rw t at e))
  | inr t ↦ (h x t, no_collision p P rs h (rw t at e))
]

Only-head :
    (account character : Uuid) (r x : CharacterRow)
    → is_character account character r ≡ true
    → collides r.id r.account_id r.name r.slot x ≡ false
    → Only account character r x
unfolding Only
Only-head account character r x e f = (λ g. ground (arith, e, f, g), λ g. ground (arith, e, f, g))

Only-other :
    (account character : Uuid) (r x : CharacterRow)
    → is_character account character r ≡ true
    → collides x.id x.account_id x.name x.slot r ≡ false
    → Only account character r x
unfolding Only
Only-other account character r x e f = (λ g. ground (arith, e, f, g), λ g. ground (arith, e, f, g))

Only-itself :
    (account character : Uuid) (x : CharacterRow)
    → is_character account character x ≡ true
    → Only account character x x
unfolding Only
Only-itself account character x t = (λ g. refl, λ g. ground (arith, t))

deleted-Only :
    (account character : Uuid) (r : CharacterRow) (rs : List CharacterRow)
    → IsKeyed rs
    → find_first (is_character account character) rs ≡ some r
    → All (Only account character r) rs
deleted-Only account character r [] k e = tt
deleted-Only account character r (x ∷ rs) k e =
    elim (Bool-cases (is_character account character x)) [
      | inl t ↦
          let same : x ≡ r = cc (rw t at e) in
          subst (λ y. All (Only account character y) (x ∷ rs)) same
            (
              Only-itself account character x t,
              no_collision (collides x.id x.account_id x.name x.slot) (Only account character x) rs
                  (λ y f. Only-head account character x y t f) k.0,
            )
      | inr t ↦
          let there : find_first (is_character account character) rs ≡ some r = rw t at e in
          elim (Bool-cases (collides x.id x.account_id x.name x.slot r)) [
            | inl u ↦
                let hit : exists_row (collides x.id x.account_id x.name x.slot) rs ≡ true =
                  exists-of_find_first (is_character account character)
                    (collides x.id x.account_id x.name x.slot) rs r there u in
                absurd (cc (hit, k.0))
            | inr u ↦ (
              Only-other account character r x
                  (find_first-holds (is_character account character) rs r there) u,
              deleted-Only account character r rs k.2 there,
            )
          ]
    ]

-- A live character of the account in a slot.
abbrev lives_in : Uuid → ℕ → CharacterRow → Bool
lives_in account slot row = is_live_of account row && row.slot == slot

marked : (now : ℕ) (account character : Uuid) → List CharacterRow → List CharacterRow
unfolding mark_deleted
marked now account character rs =
    update_where (is_character account character) (mark_deleted now) rs

-- The other slots stay as they are.
other_slots :
    (now : ℕ) (account character : Uuid) (slot : ℕ) (r : CharacterRow) (rs : List CharacterRow)
    → All (Only account character r) rs
    → slot < r.slot
    → exists_row (lives_in account slot) (marked now account character rs)
      ≡ exists_row (lives_in account slot) rs
unfolding marked mark_deleted Only
other_slots now account character slot r [] h l = refl
other_slots now account character slot r (x ∷ rs) h l =
    elim (Bool-cases (is_character account character x)) [
      | inl t ↦ ground (arith, t, h.0.0 t, other_slots now account character slot r rs h.1 l)
      | inr t ↦ rw (t, other_slots now account character slot r rs h.1 l) refl
    ]

-- The slot of the deleted character is free.
own_slot :
    (now : ℕ) (account character : Uuid) (r : CharacterRow) (rs : List CharacterRow)
    → All (Only account character r) rs
    → exists_row (lives_in account r.slot) (marked now account character rs) ≡ false
unfolding marked mark_deleted Only
own_slot now account character r [] h = refl
own_slot now account character r (x ∷ rs) h = elim (Bool-cases (is_character account character x)) [
  | inl t ↦ ground (arith, t, own_slot now account character r rs h.1)
  | inr t ↦ ground (arith, t, h.0.1, own_slot now account character r rs h.1)
]

first_true :
    (f : ℕ → Bool) (slot : ℕ)
    → slot ≤ 3
    → ((i : ℕ) → i < slot → f i ≡ false)
    → f slot ≡ true
    → find_first f (0 ∷ 1 ∷ 2 ∷ 3 ∷ []) ≡ some slot
first_true f zero l h e = rw e refl
first_true f (suc zero) l h e = rw (h 0 (omega arith), e) refl
first_true f (suc (suc zero)) l h e = rw (h 0 (omega arith), h 1 (omega arith), e) refl
first_true f (suc (suc (suc zero))) l h e =
    rw (h 0 (omega arith), h 1 (omega arith), h 2 (omega arith), e) refl
first_true f (suc (suc (suc (suc n)))) l h e = absurd (omega arith)

insert_character_taken :
    (row : CharacterRow) (db : Database)
    → exists_row (collides row.id row.account_id row.name row.slot) db.characters ≡ true
    → insert_character row db ≡ err database
unfolding insert_character
insert_character_taken row db e = elim (Bool-cases (ltb 16 (length row.name))) [
  | inl t ↦ rw t refl
  | inr t ↦
      elim (Bool-cases (exists_row (λ (r : AccountRow). r.id == row.account_id) db.accounts)) [
        | inl u ↦ rw (t, u, e) refl
        | inr u ↦ rw (t, u) refl
      ]
]

row_collides :
    (id account : Uuid) (name : Text) (slot : ℕ) (r : CharacterRow)
    → r.account_id ≡ account
    → r.slot ≡ slot
    → collides id account name slot r ≡ true
row_collides id account name slot r e f = ground (arith, e, f)

-- An account deletes a character whose slot is below every free one. Then the next creation, of
-- any character at any time, picks that slot, which the deleted row still holds, and the
-- database refuses it.
pub create_character_freed :
    (now later : ℕ) (account character id : Uuid) (params : NewCharacterParams) (db : Database)
    (r : CharacterRow) (m : MapRow)
    → IsKeyed db.characters
    → find_first (is_character account character) db.characters ≡ some r
    → ((i : ℕ) → i < r.slot → is_free account db.characters i ≡ false)
    → find_first (λ (m : MapRow). eqb_ℤ m.id (pos 1)) db.maps ≡ some m
    → create_character later id account params (delete_character now account character db).1
      ≡ err database
unfolding create_character picked slot_pick create_at new_row delete_character marked
create_character_freed now later account character id params db r m k found lower there =
    let rows = marked now account character db.characters in
    let only = deleted-Only account character r db.characters k found in
    let live = find_first-holds (is_character account character) db.characters r found in
    let pick : find_first (is_free account rows) (0 ∷ 1 ∷ 2 ∷ 3 ∷ []) ≡ some r.slot =
      first_true (is_free account rows) r.slot (slot-le db.characters k found)
        (λ i l. rw (other_slots now account character i r db.characters only l) (lower i l))
        (rw (own_slot now account character r db.characters only) refl) in
    let taken : exists_row (collides id account params.name r.slot) rows ≡ true =
      exists-update_where (collides id account params.name r.slot) _ (mark_deleted now)
        db.characters (λ x t. unfold mark_deleted in refl)
      ∙ exists-of_find_first (is_character account character) _ db.characters r found
          (row_collides id account params.name r.slot r (ground (arith, live)) refl) in
    rw (pick, there)
      (insert_character_taken (new_row later id account params r.slot m)
        (delete_character now account character db).1 taken)
  where
    slot-le :
        (rs : List CharacterRow)
        → IsKeyed rs
        → find_first (is_character account character) rs ≡ some r
        → r.slot ≤ 3
    slot-le [] k e = absurd (cc e)
    slot-le (x ∷ rs) k e = elim (Bool-cases (is_character account character x)) [
      | inl t ↦ let same : x ≡ r = cc (rw t at e) in rw (← same) k.1
      | inr t ↦ slot-le rs k.2 (rw t at e)
    ]
