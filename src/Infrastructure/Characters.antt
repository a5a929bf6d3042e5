-- ===== src/Infrastructure/Characters.antt =====
-- crates/infrastructure/src/lib.rs: the table of characters: its keys, its slots, and what a deletion
-- leaves for the next creation.
use helbreath_backend.Prelude.{
  ℕ, ◌==◌, ◌≤◌, ◌≡◌, refl, ap, ◌∙◌, Bool, false, List, [], ◌∷◌, ◌++◌, Option, none, some, arith,
  ltb, Result, ok, err, Yields, Yields-ok, Yields-guard, yields_rules, Bool-cases, inl, inr, length,
}
use helbreath_backend.Prelude.Int.{ℤ}
use helbreath_backend.Prelude.Text.{Text}
use helbreath_backend.Prelude.Text.Equal.{eqb_text_sym}
use helbreath_backend.Prelude.Table.{exists_row, update_where, exists-update_where}
use helbreath_backend.Domain.{Uuid, Character}
use helbreath_backend.Infrastructure.{
  NewCharacterParams, AccountRow, CharacterRow, MapRow, Database, RepoError,
}
use helbreath_backend.Infrastructure.Accounts.{
  slot_pick, collides, new_row, joined, picked, insert_character, create_character, is_character,
  mark_deleted, delete_character, upsert_session, close_session, load_character, bind_loaded,
  bind_session_character, create_at,
}
use helbreath_backend.Infrastructure.Admin.{placed, move_character, set_account_status}
use helbreath_backend.Infrastructure.Run.{
  Statement, upsert, close, create, delete, bind, set_status, place, tick, execute, or_unchanged,
  or_unchanged_of, run_tick,
}

-- No two rows share an identifier, a name or a slot of one account, and no slot is above 3.
abbrev pub IsKeyed : List CharacterRow → Type 0
IsKeyed [] = Unit
IsKeyed (r ∷ rs) =
    (exists_row (collides r.id r.account_id r.name r.slot) rs ≡ false) × (r.slot ≤ 3) × IsKeyed rs

==-sym : (a b : ℕ) → (a == b) ≡ (b == a)
==-sym a b = ground arith

collides_sym :
    (r t : CharacterRow)
    → collides r.id r.account_id r.name r.slot t ≡ collides t.id t.account_id t.name t.slot r
collides_sym r t =
    rw
      (
        ==-sym r.id t.id,
        eqb_text_sym r.name t.name,
        ==-sym r.account_id t.account_id,
        ==-sym r.slot t.slot,
      )
      refl

exists_row-append :
    (p : CharacterRow → Bool) (rs : List CharacterRow) (t : CharacterRow)
    → exists_row p rs ≡ false
    → p t ≡ false
    → exists_row p (rs ++ (t ∷ [])) ≡ false
exists_row-append p [] t e f = rw f refl
exists_row-append p (r ∷ rs) t e f = elim (Bool-cases (p r)) [
  | inl b ↦ absurd (cc (rw b at e))
  | inr b ↦ rw b (exists_row-append p rs t (rw b at e) f)
]

append-IsKeyed :
    (rs : List CharacterRow) (t : CharacterRow)
    → IsKeyed rs
    → exists_row (collides t.id t.account_id t.name t.slot) rs ≡ false
    → t.slot ≤ 3
    → IsKeyed (rs ++ (t ∷ []))
append-IsKeyed [] t k e s = (refl, s, tt)
append-IsKeyed (r ∷ rs) t k e s = elim (Bool-cases (collides t.id t.account_id t.name t.slot r)) [
  | inl b ↦ absurd (cc (rw b at e))
  | inr b ↦ (
    exists_row-append _ rs t k.0 (collides_sym r t ∙ b),
    k.1,
    append-IsKeyed rs t k.2 (rw b at e) s,
  )
]

-- An update that keeps the columns of the keys.
KeepsKeys : (CharacterRow → CharacterRow) → Type 0
KeepsKeys f =
    (r : CharacterRow)
    → ((f r).id ≡ r.id)
      × ((f r).account_id ≡ r.account_id)
      × ((f r).name ≡ r.name)
      × ((f r).slot ≡ r.slot)

update-IsKeyed :
    (q : CharacterRow → Bool) (f : CharacterRow → CharacterRow) (rs : List CharacterRow)
    → KeepsKeys f
    → IsKeyed rs
    → IsKeyed (update_where q f rs)
unfolding KeepsKeys
update-IsKeyed q f [] h k = tt
update-IsKeyed q f (r ∷ rs) h k =
    let same =
      exists-update_where (collides r.id r.account_id r.name r.slot) q f rs
        (λ x b. rw ((h x).0, (h x).1, (h x).2, (h x).3) refl) in
    elim (Bool-cases (q r)) [
      | inl b ↦
          rw (b, (h r).0, (h r).1, (h r).2, (h r).3) (same ∙ k.0, k.1, update-IsKeyed q f rs h k.2)
      | inr b ↦ rw b (same ∙ k.0, k.1, update-IsKeyed q f rs h k.2)
    ]

mark_deleted-KeepsKeys : (now : ℕ) → KeepsKeys (mark_deleted now)
unfolding KeepsKeys mark_deleted
mark_deleted-KeepsKeys now r = (refl, refl, refl, refl)

placed-KeepsKeys : (now : ℕ) (map_id x y : ℤ) → KeepsKeys (placed now map_id x y)
unfolding KeepsKeys placed
placed-KeepsKeys now map_id x y r = (refl, refl, refl, refl)

-- The picked slot is at most 3.
slot_pick-le :
    (account : Uuid) (rows : List CharacterRow) (slot : ℕ)
    → slot_pick account rows ≡ some slot
    → slot ≤ 3
unfolding slot_pick
slot_pick-le account rows slot e = ground (arith, e)

insert-IsKeyed :
    (row : CharacterRow) (db : Database)
    → IsKeyed db.characters
    → row.slot ≤ 3
    → IsKeyed (or_unchanged_of db (insert_character row db)).characters
unfolding insert_character
insert-IsKeyed row db k s = elim (Bool-cases (ltb 16 (length row.name))) [
  | inl b ↦ rw b k
  | inr b ↦
      rw b
        (elim (Bool-cases (exists_row (λ (r : AccountRow). r.id == row.account_id) db.accounts)) [
          | inl c ↦
              rw c
                (elim (Bool-cases
                  (exists_row (collides row.id row.account_id row.name row.slot) db.characters)) [
                    | inl d ↦ rw d k
                    | inr d ↦ rw d (append-IsKeyed db.characters row k d s)
                  ])
          | inr c ↦ rw c k
        ])
]

slot_of : Option (ℕ × MapRow) → ℕ
slot_of none = 0
slot_of (some (slot, m)) = slot

joined-slot :
    (o : Option ℕ) (q : Option MapRow) (slot : ℕ) (m : MapRow)
    → joined o q ≡ some (slot, m)
    → o ≡ some slot
unfolding slot_of
joined-slot none q slot m e = cc e
joined-slot (some n) none slot m e = absurd (cc e)
joined-slot (some n) (some m') slot m e = ap (λ p. some (slot_of p)) e

picked-le :
    (account : Uuid) (db : Database) (slot : ℕ) (m : MapRow)
    → picked account db ≡ some (slot, m)
    → slot ≤ 3
unfolding picked
picked-le account db slot m e =
    slot_pick-le account db.characters slot
      (joined-slot (slot_pick account db.characters) _ slot m e)

create_at-IsKeyed :
    (now : ℕ) (id account : Uuid) (params : NewCharacterParams) (o : Option (ℕ × MapRow))
    (db : Database)
    → IsKeyed db.characters
    → ((slot : ℕ) (m : MapRow) → o ≡ some (slot, m) → slot ≤ 3)
    → IsKeyed (or_unchanged_of db (create_at now id account params o db)).characters
unfolding create_at new_row
create_at-IsKeyed now id account params none db k h = k
create_at-IsKeyed now id account params (some (slot, m)) db k h =
    insert-IsKeyed (new_row now id account params slot m) db k (h slot m refl)

-- An error of the database leaves it as it is.
pub or_unchanged-Yields {ℓ} :
    (P : Database → Type ℓ) (db : Database) (r : Result RepoError Database)
    → P db
    → Yields P r
    → P (or_unchanged db r)
or_unchanged-Yields P db (ok db') h y = y.at db' refl
or_unchanged-Yields P db (err e) h y = h

upsert_session-IsKeyed :
    (now : ℕ) (session account : Uuid) (node ip : Text) (expires : ℕ) (db : Database)
    → IsKeyed db.characters
    → Yields
        (λ (d : Database). IsKeyed d.characters)
        (upsert_session now session account node ip expires db)
unfolding upsert_session
upsert_session-IsKeyed now session account node ip expires db k = search yields_rules

move_character-IsKeyed :
    (now : ℕ) (character : Uuid) (map_id x y : ℤ) (db : Database)
    → IsKeyed db.characters
    → Yields (λ (d : Database). IsKeyed d.characters) (move_character now character map_id x y db)
unfolding move_character
move_character-IsKeyed now character map_id x y db k = Yields-guard _ _ _ (
    Yields-ok _ (
      update-IsKeyed (λ (r : CharacterRow). r.id == character) (placed now map_id x y) db.characters
        (placed-KeepsKeys now map_id x y) k))

bind_loaded-IsKeyed :
    (now : ℕ) (session account character : Uuid) (o : Option Character) (db : Database)
    → IsKeyed db.characters
    → IsKeyed (bind_loaded now session account character o db).1.characters
unfolding bind_loaded
bind_loaded-IsKeyed now session account character none db k = k
bind_loaded-IsKeyed now session account character (some c) db k = k

pub execute-IsKeyed :
    (st : Statement) (db : Database) → IsKeyed db.characters → IsKeyed (execute st db).characters
unfolding execute upsert_session delete_character bind_session_character move_character
execute-IsKeyed (upsert now session account node ip expires) db k =
    or_unchanged-Yields (λ d. IsKeyed d.characters) db _ k
      (upsert_session-IsKeyed now session account node ip expires db k)
execute-IsKeyed (close now session) db k = unfold close_session in k
execute-IsKeyed (create now id account params) db k =
    unfold create_character in
    create_at-IsKeyed now id account params (picked account db) db k (picked-le account db)
execute-IsKeyed (delete now account character) db k =
    update-IsKeyed (is_character account character) (mark_deleted now) db.characters
      (mark_deleted-KeepsKeys now) k
execute-IsKeyed (bind now session account character) db k =
    bind_loaded-IsKeyed now session account character (load_character account character db) db k
execute-IsKeyed (set_status now account status) db k = unfold set_account_status in k
execute-IsKeyed (place now character map_id x y) db k =
    or_unchanged-Yields (λ d. IsKeyed d.characters) db _ k
      (move_character-IsKeyed now character map_id x y db k)
execute-IsKeyed (tick now) db k = unfold run_tick in k
