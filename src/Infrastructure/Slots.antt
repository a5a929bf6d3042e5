-- ===== src/Infrastructure/Slots.antt =====
-- crates/infrastructure/src/lib.rs: the four slots of an account.
use helbreath_backend.Prelude.{
  ℕ, ◌+◌, ◌==◌, ◌≤◌, ◌≡◌, refl, Bool, true, false, ◌&&◌, List, [], ◌∷◌, arith, Bool-cases, inl, inr,
}
use helbreath_backend.Prelude.Table.{exists_row, count_where}
use helbreath_backend.Domain.{Uuid}
use helbreath_backend.Infrastructure.{CharacterRow, Database}
use helbreath_backend.Infrastructure.Accounts.{collides}
use helbreath_backend.Infrastructure.Run.{Statement, execute, execute_all}
use helbreath_backend.Infrastructure.Characters.{IsKeyed, execute-IsKeyed}

-- The rows of an account, the deleted ones too.
abbrev pub belongs : Uuid → CharacterRow → Bool
belongs account row = row.account_id == account

abbrev pub in_slot : Uuid → ℕ → CharacterRow → Bool
in_slot account slot row = row.account_id == account && row.slot == slot

count_none :
    (p q : CharacterRow → Bool) (rs : List CharacterRow)
    → ((x : CharacterRow) → p x ≡ true → q x ≡ true)
    → exists_row q rs ≡ false
    → count_where p rs ≡ 0
count_none p q [] h e = refl
count_none p q (r ∷ rs) h e = ground (arith, h r, e, count_none p q rs h)

in_slot-collides :
    (account : Uuid) (slot : ℕ) (r x : CharacterRow)
    → in_slot account slot r ≡ true
    → in_slot account slot x ≡ true
    → collides r.id r.account_id r.name r.slot x ≡ true
in_slot-collides account slot r x e f = ground (arith, e, f)

in_slot-le_one :
    (account : Uuid) (slot : ℕ) (rs : List CharacterRow)
    → IsKeyed rs
    → count_where (in_slot account slot) rs ≤ 1
in_slot-le_one account slot [] k = omega arith
in_slot-le_one account slot (r ∷ rs) k = elim (Bool-cases (in_slot account slot r)) [
  | inl t ↦
      let others : count_where (in_slot account slot) rs ≡ 0 =
        count_none (in_slot account slot) (collides r.id r.account_id r.name r.slot) rs
          (λ x e. in_slot-collides account slot r x t e) k.0 in
      rw t (omega (arith, others))
  | inr t ↦ rw t (omega (arith, in_slot-le_one account slot rs k.2))
]

belongs-slots :
    (account : Uuid) (rs : List CharacterRow)
    → IsKeyed rs
    → count_where (belongs account) rs
      ≡ count_where (in_slot account 0) rs
        + count_where (in_slot account 1) rs
        + count_where (in_slot account 2) rs
        + count_where (in_slot account 3) rs
belongs-slots account [] k = refl
belongs-slots account (r ∷ rs) k = ground (arith, k.1, belongs-slots account rs k.2)

execute_all-IsKeyed :
    (sts : List Statement) (db : Database)
    → IsKeyed db.characters
    → IsKeyed (execute_all sts db).characters
unfolding execute_all
execute_all-IsKeyed [] db k = k
execute_all-IsKeyed (st ∷ sts) db k =
    execute_all-IsKeyed sts (execute st db) (execute-IsKeyed st db k)

-- Whatever statements run on a database without characters: no two characters share an
-- identifier, a name or a slot of one account, every slot is at most 3, and an account has at most
-- four characters, those that were deleted included.
pub execute_all-slots :
    (sts : List Statement) (db : Database) (account : Uuid)
    → db.characters ≡ []
    → IsKeyed (execute_all sts db).characters
      × (count_where (belongs account) (execute_all sts db).characters ≤ 4)
execute_all-slots sts db account e =
    let k = execute_all-IsKeyed sts db (rw e tt) in
    let rs = (execute_all sts db).characters in
    (
      k,
      omega (
        arith,
        belongs-slots account rs k,
        in_slot-le_one account 0 rs k,
        in_slot-le_one account 1 rs k,
        in_slot-le_one account 2 rs k,
        in_slot-le_one account 3 rs k,
      ),
    )
