-- ===== src/World/Maps.antt =====
-- crates/world/src/lib.rs: how many sessions the session map holds for a map.
use helbreath_backend.Prelude.{
  ℕ, ◌+◌, ◌≤◌, ◌≡◌, refl, sym, ap, [], ◌∷◌, Option, none, some, arith, if◌then◌else◌, Bool-cases,
  inl, inr, length, ◌==◌, nat_eq,
}
use helbreath_backend.Prelude.Int.{ℤ, eqb_ℤ, eqb_ℤ_iff, int_eq}
use helbreath_backend.Prelude.Assoc.{Assoc, lookup, insert, remove, Distinct}
use helbreath_backend.Prelude.Assoc.Laws.{beq_refl}
use helbreath_backend.Domain.{Uuid}
use helbreath_backend.World.{counter, retain_other, sum_counts}

-- The sessions in map `m`.
abbrev pub sessions_in : ℤ → Assoc Uuid ℤ → ℕ
sessions_in m [] = 0
sessions_in m ((session, current) ∷ rest) = (if eqb_ℤ current m then 1 else 0) + sessions_in m rest

-- 1 if the session is in map `m`.
abbrev pub is_in : ℤ → Option ℤ → ℕ
is_in m none = 0
is_in m (some current) = if eqb_ℤ current m then 1 else 0

pub sessions_in-insert :
    (m : ℤ) (k : Uuid) (v : ℤ) (sm : Assoc Uuid ℤ)
    → sessions_in m (insert k v sm) + is_in m (lookup k sm)
      ≡ sessions_in m sm + (if eqb_ℤ v m then 1 else 0)
unfolding lookup insert
sessions_in-insert m k v [] = ground arith
sessions_in-insert m k v ((i, w) ∷ sm) = elim (Bool-cases (i == k)) [
  | inl t ↦ rw t (omega arith)
  | inr t ↦ rw t (omega (arith, sessions_in-insert m k v sm))
]

pub sessions_in-remove :
    (m : ℤ) (k : Uuid) (sm : Assoc Uuid ℤ)
    → sessions_in m (remove k sm) + is_in m (lookup k sm) ≡ sessions_in m sm
unfolding lookup remove
sessions_in-remove m k [] = omega arith
sessions_in-remove m k ((i, w) ∷ sm) = elim (Bool-cases (i == k)) [
  | inl t ↦ rw t (omega arith)
  | inr t ↦ rw t (omega (arith, sessions_in-remove m k sm))
]

pub sessions_in-retain_other :
    (m k : ℤ) (sm : Assoc Uuid ℤ)
    → sessions_in m (retain_other k sm) ≡ (if eqb_ℤ k m then 0 else sessions_in m sm)
unfolding retain_other
sessions_in-retain_other m k [] = ground arith
sessions_in-retain_other m k ((i, w) ∷ sm) =
    ground (arith, sessions_in-retain_other m k sm, eqb_ℤ_iff k m, eqb_ℤ_iff w k, eqb_ℤ_iff w m)

pub lookup-retain_other :
    (m : ℤ) (k : Uuid) (sm : Assoc Uuid ℤ)
    → lookup k sm ≡ none
    → lookup k (retain_other m sm) ≡ none
unfolding lookup retain_other
lookup-retain_other m k [] h = refl
lookup-retain_other m k ((i, w) ∷ sm) h = ground (arith, lookup-retain_other m k sm)

pub Distinct-retain_other : (m : ℤ) (sm : Assoc Uuid ℤ) → Distinct sm → Distinct (retain_other m sm)
unfolding retain_other
Distinct-retain_other m [] h = tt
Distinct-retain_other m ((i, w) ∷ sm) h = elim (Bool-cases (eqb_ℤ w m)) [
  | inl t ↦ rw t (Distinct-retain_other m sm h.1)
  | inr t ↦ rw t (lookup-retain_other m i sm h.0, Distinct-retain_other m sm h.1)
]

pub length-insert : (k : Uuid) (v : ℤ) (sm : Assoc Uuid ℤ) → length (insert k v sm) ≤ length sm + 1
unfolding insert
length-insert k v [] = omega arith
length-insert k v ((i, w) ∷ sm) = ground (arith, length-insert k v sm)

pub sessions_in-le : (m : ℤ) (sm : Assoc Uuid ℤ) → sessions_in m sm ≤ length sm
sessions_in-le m [] = omega arith
sessions_in-le m ((i, w) ∷ sm) = ground (arith, sessions_in-le m sm)

-- The sessions in the maps that have a counter.
abbrev pub sessions_counted : Assoc ℤ ℕ → Assoc Uuid ℤ → ℕ
sessions_counted [] sm = 0
sessions_counted ((m, n) ∷ rest) sm = sessions_in m sm + sessions_counted rest sm

sessions_counted_nil : (counts : Assoc ℤ ℕ) → sessions_counted counts [] ≡ 0
sessions_counted_nil [] = refl
sessions_counted_nil ((m, n) ∷ rest) = omega (arith, sessions_counted_nil rest)

abbrev has_key : Option ℕ → ℕ
has_key none = 0
has_key (some n) = 1

-- A session is counted once if its map has a counter.
sessions_counted_cons :
    (counts : Assoc ℤ ℕ) (k : Uuid) (v : ℤ) (sm : Assoc Uuid ℤ)
    → Distinct counts
    → sessions_counted counts ((k, v) ∷ sm) ≡ has_key (lookup v counts) + sessions_counted counts sm
unfolding lookup
sessions_counted_cons [] k v sm d = omega arith
sessions_counted_cons ((m, n) ∷ rest) k v sm d = elim (Bool-cases (eqb_ℤ m v)) [
  | inl t ↦
      let same = (eqb_ℤ_iff m v).0 t in
      let flip = (eqb_ℤ_iff v m).1 (sym same) in
      let absent : lookup v rest ≡ none = rw (← same) d.0 in
      let ih : sessions_counted rest ((k, v) ∷ sm) ≡ 0 + sessions_counted rest sm =
        rw absent at (sessions_counted_cons rest k v sm d.1) in
      rw (t, flip) (omega (arith, ih))
  | inr t ↦ ground (arith, eqb_ℤ_iff m v, eqb_ℤ_iff v m, sessions_counted_cons rest k v sm d.1)
]

-- Every session's map has a counter.
abbrev pub AllCounted : Assoc ℤ ℕ → Assoc Uuid ℤ → Type 0
AllCounted counts [] = Unit
AllCounted counts ((k, v) ∷ sm) = (has_key (lookup v counts) ≡ 1) × AllCounted counts sm

pub sessions_counted_all :
    (counts : Assoc ℤ ℕ) (sm : Assoc Uuid ℤ)
    → Distinct counts
    → AllCounted counts sm
    → sessions_counted counts sm ≡ length sm
sessions_counted_all counts [] d h = sessions_counted_nil counts
sessions_counted_all counts ((k, v) ∷ sm) d h =
    omega (arith, sessions_counted_cons counts k v sm d, h.0, sessions_counted_all counts sm d h.1)

-- With exact counters the sum of the counters is the number of counted sessions.
pub sum_counts-sessions :
    (counts : Assoc ℤ ℕ) (sm : Assoc Uuid ℤ)
    → Distinct counts
    → ((j : ℤ) (n : ℕ) → lookup j counts ≡ some n → n ≡ sessions_in j sm)
    → sum_counts counts ≡ sessions_counted counts sm
unfolding sum_counts lookup
sum_counts-sessions [] sm d h = refl
sum_counts-sessions ((m, n) ∷ rest) sm d h =
    let here : n ≡ sessions_in m sm = h m n (rw (beq_refl m)) in
    omega (arith, here, sum_counts-sessions rest sm d.1 later)
  where
    later : (j : ℤ) (k : ℕ) → lookup j rest ≡ some k → k ≡ sessions_in j sm
    later j k e = elim (Bool-cases (eqb_ℤ m j)) [
      | inl t ↦ let same = (eqb_ℤ_iff m j).0 t in cc (d.0, same, ap (λ x. lookup x rest) same)
      | inr t ↦ h j k (rw t e)
    ]

pub counter-AllCounted :
    (counts : Assoc ℤ ℕ) (sm : Assoc Uuid ℤ)
    → ((j : ℤ) → sessions_in j sm ≤ counter j counts)
    → AllCounted counts sm
unfolding counter
counter-AllCounted counts [] h = tt
counter-AllCounted counts ((k, v) ∷ sm) h =
    (ground (arith, h v, beq_refl v), counter-AllCounted counts sm (λ j. omega (arith, h j)))
