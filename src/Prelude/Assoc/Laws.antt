-- ===== src/Prelude/Assoc/Laws.antt =====
-- The laws of the maps.
use helbreath_backend.Prelude.{
  ◌≡◌, refl, true, [], ◌∷◌, none, some, arith, Eq, if◌then◌else◌, Bool-cases, inl, inr,
}
use helbreath_backend.Prelude.Assoc.{Assoc, lookup, insert, remove, Distinct}

module _ {ℓ κ} {K : Type ℓ} {V : Type κ} ⦃e : Eq K⦄ where
  pub lookup-insert :
      (k j : K) (v : V) (m : Assoc K V)
      → lookup j (insert k v m) ≡ (if e.beq k j then some v else lookup j m)
  unfolding lookup insert
  lookup-insert k j v [] = refl
  lookup-insert k j v ((i, w) ∷ m) =
      ground (arith, e.beq_iff k j, e.beq_iff i k, e.beq_iff i j, lookup-insert k j v m)

  pub Distinct-insert : (k : K) (v : V) (m : Assoc K V) → Distinct m → Distinct (insert k v m)
  unfolding lookup insert
  Distinct-insert k v [] h = (refl, tt)
  Distinct-insert k v ((i, w) ∷ m) h = elim (Bool-cases (e.beq i k)) [
    | inl t ↦ let same = (e.beq_iff i k).0 t in rw t (ground (arith, h.0), h.1)
    | inr t ↦ rw t (
      ground (arith, h.0, lookup-insert k i v m, e.beq_iff i k, e.beq_iff k i),
      Distinct-insert k v m h.1,
    )
  ]

  pub lookup-remove :
      (k j : K) (m : Assoc K V)
      → Distinct m
      → lookup j (remove k m) ≡ (if e.beq k j then none else lookup j m)
  unfolding lookup remove
  lookup-remove k j [] h = ground arith
  lookup-remove k j ((i, w) ∷ m) h =
      ground (arith, h.0, e.beq_iff k j, e.beq_iff i k, e.beq_iff i j, lookup-remove k j m h.1)

  pub Distinct-remove : (k : K) (m : Assoc K V) → Distinct m → Distinct (remove k m)
  unfolding lookup remove
  Distinct-remove k [] h = tt
  Distinct-remove k ((i, w) ∷ m) h = elim (Bool-cases (e.beq i k)) [
    | inl t ↦ rw t h.1
    | inr t ↦ rw t (
      ground (arith, h.0, lookup-remove k i m h.1, e.beq_iff i k, e.beq_iff k i),
      Distinct-remove k m h.1,
    )
  ]

pub beq_refl {ℓ} : {K : Type ℓ} ⦃e : Eq K⦄ (k : K) → e.beq k k ≡ true
beq_refl ⦃e⦄ k = (e.beq_iff k k).1 refl
