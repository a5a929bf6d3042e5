-- ===== src/Prelude/Table.antt =====
-- Tables as lists of rows, with what the SQL statements of the sources do to them.
use helbreath_backend.Prelude.{
  ℕ, ◌+◌, ◌≤◌, ◌≡◌, refl, Bool, true, false, List, [], ◌∷◌, ◌++◌, Option, none, some, arith,
  if◌then◌else◌, Bool-cases, inl, inr, All,
}

module _ {ℓ} {A : Type ℓ} where
  -- `SELECT ... WHERE ... LIMIT 1`
  abbrev pub find_first : (A → Bool) → List A → Option A
  find_first p [] = none
  find_first p (x ∷ xs) = if p x then some x else find_first p xs

  -- `EXISTS (SELECT 1 ... WHERE ...)`
  abbrev pub exists_row : (A → Bool) → List A → Bool
  exists_row p [] = false
  exists_row p (x ∷ xs) = if p x then true else exists_row p xs

  -- `SELECT ... WHERE ...`
  abbrev pub select_where : (A → Bool) → List A → List A
  select_where p [] = []
  select_where p (x ∷ xs) = let rest = select_where p xs in if p x then x ∷ rest else rest

  -- `UPDATE ... SET ... WHERE ...`
  abbrev pub update_where : (A → Bool) → (A → A) → List A → List A
  update_where p f [] = []
  update_where p f (x ∷ xs) = (if p x then f x else x) ∷ update_where p f xs

  -- `rows_affected`
  abbrev pub count_where : (A → Bool) → List A → ℕ
  count_where p [] = 0
  count_where p (x ∷ xs) = (if p x then 1 else 0) + count_where p xs

module _ {ℓ} {A : Type ℓ} where
  pub find_first-holds :
      (p : A → Bool) (xs : List A) (x : A) → find_first p xs ≡ some x → p x ≡ true
  find_first-holds p [] x e = absurd (cc e)
  find_first-holds p (y ∷ xs) x e = elim (Bool-cases (p y)) [
    | inl t ↦ let same : y ≡ x = cc (rw t at e) in rw (← same) t
    | inr t ↦ find_first-holds p xs x (rw t at e)
  ]

  pub exists-find_first :
      (p : A → Bool) (xs : List A) (x : A) → find_first p xs ≡ some x → exists_row p xs ≡ true
  exists-find_first p [] x e = absurd (cc e)
  exists-find_first p (y ∷ xs) x e = elim (Bool-cases (p y)) [
    | inl t ↦ rw t refl
    | inr t ↦ rw t (exists-find_first p xs x (rw t at e))
  ]

  pub exists-append :
      (p : A → Bool) (xs ys : List A) → exists_row p xs ≡ true → exists_row p (xs ++ ys) ≡ true
  exists-append p [] ys e = absurd (cc e)
  exists-append p (x ∷ xs) ys e = elim (Bool-cases (p x)) [
    | inl t ↦ rw t refl
    | inr t ↦ rw t (exists-append p xs ys (rw t at e))
  ]

  -- An update that leaves a test as it is.
  pub exists-update_where :
      (p q : A → Bool) (f : A → A) (xs : List A)
      → ((x : A) → q x ≡ true → p (f x) ≡ p x)
      → exists_row p (update_where q f xs) ≡ exists_row p xs
  exists-update_where p q f [] h = refl
  exists-update_where p q f (x ∷ xs) h = elim (Bool-cases (q x)) [
    | inl t ↦ rw (t, h x t, exists-update_where p q f xs h) refl
    | inr t ↦ rw (t, exists-update_where p q f xs h) refl
  ]

  -- The row that is found passes another test.
  pub exists-of_find_first :
      (p q : A → Bool) (xs : List A) (x : A)
      → find_first p xs ≡ some x
      → q x ≡ true
      → exists_row q xs ≡ true
  exists-of_find_first p q [] x e h = absurd (cc e)
  exists-of_find_first p q (y ∷ xs) x e h = elim (Bool-cases (p y)) [
    | inl t ↦ let same : y ≡ x = cc (rw t at e) in rw (same, h) refl
    | inr t ↦ elim (Bool-cases (q y)) [
      | inl u ↦ rw u refl
      | inr u ↦ rw u (exists-of_find_first p q xs x (rw t at e) h)
    ]
  ]

  pub All-update {κ μ} :
      (P : A → Type κ) (Q : A → Type μ) (q : A → Bool) (f : A → A) (xs : List A)
      → ((x : A) → P x → q x ≡ true → Q (f x))
      → ((x : A) → P x → q x ≡ false → Q x)
      → All P xs
      → All Q (update_where q f xs)
  All-update P Q q f [] h k a = tt
  All-update P Q q f (x ∷ xs) h k a = elim (Bool-cases (q x)) [
    | inl t ↦ rw t (h x a.0 t, All-update P Q q f xs h k a.1)
    | inr t ↦ rw t (k x a.0 t, All-update P Q q f xs h k a.1)
  ]

  pub All-map {κ μ} :
      (P : A → Type κ) (Q : A → Type μ) (xs : List A) → ((x : A) → P x → Q x) → All P xs → All Q xs
  All-map P Q [] h a = tt
  All-map P Q (x ∷ xs) h a = (h x a.0, All-map P Q xs h a.1)

  pub count-exists : (p : A → Bool) (xs : List A) → exists_row p xs ≡ true → 1 ≤ count_where p xs
  count-exists p [] e = absurd (cc e)
  count-exists p (x ∷ xs) e = ground (arith, e, count-exists p xs)

  -- The row that is found, behind an update that leaves the test as it is.
  pub find_first-update :
      (p q : A → Bool) (f : A → A) (xs : List A) (x : A)
      → ((y : A) → p (f y) ≡ p y)
      → find_first p xs ≡ some x
      → q x ≡ true
      → find_first p (update_where q f xs) ≡ some (f x)
  find_first-update p q f [] x h e t = absurd (cc e)
  find_first-update p q f (y ∷ xs) x h e t = elim (Bool-cases (p y)) [
    | inl u ↦ let same : y ≡ x = cc (rw u at e) in rw (same, t, h x) (rw (← same) (rw u refl))
    | inr u ↦
        let rest = find_first-update p q f xs x h (rw u at e) t in
        elim (Bool-cases (q y)) [ inl w ↦ rw (w, h y, u) rest | inr w ↦ rw (w, u) rest ]
  ]
