-- ===== src/Prelude/Buffer.antt =====
-- A `VecDeque` that holds the newest entries of a log: what is behind its front, and the newest
-- entries that a query takes from its back.
use mathlib.Core.List.{reverse, reverse-append, reverse-cons}
use helbreath_backend.Prelude.{
  ℕ, zero, suc, ◌+◌, ◌-◌, ◌≤◌, ◌≡◌, refl, sym, ap, ◌∙◌, List, [], ◌∷◌, ◌++◌, arith, ltb, leb,
  if◌then◌else◌, Bool-cases, inl, inr, length, take, drop, length-append, length-drop, take-append,
  take-append-drop,
}

module _ {ℓ} {A : Type ℓ} where
  -- `while len() > limit { pop_front() }`
  unfoldable pub trim_to : ℕ → List A → List A
  trim_to limit [] = []
  trim_to limit (x ∷ xs) = if ltb limit (length (x ∷ xs)) then trim_to limit xs else x ∷ xs

  -- `pop_front`
  abbrev pub pop_front : List A → List A
  pop_front [] = []
  pop_front (x ∷ xs) = xs

  -- `if len() >= limit { pop_front() }`, and then `push_back`.
  unfoldable pub push_full : ℕ → A → List A → List A
  push_full limit x xs = (if leb limit (length xs) then pop_front xs else xs) ++ (x ∷ [])

  -- The last `n` entries, in their order.
  abbrev pub last : ℕ → List A → List A
  last n xs = drop (length xs - n) xs

  drop-nil : (n : ℕ) → drop {A = A} n [] ≡ []
  drop-nil zero = refl
  drop-nil (suc n) = refl

  last_all : (n : ℕ) (xs : List A) → length xs ≤ n → last n xs ≡ xs
  last_all n xs h = let none_gone : length xs - n ≡ 0 = omega (arith, h) in rw none_gone refl

  pub length-last : (n : ℕ) (xs : List A) → length (last n xs) ≤ n
  length-last n xs = omega (arith, length-drop (length xs - n) xs)

  pub trim_to-last : (n : ℕ) (xs : List A) → trim_to n xs ≡ last n xs
  unfolding trim_to
  trim_to-last n [] = sym (drop-nil (0 - n))
  trim_to-last n (x ∷ xs) = elim (Bool-cases (ltb n (length (x ∷ xs)))) [
    | inl t ↦
        let shift : length (x ∷ xs) - n ≡ suc (length xs - n) = ground arith in
        rw (t, shift) (trim_to-last n xs)
    | inr t ↦ let none_gone : length (x ∷ xs) - n ≡ 0 = ground arith in rw (t, none_gone) refl
  ]

  drop-drop : (n m : ℕ) (xs : List A) → drop n (drop m xs) ≡ drop (m + n) xs
  drop-drop n zero xs = ap (λ i. drop i xs) (omega arith)
  drop-drop n (suc m) [] = drop-nil n ∙ sym (drop-nil (suc m + n))
  drop-drop n (suc m) (x ∷ xs) =
      let sum : suc (m + n) ≡ suc m + n = omega arith in
      drop-drop n m xs ∙ ap (λ i. drop i (x ∷ xs)) sum

  drop_short : (n : ℕ) (xs ys : List A) → n ≤ length xs → drop n (xs ++ ys) ≡ drop n xs ++ ys
  drop_short zero xs ys h = refl
  drop_short (suc n) [] ys h = absurd (omega arith)
  drop_short (suc n) (x ∷ xs) ys h = drop_short n xs ys (omega arith)

  -- What is kept behind a further entry does not depend on what went before.
  pub last-snoc :
      (n : ℕ) (xs : List A) (x : A) → last n (last n xs ++ (x ∷ [])) ≡ last n (xs ++ (x ∷ []))
  last-snoc n xs x =
      let k = length xs - n in
      let joined : drop k xs ++ (x ∷ []) ≡ drop k (xs ++ (x ∷ [])) =
        sym (drop_short k xs (x ∷ []) (omega arith)) in
      let size = length-append xs (x ∷ []) in
      rw joined (
        drop-drop (length (drop k (xs ++ (x ∷ []))) - n) k (xs ++ (x ∷ []))
        ∙ ap (λ i. drop i (xs ++ (x ∷ []))) (omega (arith, size, length-drop k (xs ++ (x ∷ [])))))

  pub last-last : (k n : ℕ) (xs : List A) → k ≤ n → last k (last n xs) ≡ last k xs
  last-last k n xs h =
      let from = length xs - n in
      drop-drop (length (drop from xs) - k) from xs
      ∙ ap (λ i. drop i xs) (omega (arith, h, length-drop from xs))

  pop_front-drop : (xs : List A) → pop_front xs ≡ drop 1 xs
  pop_front-drop [] = refl
  pop_front-drop (x ∷ xs) = refl

  pub push_full-last :
      (n : ℕ) (x : A) (xs : List A) → 1 ≤ n → push_full n x (last n xs) ≡ last n (xs ++ (x ∷ []))
  unfolding push_full
  push_full-last n x xs h =
      let k = length xs - n in
      let kept = length-drop k xs in
      let size = length-append xs (x ∷ []) in
      elim (Bool-cases (leb n (length (last n xs)))) [
        | inl t ↦
            rw (t, pop_front-drop (drop k xs), drop-drop 1 k xs)
              (sym (drop_short (k + 1) xs (x ∷ []) (ground (arith, kept, h)))
                ∙ ap (λ i. drop i (xs ++ (x ∷ []))) (ground (arith, kept, size)))
        | inr t ↦ rw t (
            sym (drop_short k xs (x ∷ []) (omega arith))
            ∙ ap (λ i. drop i (xs ++ (x ∷ []))) (ground (arith, kept, size)))
      ]

  length-reverse : (xs : List A) → length (reverse xs) ≡ length xs
  length-reverse [] = refl
  length-reverse (x ∷ xs) =
      rw (reverse-cons x xs) (omega (arith, length-append (reverse xs) (x ∷ []), length-reverse xs))

  take_all : (n : ℕ) (xs : List A) → length xs ≤ n → take n xs ≡ xs
  take_all zero [] h = refl
  take_all (suc n) [] h = refl
  take_all zero (x ∷ xs) h = absurd (omega arith)
  take_all (suc n) (x ∷ xs) h = ap (λ t. x ∷ t) (take_all n xs (omega arith))

  -- `iter().rev().take(n)`: the last entries, the newest first.
  pub take-reverse : (n : ℕ) (xs : List A) → take n (reverse xs) ≡ reverse (last n xs)
  take-reverse n xs = elim (Bool-cases (leb n (length xs))) [
    | inl t ↦
        let k = length xs - n in
        let size : n ≡ length (reverse (drop k xs)) =
          ground (arith, length-reverse (drop k xs), length-drop k xs) in
        ap (λ l. take n (reverse l)) (sym (take-append-drop k xs))
        ∙ ap (take n) (reverse-append (take k xs) (drop k xs))
        ∙ ap (λ i. take i (reverse (drop k xs) ++ reverse (take k xs))) size
        ∙ take-append (reverse (drop k xs)) (reverse (take k xs))
    | inr t ↦
        take_all n (reverse xs) (ground (arith, length-reverse xs))
        ∙ ap reverse (sym (last_all n xs (ground arith)))
  ]
