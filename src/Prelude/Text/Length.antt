-- ===== src/Prelude/Text/Length.antt =====
-- The lengths of what `from_utf8` and `trim` return.
use helbreath_backend.Prelude.{
  ℕ, suc, ◌+◌, ◌≤◌, ◌≡◌, refl, subst, Bool, true, false, ◌&&◌, Option, none, some, List, [], ◌∷◌,
  arith, length, if◌then◌else◌, Bool-cases, inl, inr, ltb, leb,
}
use helbreath_backend.Prelude.Text.{
  Text, len, len_utf8, from_utf8, cons_if, is_cont, two_bytes, three_bytes, four_bytes,
  is_whitespace, is_empty, trim_start, trim_end, trim,
}

abbrev HasLen : Option Text → ℕ → Type 0
HasLen none n = Unit
HasLen (some t) n = len t ≡ n

cons_if-HasLen :
    (b : Bool) (c k n m : ℕ) (r : Option Text)
    → m ≡ k + n
    → (b ≡ true → len_utf8 c ≡ k)
    → HasLen r n
    → HasLen (cons_if b c r) m
cons_if-HasLen true c k n m none e h l = tt
cons_if-HasLen true c k n m (some t) e h l = omega (arith, h refl)
cons_if-HasLen false c k n m r e h l = tt

if-HasLen :
    (b : Bool) (r s : Option Text) (n : ℕ)
    → (b ≡ true → HasLen r n)
    → (b ≡ false → HasLen s n)
    → HasLen (if b then r else s) n
if-HasLen true r s n h k = h refl
if-HasLen false r s n h k = k refl

ascii_len : (a : ℕ) → ltb a 0x80 ≡ true → len_utf8 a ≡ 1
ascii_len a h = ground arith

two_len : (a b : ℕ) → (leb 0xC2 a && ltb a 0xE0 && is_cont b) ≡ true → len_utf8 (two_bytes a b) ≡ 2
two_len a b h = ground arith

two_len' :
    (a b : ℕ) → ltb a 0xE0 ≡ true → (leb 0xC2 a && is_cont b) ≡ true → len_utf8 (two_bytes a b) ≡ 2
two_len' a b l h = ground arith

three_len :
    (a b c : ℕ) (q : Bool)
    → ltb a 0xF0 ≡ true
    → (is_cont b && is_cont c && leb 0x800 (three_bytes a b c) && q) ≡ true
    → len_utf8 (three_bytes a b c) ≡ 3
three_len a b c q l h = ground arith

three_len' :
    (a b c : ℕ) (q : Bool)
    → (ltb a 0xF0 && is_cont b && is_cont c && leb 0x800 (three_bytes a b c) && q) ≡ true
    → len_utf8 (three_bytes a b c) ≡ 3
three_len' a b c q h = ground arith

four_len :
    (a b c d : ℕ) (q : Bool)
    → (is_cont b && is_cont c && is_cont d && leb 0x10000 (four_bytes a b c d) && q) ≡ true
    → len_utf8 (four_bytes a b c d) ≡ 4
four_len a b c d q h = ground arith

pub from_utf8-HasLen : (bytes : List ℕ) → HasLen (from_utf8 bytes) (length bytes)
unfolding from_utf8
from_utf8-HasLen [] = refl
from_utf8-HasLen (a ∷ []) = cons_if-HasLen (ltb a 0x80) a 1 0 1 (some []) refl (ascii_len a) refl
from_utf8-HasLen (a ∷ b ∷ []) =
    if-HasLen (ltb a 0x80) _ _ 2
      (λ e. cons_if-HasLen true a 1 1 2 _ refl (λ _. ascii_len a e) (from_utf8-HasLen (b ∷ [])))
      (λ e. cons_if-HasLen _ (two_bytes a b) 2 0 2 (some []) refl (two_len a b) refl)
from_utf8-HasLen (a ∷ b ∷ c ∷ []) =
    if-HasLen (ltb a 0x80) _ _ 3
      (λ e. cons_if-HasLen true a 1 2 3 _ refl (λ _. ascii_len a e) (from_utf8-HasLen (b ∷ c ∷ [])))
      (λ e.
        if-HasLen (ltb a 0xE0) _ _ 3
          (λ e'.
            cons_if-HasLen _ (two_bytes a b) 2 1 3 _ refl (two_len' a b e')
              (from_utf8-HasLen (c ∷ [])))
          (λ e'.
            cons_if-HasLen _ (three_bytes a b c) 3 0 3 (some []) refl (three_len' a b c _) refl))
from_utf8-HasLen (a ∷ b ∷ c ∷ d ∷ rest) =
    if-HasLen (ltb a 0x80) _ _ size
      (λ e.
        cons_if-HasLen true a 1 (length (b ∷ c ∷ d ∷ rest)) size _ (omega arith)
          (λ _. ascii_len a e) (from_utf8-HasLen (b ∷ c ∷ d ∷ rest)))
      (λ e.
        if-HasLen (ltb a 0xE0) _ _ size
          (λ e'.
            cons_if-HasLen _ (two_bytes a b) 2 (length (c ∷ d ∷ rest)) size _ (omega arith)
              (two_len' a b e') (from_utf8-HasLen (c ∷ d ∷ rest)))
          (λ e'.
            if-HasLen (ltb a 0xF0) _ _ size
              (λ e''.
                cons_if-HasLen _ (three_bytes a b c) 3 (length (d ∷ rest)) size _ (omega arith)
                  (three_len a b c _ e'') (from_utf8-HasLen (d ∷ rest)))
              (λ e''.
                cons_if-HasLen _ (four_bytes a b c d) 4 (length rest) size _ (omega arith)
                  (four_len a b c d _) (from_utf8-HasLen rest))))
  where
    size : ℕ
    size = suc (suc (suc (suc (length rest))))

-- The length of the text is the number of the bytes that it was read from.
pub len-from_utf8 : (bytes : List ℕ) (t : Text) → from_utf8 bytes ≡ some t → len t ≡ length bytes
len-from_utf8 bytes t e = subst (λ o. HasLen o (length bytes)) e (from_utf8-HasLen bytes)

len-trim_start : (t : Text) → len (trim_start t) ≤ len t
unfolding trim_start
len-trim_start [] = omega arith
len-trim_start (c ∷ cs) = elim (Bool-cases (is_whitespace c)) [
  | inl e ↦ rw e (omega (arith, len-trim_start cs))
  | inr e ↦ rw e (omega arith)
]

len-trim_end : (t : Text) → len (trim_end t) ≤ len t
unfolding trim_end
len-trim_end [] = omega arith
len-trim_end (c ∷ cs) = elim (Bool-cases (is_whitespace c && is_empty (trim_end cs))) [
  | inl e ↦ rw e (omega arith)
  | inr e ↦ rw e (omega (arith, len-trim_end cs))
]

pub len-trim : (t : Text) → len (trim t) ≤ len t
unfolding trim
len-trim t = omega (arith, len-trim_end (trim_start t), len-trim_start t)
