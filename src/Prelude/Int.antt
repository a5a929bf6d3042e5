-- ===== src/Prelude/Int.antt =====
-- Signed integers over the native numbers: the values of i16, i32 and i64, with their wrap-around
-- written out, and the decimal form that `format!` prints.
use helbreath_backend.Prelude.{
  ℕ, zero, suc, ◌+◌, ◌-◌, ◌/◌, ◌%◌, ◌^◌, ◌≤◌, ◌≡◌, ◌↔◌, Bool, true, false, List, [], ◌∷◌, arith,
  ltb, leb, ◌==◌, Eq, if◌then◌else◌,
}

-- `negsuc n` is -(n + 1).
pub data ℤ : Type 0 where
  pos : ℕ → ℤ
  negsuc : ℕ → ℤ

abbrev pub pos_part : ℤ → ℕ
pos_part (pos n) = n
pos_part (negsuc n) = 0

abbrev pub neg_part : ℤ → ℕ
neg_part (pos n) = 0
neg_part (negsuc n) = suc n

-- a - b, as an integer.
abbrev pub sub_ℕ : ℕ → ℕ → ℤ
sub_ℕ a b = if leb b a then pos (a - b) else negsuc (b - a - 1)

infix 50 ◌≤ℤ◌
abbrev pub ◌≤ℤ◌ : ℤ → ℤ → Type 0
a ≤ℤ b = pos_part a + neg_part b ≤ pos_part b + neg_part a

abbrev pub leb_ℤ : ℤ → ℤ → Bool
leb_ℤ a b = leb (pos_part a + neg_part b) (pos_part b + neg_part a)

abbrev pub ltb_ℤ : ℤ → ℤ → Bool
ltb_ℤ a b = ltb (pos_part a + neg_part b) (pos_part b + neg_part a)

abbrev pub eqb_ℤ : ℤ → ℤ → Bool
eqb_ℤ (pos a) (pos b) = a == b
eqb_ℤ (negsuc a) (negsuc b) = a == b
eqb_ℤ _ _ = false

pub eqb_ℤ_iff : (a b : ℤ) → (eqb_ℤ a b ≡ true) ↔ (a ≡ b)
eqb_ℤ_iff (pos a) (pos b) = ground arith
eqb_ℤ_iff (negsuc a) (negsuc b) = ground arith
eqb_ℤ_iff (pos a) (negsuc b) = ground arith
eqb_ℤ_iff (negsuc a) (pos b) = ground arith

instance abbrev pub int_eq : Eq ℤ
int_eq = record { beq = eqb_ℤ; beq_iff = eqb_ℤ_iff }

-- The number that a w-bit pattern below 2 ^ w stands for in two's complement.
abbrev pub signed : ℕ → ℕ → ℤ
signed w n = if ltb n (2 ^ (w - 1)) then pos n else negsuc (2 ^ w - n - 1)

-- The two's complement pattern of an integer.
abbrev pub pattern_of : ℕ → ℤ → ℕ
pattern_of w (pos n) = n % 2 ^ w
pattern_of w (negsuc n) = 2 ^ w - 1 - n % 2 ^ w

-- Wrapping subtraction on i32.
unfoldable pub sub32 : ℤ → ℤ → ℤ
sub32 a b =
    let exact = sub_ℕ (pos_part a + neg_part b) (neg_part a + pos_part b) in
    signed 32 (pattern_of 32 exact)

-- Wrapping addition on i32.
unfoldable pub add32 : ℤ → ℤ → ℤ
add32 a b =
    let exact = sub_ℕ (pos_part a + pos_part b) (neg_part a + neg_part b) in
    signed 32 (pattern_of 32 exact)

abbrev pub max_ℤ : ℤ → ℤ → ℤ
max_ℤ a b = if leb_ℤ a b then b else a

-- `i32::abs` of a release build: the absolute value of the least integer wraps to itself.
unfoldable pub abs32 : ℤ → ℤ
abs32 (pos n) = pos n
abs32 (negsuc n) = signed 32 ((n + 1) % 2 ^ 32)

-- `%` truncates towards zero: the remainder has the sign of the dividend.
unfoldable pub rem : ℤ → ℕ → ℤ
rem (pos n) k = pos (n % k)
rem (negsuc n) k = sub_ℕ 0 ((n + 1) % k)

-- The decimal digits of a number, most significant first. A number is below 10 ^ fuel when the fuel
-- is its successor, so the fuel that `decimal` gives never runs out.
digits_loop : ℕ → ℕ → List ℕ → List ℕ
digits_loop zero n out = out
digits_loop (suc fuel) n out =
    let rest = digits_loop fuel (n / 10) ((b'0' + n % 10) ∷ out) in
    if ltb n 10 then (b'0' + n) ∷ out else rest

unfoldable pub decimal : ℕ → List ℕ
unfolding digits_loop
decimal n = digits_loop (suc n) n []

unfoldable pub int_to_string : ℤ → List ℕ
unfolding decimal
int_to_string (pos n) = decimal n
int_to_string (negsuc n) = b'-' ∷ decimal (n + 1)
