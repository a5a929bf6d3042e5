-- ===== src/Prelude/Text.antt =====
-- Rust's `str` as the list of its characters' code points, with what the sources use of it:
-- `from_utf8`, `len` (in bytes), `trim`, `is_empty`, `to_ascii_lowercase`, `contains`.
pub mod Trim
pub mod Length
pub mod Equal
use Prim.Native.Char.{code}
use Prim.Native.String.{String}
use helbreath_backend.Prelude.{
  ℕ, zero, suc, ◌+◌, ◌-◌, ◌*◌, ◌/◌, ◌%◌, ◌≤◌, ◌<◌, ◌≡◌, refl, Bool, true, false, ◌&&◌, ◌||◌, List,
  [], ◌∷◌, ◌++◌, map, Option, none, some, arith, ltb, leb, ◌==◌, if◌then◌else◌,
}
use mathlib.Core.List.{reverse}

abbrev pub Text : Type 0
Text = List ℕ

-- The code points of a literal.
abbrev pub codes : String → Text
codes String.[] = []
codes (String.◌∷◌ c s) = code c ∷ codes s

abbrev pub is_empty {ℓ} : {A : Type ℓ} → List A → Bool
is_empty [] = true
is_empty (x ∷ xs) = false

-- The bytes that a code point takes in UTF-8.
abbrev pub len_utf8 : ℕ → ℕ
len_utf8 c = if ltb c 0x80 then 1 else if ltb c 0x800 then 2 else if ltb c 0x10000 then 3 else 4

-- `str::len`
abbrev pub len : Text → ℕ
len [] = 0
len (c ∷ cs) = len_utf8 c + len cs

-- A continuation byte.
abbrev pub is_cont : ℕ → Bool
is_cont b = leb 0x80 b && ltb b 0xC0

-- The code points of a scalar value: no surrogate, at most 0x10FFFF.
abbrev pub is_scalar : ℕ → Bool
is_scalar c = ltb c 0xD800 || (leb 0xE000 c && ltb c 0x110000)

abbrev two_bytes : ℕ → ℕ → ℕ
two_bytes a b = (a - 0xC0) * 64 + (b - 0x80)

abbrev three_bytes : ℕ → ℕ → ℕ → ℕ
three_bytes a b c = (a - 0xE0) * 4096 + (b - 0x80) * 64 + (c - 0x80)

abbrev four_bytes : ℕ → ℕ → ℕ → ℕ → ℕ
four_bytes a b c d = (a - 0xF0) * 262144 + (b - 0x80) * 4096 + (c - 0x80) * 64 + (d - 0x80)

abbrev cons_if : Bool → ℕ → Option Text → Option Text
cons_if true c (some cs) = some (c ∷ cs)
cons_if true c none = none
cons_if false c r = none

-- `std::str::from_utf8`: the characters, or `none` where the bytes are no UTF-8. Overlong forms,
-- surrogates and values above 0x10FFFF are refused.
unfoldable pub from_utf8 : List ℕ → Option Text
from_utf8 [] = some []
from_utf8 (a ∷ []) = cons_if (ltb a 0x80) a (some [])
from_utf8 (a ∷ b ∷ []) =
    let one = from_utf8 (b ∷ []) in
    if ltb a 0x80
    then cons_if true a one
    else cons_if (leb 0xC2 a && ltb a 0xE0 && is_cont b) (two_bytes a b) (some [])
from_utf8 (a ∷ b ∷ c ∷ []) =
    let one = from_utf8 (b ∷ c ∷ []) in
    let two = from_utf8 (c ∷ []) in
    if ltb a 0x80
    then cons_if true a one
    else if ltb a 0xE0
    then cons_if (leb 0xC2 a && is_cont b) (two_bytes a b) two
    else cons_if
        (ltb a 0xF0
          && is_cont b
          && is_cont c
          && leb 0x800 (three_bytes a b c)
          && is_scalar (three_bytes a b c))
        (three_bytes a b c) (some [])
from_utf8 (a ∷ b ∷ c ∷ d ∷ rest) =
    let one = from_utf8 (b ∷ c ∷ d ∷ rest) in
    let two = from_utf8 (c ∷ d ∷ rest) in
    let three = from_utf8 (d ∷ rest) in
    let four = from_utf8 rest in
    if ltb a 0x80
    then cons_if true a one
    else if ltb a 0xE0
    then cons_if (leb 0xC2 a && is_cont b) (two_bytes a b) two
    else if ltb a 0xF0
    then cons_if
        (is_cont b && is_cont c && leb 0x800 (three_bytes a b c) && is_scalar (three_bytes a b c))
        (three_bytes a b c) three
    else cons_if
        (is_cont b
          && is_cont c
          && is_cont d
          && leb 0x10000 (four_bytes a b c d)
          && is_scalar (four_bytes a b c d))
        (four_bytes a b c d) four

-- `char::is_whitespace`: the Unicode property White_Space.
unfoldable pub is_whitespace : ℕ → Bool
is_whitespace c =
    (leb 9 c && leb c 13)
    || c == 32
    || c == 0x85
    || c == 0xA0
    || c == 0x1680
    || (leb 0x2000 c && leb c 0x200A)
    || c == 0x2028
    || c == 0x2029
    || c == 0x202F
    || c == 0x205F
    || c == 0x3000

pub trim_start : Text → Text
unfolding is_whitespace
trim_start [] = []
trim_start (c ∷ cs) = if is_whitespace c then trim_start cs else c ∷ cs

-- Trailing white space goes: a character stays if it, or one behind it, is not white.
pub trim_end : Text → Text
unfolding is_whitespace
trim_end [] = []
trim_end (c ∷ cs) =
    let rest = trim_end cs in if is_whitespace c && is_empty rest then [] else c ∷ rest

-- `str::trim`
unfoldable pub trim : Text → Text
unfolding trim_start trim_end
trim t = trim_end (trim_start t)

abbrev to_ascii_lower : ℕ → ℕ
to_ascii_lower c = if leb b'A' c && leb c b'Z' then c + 32 else c

unfoldable pub to_ascii_lowercase : Text → Text
to_ascii_lowercase = map to_ascii_lower

abbrev pub is_prefix : Text → Text → Bool
is_prefix [] t = true
is_prefix (p ∷ ps) [] = false
is_prefix (p ∷ ps) (c ∷ cs) = p == c && is_prefix ps cs

unfoldable pub contains : Text → Text → Bool
contains [] p = is_prefix p []
contains (c ∷ cs) p = is_prefix p (c ∷ cs) || contains cs p
