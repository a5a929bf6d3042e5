-- ===== src/Net/Fields.antt =====
-- crates/net/src/lib.rs: what both translators read off a payload: pieces between zero bytes,
-- little-endian integers and texts.
pub mod Trimmed
use helbreath_backend.Prelude.{
  ℕ, suc, ◌+◌, ◌*◌, ◌<◌, ◌≤◌, ◌≡◌, Bool, Option, none, some, List, [], ◌∷◌, ◌==◌, if◌then◌else◌,
  drop, arith,
}
use helbreath_backend.Prelude.Int.{ℤ, signed}
use helbreath_backend.Prelude.Text.{Text, from_utf8, trim}
use helbreath_backend.Net.Frame.{at}

-- `payload.split(|b| *b == 0)`, whose first piece always exists: that piece, and the further ones.
unfoldable pub split_zero : List ℕ → List ℕ × List (List ℕ)
split_zero [] = ([], [])
split_zero (b ∷ bs) =
    let (first, more) = split_zero bs in if b == 0 then ([], first ∷ more) else (b ∷ first, more)

-- `payload.splitn(2, |b| *b == 0)`: the piece before the first zero byte, and what stands behind it,
-- if there is a zero byte.
unfoldable pub splitn_zero : List ℕ → List ℕ × Option (List ℕ)
splitn_zero [] = ([], none)
splitn_zero (b ∷ bs) =
    let (first, more) = splitn_zero bs in if b == 0 then ([], some bs) else (b ∷ first, more)

-- `from_utf8(...)`, then `trim`.
unfoldable pub trimmed_text : List ℕ → Option Text
unfolding split_zero trim from_utf8
trimmed_text input = elim (from_utf8 (split_zero input).0) [ none ↦ none | some t ↦ some (trim t) ]

-- The bits of `i32::from_le_bytes`.
abbrev pub u32_at : List ℕ → ℕ → ℕ
u32_at p i = at p i + 256 * at p (i + 1) + 65536 * at p (i + 2) + 16777216 * at p (i + 3)

abbrev pub i32_at : List ℕ → ℕ → ℤ
i32_at p i = signed 32 (u32_at p i)
