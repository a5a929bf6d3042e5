-- ===== src/Prelude/Bytes.antt =====
-- `^` on bytes, by tables that are checked by evaluation.
use Prim.Native.Nat.{bit_xor}
use helbreath_backend.Prelude.{ℕ, zero, suc, ◌<◌, ◌≡◌, refl, Bool, true, ◌&&◌, arith, ◌==◌, ltb}

-- A test passes on every number below a bound.
passes : (ℕ → Bool) → ℕ → Bool
passes test zero = true
passes test (suc bound) = passes test bound && test bound

passes_at : (test : ℕ → Bool) (bound k : ℕ) → k < bound → passes test bound ≡ true → test k ≡ true
unfolding passes
passes_at test zero k small all = absurd (omega arith)
passes_at test (suc bound) k small all = ground (arith, passes_at test bound k)

-- For every byte and every key: a byte comes out, and the key undoes itself.
xor_ok : ℕ → ℕ → Bool
xor_ok x k = bit_xor (bit_xor x k) k == x && ltb (bit_xor x k) 256

xor_table : passes (λ x. passes (xor_ok x) 256) 256 ≡ true
unfolding passes xor_ok
xor_table = refl

xor_at : (x k : ℕ) → x < 256 → k < 256 → xor_ok x k ≡ true
xor_at x k h l =
    passes_at (xor_ok x) 256 k l (passes_at (λ y. passes (xor_ok y) 256) 256 x h xor_table)

pub xor_undo : (x k : ℕ) → x < 256 → k < 256 → bit_xor (bit_xor x k) k ≡ x
unfolding xor_ok
xor_undo x k h l = ground (arith, xor_at x k h l)

pub xor_byte : (x k : ℕ) → x < 256 → k < 256 → bit_xor x k < 256
unfolding xor_ok
xor_byte x k h l = ground (arith, xor_at x k h l)
