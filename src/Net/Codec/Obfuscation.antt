-- ===== src/Net/Codec/Obfuscation.antt =====
-- crates/net/src/lib.rs: the XOR stream.
use helbreath_backend.Prelude.{
  ℕ, suc, ◌+◌, ◌<◌, ◌≡◌, refl, ap, ap₂, List, [], ◌∷◌, arith, length, All,
}
use helbreath_backend.Prelude.Bytes.{xor_undo, xor_byte}
use helbreath_backend.Net.Frame.{IsByte}
use helbreath_backend.Net.Codec.{
  stream_key, obfuscate_from, obfuscate_wire_payload, deobfuscate_wire_payload,
}

stream_key-lt : (seed idx : ℕ) → stream_key seed idx < 256
stream_key-lt seed idx = omega arith

obfuscate_from_undo :
    (seed idx : ℕ) (payload : List ℕ)
    → All IsByte payload
    → obfuscate_from seed idx (obfuscate_from seed idx payload) ≡ payload
unfolding obfuscate_from
obfuscate_from_undo seed idx [] h = refl
obfuscate_from_undo seed idx (byte ∷ rest) h =
    ap₂ (λ x xs. x ∷ xs) (xor_undo byte (stream_key seed idx) h.0 (stream_key-lt seed idx))
      (obfuscate_from_undo seed (idx + 1) rest h.1)

obfuscate_from_bytes :
    (seed idx : ℕ) (payload : List ℕ)
    → All IsByte payload
    → All IsByte (obfuscate_from seed idx payload)
unfolding obfuscate_from
obfuscate_from_bytes seed idx [] h = tt
obfuscate_from_bytes seed idx (byte ∷ rest) h = (
  xor_byte byte (stream_key seed idx) h.0 (stream_key-lt seed idx),
  obfuscate_from_bytes seed (idx + 1) rest h.1,
)

length-obfuscate_from :
    (seed idx : ℕ) (payload : List ℕ) → length (obfuscate_from seed idx payload) ≡ length payload
unfolding obfuscate_from
length-obfuscate_from seed idx [] = refl
length-obfuscate_from seed idx (byte ∷ rest) = ap suc (length-obfuscate_from seed (idx + 1) rest)

-- Obfuscating keeps the length, and its inverse with the same seed restores every payload of bytes.
pub deobfuscate-obfuscate :
    (payload : List ℕ) (seed : ℕ)
    → All IsByte payload
    → (deobfuscate_wire_payload (obfuscate_wire_payload payload seed) seed ≡ payload)
      × (length (obfuscate_wire_payload payload seed) ≡ length payload)
unfolding deobfuscate_wire_payload
deobfuscate-obfuscate payload seed h =
    (obfuscate_from_undo seed 0 payload h, length-obfuscate_from seed 0 payload)
