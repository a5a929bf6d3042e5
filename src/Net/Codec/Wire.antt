-- ===== src/Net/Codec/Wire.antt =====
-- crates/net/src/lib.rs: `decode_wire_frame` behind `encode_wire_frame`.
use helbreath_backend.Prelude.{
  ℕ, ◌+◌, ◌^◌, ◌≤◌, ◌<◌, ◌≡◌, refl, Bool, true, false, Option, none, some, List, arith, length, All,
  ok, if◌then◌else◌,
}
use helbreath_backend.Net.Frame.{IsByte}
use helbreath_backend.Net.Frame.RoundTrip.{decode_frame-encode_frame, packet_of}
use helbreath_backend.Net.Codec.{
  WireCodecOptions, compress_wire_payload, obfuscate_if, deobfuscate_if, decompress_if,
  encode_wire_frame, decode_wire_frame,
}
use helbreath_backend.Net.Codec.Obfuscation.{deobfuscate-obfuscate}
use helbreath_backend.Net.Codec.Compression.{decompress-compress, compress_bytes}

-- The payload behind the compression, which is what the frame's length counts.
abbrev pub compressed : WireCodecOptions → List ℕ → List ℕ
compressed options payload = if options.compression then compress_wire_payload payload else payload

obfuscate_if_undo :
    (seed : Option ℕ) (payload : List ℕ)
    → All IsByte payload
    → (deobfuscate_if seed (obfuscate_if seed payload) ≡ payload)
      × (length (obfuscate_if seed payload) ≡ length payload)
unfolding deobfuscate_if obfuscate_if
obfuscate_if_undo none payload h = (refl, refl)
obfuscate_if_undo (some seed) payload h = deobfuscate-obfuscate payload seed h

compress_if_undo :
    (compression : Bool) (payload : List ℕ) (max : ℕ)
    → length payload ≤ max
    → decompress_if compression (if compression then compress_wire_payload payload else payload) max
      ≡ ok payload
unfolding decompress_if
compress_if_undo true payload max h = decompress-compress payload max h
compress_if_undo false payload max h = refl

compress_if_bytes :
    (compression : Bool) (payload : List ℕ)
    → All IsByte payload
    → All IsByte (if compression then compress_wire_payload payload else payload)
compress_if_bytes true payload h = compress_bytes payload h
compress_if_bytes false payload h = h

-- With the same options on both sides a frame restores its opcode and its payload of bytes, if the
-- opcode is a u16 and the payload and its compressed form keep the limit and the length field.
pub decode_wire_frame-encode_wire_frame :
    (opcode : ℕ) (payload : List ℕ) (max : ℕ) (options : WireCodecOptions)
    → opcode < 2 ^ 16
    → All IsByte payload
    → length payload ≤ max
    → length (compressed options payload) ≤ max
    → 2 + length (compressed options payload) < 2 ^ 16
    → 2 + length payload < 2 ^ 16
    → decode_wire_frame (encode_wire_frame opcode payload options) max options
      ≡ ok (packet_of opcode payload)
unfolding decode_wire_frame encode_wire_frame
decode_wire_frame-encode_wire_frame opcode payload max options op bytes fits small short plain =
    let body = compressed options payload in
    let hidden = obfuscate_if options.obfuscation_seed body in
    let undo =
      obfuscate_if_undo options.obfuscation_seed body
        (compress_if_bytes options.compression payload bytes) in
    rw
      (decode_frame-encode_frame opcode hidden max op (omega (arith, undo.1))
        (omega (arith, undo.1)))
      (rw undo.0 (rw (compress_if_undo options.compression payload max fits) (ground arith)))
