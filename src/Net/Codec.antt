-- ===== src/Net/Codec.antt =====
-- crates/net/src/lib.rs: the payload codec, run-length compression below an XOR stream, and the
-- frames that carry it.
use Prim.Native.Nat.{bit_xor}
pub mod Obfuscation
pub mod Compression
pub mod Wire
use helbreath_backend.Prelude.{
  ℕ, zero, suc, ◌+◌, ◌*◌, ◌%◌, ◌^◌, Bool, ◌&&◌, ◌||◌, not, Option, none, some, List, [], ◌∷◌, ◌++◌,
  ltb, leb, ◌==◌, if◌then◌else◌, Result, ok, err, ◌>>=◌, ◌>>◌, fail_if, map_err, length, drop,
  replicate,
}
use helbreath_backend.Net.Frame.{
  PacketHeader, DecodedPacket, DecodeError, decode_frame, encode_frame,
}

pub record WireCodecOptions : Type 0 where
  pub compression : Bool
  pub obfuscation_seed : Option ℕ

pub data WireCodecError : Type 0 where
  malformed_compression_stream decompressed_payload_too_large : WireCodecError

pub data WireDecodeError : Type 0 where
  frame : DecodeError → WireDecodeError
  codec : WireCodecError → WireDecodeError

-- `seed.wrapping_add((idx as u8).wrapping_mul(31))`
abbrev pub stream_key : ℕ → ℕ → ℕ
stream_key seed idx = (seed + (idx % 256) * 31 % 256) % 256

-- The iterator's `enumerate` and `map`, from the index `idx` on.
obfuscate_from : ℕ → ℕ → List ℕ → List ℕ
obfuscate_from seed idx [] = []
obfuscate_from seed idx (byte ∷ rest) =
    bit_xor byte (stream_key seed idx) ∷ obfuscate_from seed (idx + 1) rest

pub obfuscate_wire_payload : List ℕ → ℕ → List ℕ
unfolding obfuscate_from
obfuscate_wire_payload payload seed = obfuscate_from seed 0 payload

pub deobfuscate_wire_payload : List ℕ → ℕ → List ℕ
unfolding obfuscate_wire_payload
deobfuscate_wire_payload payload seed = obfuscate_wire_payload payload seed

-- The inner loop: `run` grows while the next byte is the same and `run < 255`.
count_run : ℕ → List ℕ → ℕ → ℕ
count_run byte [] run = run
count_run byte (next ∷ rest) run =
    if next == byte && ltb run 255 then count_run byte rest (run + 1) else run

-- What one round of the outer loop pushes.
run_output : ℕ → ℕ → List ℕ
run_output run byte =
    if leb 4 run || byte == 0xFF then 0xFF ∷ (run % 256) ∷ byte ∷ [] else replicate run byte

-- The outer loop, over what stands behind `idx`. A round takes one byte at least, so the length is
-- fuel enough.
compress_loop : ℕ → List ℕ → List ℕ
compress_loop zero payload = []
compress_loop (suc fuel) [] = []
compress_loop (suc fuel) (byte ∷ rest) =
    let run = count_run byte rest 1 in
    run_output run byte ++ compress_loop fuel (drop run (byte ∷ rest))

pub compress_wire_payload : List ℕ → List ℕ
unfolding compress_loop run_output count_run
compress_wire_payload payload = compress_loop (length payload) payload

push_literal : ℕ → ℕ → List ℕ → Result WireCodecError (List ℕ)
push_literal max_output byte out =
    let out' = out ++ (byte ∷ []) in
    if ltb max_output (length out') then err decompressed_payload_too_large else ok out'

-- A vector is shorter than `usize::MAX`, so the saturating sum of the source does not saturate.
push_run : ℕ → ℕ → ℕ → List ℕ → Result WireCodecError (List ℕ)
push_run max_output count value out =
    if count == 0
    then err malformed_compression_stream
    else if ltb max_output (length out + count)
    then err decompressed_payload_too_large
    else ok (out ++ replicate count value)

-- The loop of `decompress_wire_payload`, over what stands behind `idx`.
decompress_loop : ℕ → List ℕ → List ℕ → Result WireCodecError (List ℕ)
decompress_loop max_output [] out = ok out
decompress_loop max_output (byte ∷ []) out =
    if not (byte == 0xFF)
    then push_literal max_output byte out
    else err malformed_compression_stream
decompress_loop max_output (byte ∷ a ∷ []) out =
    if not (byte == 0xFF)
    then (push_literal max_output byte out >>= λ out'. decompress_loop max_output (a ∷ []) out')
    else err malformed_compression_stream
decompress_loop max_output (byte ∷ count ∷ value ∷ rest) out =
    if not (byte == 0xFF)
    then (push_literal max_output byte out >>= λ out'.
        decompress_loop max_output (count ∷ value ∷ rest) out')
    else (push_run max_output count value out >>= λ out'. decompress_loop max_output rest out')

pub decompress_wire_payload : List ℕ → ℕ → Result WireCodecError (List ℕ)
unfolding decompress_loop push_literal push_run
decompress_wire_payload payload max_output = decompress_loop max_output payload []

obfuscate_if : Option ℕ → List ℕ → List ℕ
obfuscate_if none payload = payload
obfuscate_if (some seed) payload = obfuscate_wire_payload payload seed

deobfuscate_if : Option ℕ → List ℕ → List ℕ
deobfuscate_if none payload = payload
deobfuscate_if (some seed) payload = deobfuscate_wire_payload payload seed

pub encode_wire_frame : ℕ → List ℕ → WireCodecOptions → List ℕ
unfolding obfuscate_if
encode_wire_frame opcode payload options =
    let compressed = if options.compression then compress_wire_payload payload else payload in
    encode_frame opcode (obfuscate_if options.obfuscation_seed compressed)

decompress_if : Bool → List ℕ → ℕ → Result WireCodecError (List ℕ)
decompress_if compression payload max_payload =
    if compression then decompress_wire_payload payload max_payload else ok payload

pub decode_wire_frame : List ℕ → ℕ → WireCodecOptions → Result WireDecodeError DecodedPacket
unfolding deobfuscate_if decompress_if
decode_wire_frame bytes max_payload options = do
  decoded ← map_err frame (decode_frame bytes max_payload)
  let plain = deobfuscate_if options.obfuscation_seed decoded.payload
  payload ← map_err codec (decompress_if options.compression plain max_payload)
  fail_if (ltb max_payload (length payload)) (codec decompressed_payload_too_large)
  ok (record {
    header = record { length = (2 + length payload) % 2 ^ 16; opcode = decoded.header.opcode };
    payload = payload;
  })
