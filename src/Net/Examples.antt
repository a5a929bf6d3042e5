-- ===== src/Net/Examples.antt =====
-- crates/net/src/lib.rs: the protocol on concrete bytes.
use helbreath_backend.Prelude.{
  ℕ, ◌+◌, ◌*◌, ◌≤◌, ◌≡◌, refl, true, List, [], ◌∷◌, ◌++◌, none, some, arith, ok, length, take,
}
use helbreath_backend.Prelude.Text.{Text, len}
use helbreath_backend.Domain.{Uuid, UuidCrate}
use helbreath_backend.Application.{attack, validate_client_command}
use helbreath_backend.Net.{in_world, legacy_v382, as_domain_state}
use helbreath_backend.Net.Frame.{decode_frame, encode_frame, split_frames}
use helbreath_backend.Net.Frame.RoundTrip.{packet_of, encode_frame-decode_frame}
use helbreath_backend.Net.Frame.Split.{Decomposes, split_frames-Decomposes, split_frames-append}
use helbreath_backend.Net.Codec.{
  compress_wire_payload, decompress_wire_payload, encode_wire_frame, decode_wire_frame,
}
use helbreath_backend.Net.Codec.Compression.{decompress-compress, length-compress}
use helbreath_backend.Net.Codec.Wire.{decode_wire_frame-encode_wire_frame}
use helbreath_backend.Net.Client.{parse_uuid_payload, translate_packet_for_version}
use helbreath_backend.Net.Client.Accepted.{IsCleanCommand, translate_packet_accepted}
use helbreath_backend.Net.Client.UuidPayload.{parse_uuid_payload_raw}
use helbreath_backend.Net.Fields.{splitn_zero, trimmed_text}
use helbreath_backend.Net.Server.{
  translate_server_packet_for_version, ServerMessage, chat_broadcast,
}
use helbreath_backend.Net.Server.Accepted.{IsClean, translate_server_packet_accepted}
use helbreath_backend.Net.RateLimiter.{nano, F64, run_attempts, new_limiter}
use helbreath_backend.Net.RateLimiter.Bound.{k, k1, attempts_of, run_attempts_bound}
use helbreath_backend.Application.Permission.{IsOpen, stage_of}

-- A big-endian number, as `Uuid::from_bytes` reads one.
abbrev pub number_of : ℕ → List ℕ → ℕ
number_of n [] = n
number_of n (b ∷ bs) = number_of (256 * n + b) bs

abbrev no_text : (t : Text) (u : Uuid) → none ≡ some u → 32 ≤ len t
no_text t u e = absurd (cc e)

-- A crate that reads bytes and rejects every text.
abbrev pub sample_crate : UuidCrate
sample_crate = record {
  from_bytes = number_of 0;
  parse_str = λ t. none;
  to_string = λ u. [];
  parse_str_len = no_text;
}

abbrev sixteen : List ℕ
sixteen = 1 ∷ 2 ∷ 3 ∷ 4 ∷ 5 ∷ 6 ∷ 7 ∷ 8 ∷ 9 ∷ 10 ∷ 11 ∷ 12 ∷ 13 ∷ 14 ∷ 15 ∷ 16 ∷ []

split_frames-append_example : split_frames ((2 ∷ 0 ∷ 7 ∷ []) ++ (1 ∷ [])) ≡ (
  (split_frames (2 ∷ 0 ∷ 7 ∷ [])).0
      ++ (split_frames ((split_frames (2 ∷ 0 ∷ 7 ∷ [])).1 ++ (1 ∷ []))).0,
  (split_frames ((split_frames (2 ∷ 0 ∷ 7 ∷ [])).1 ++ (1 ∷ []))).1,
)
split_frames-append_example = split_frames-append (2 ∷ 0 ∷ 7 ∷ []) (1 ∷ [])

split_frames-Decomposes_example :
    Decomposes (2 ∷ 0 ∷ 7 ∷ 1 ∷ 9 ∷ []) (split_frames (2 ∷ 0 ∷ 7 ∷ 1 ∷ 9 ∷ []))
split_frames-Decomposes_example = split_frames-Decomposes (2 ∷ 0 ∷ 7 ∷ 1 ∷ 9 ∷ [])

small_frame : decode_frame (3 ∷ 0 ∷ 5 ∷ 0 ∷ 9 ∷ []) 16 ≡ ok (packet_of 5 (9 ∷ []))
unfolding decode_frame
small_frame = refl

encode_frame-decode_frame_example :
    (encode_frame 5 (9 ∷ []) ≡ 3 ∷ 0 ∷ 5 ∷ 0 ∷ 9 ∷ [])
    × (3 ≡ 2 + length {A = ℕ} (9 ∷ []))
    × (length {A = ℕ} (9 ∷ []) ≤ 16)
encode_frame-decode_frame_example =
    encode_frame-decode_frame (3 ∷ 0 ∷ 5 ∷ 0 ∷ 9 ∷ []) 16 (packet_of 5 (9 ∷ []))
      (omega arith, (omega arith, (omega arith, (omega arith, (omega arith, tt))))) small_frame

decompress-compress_example :
    decompress_wire_payload (compress_wire_payload (7 ∷ 7 ∷ 7 ∷ 7 ∷ 254 ∷ [])) 16
    ≡ ok (7 ∷ 7 ∷ 7 ∷ 7 ∷ 254 ∷ [])
decompress-compress_example = decompress-compress (7 ∷ 7 ∷ 7 ∷ 7 ∷ 254 ∷ []) 16 (omega arith)

decode_wire_frame-encode_wire_frame_example :
    decode_wire_frame
      (encode_wire_frame 4352
        (9 ∷ 8 ∷ [])
        (record { compression = true; obfuscation_seed = some 5 }))
      64
      (record { compression = true; obfuscation_seed = some 5 })
    ≡ ok (packet_of 4352 (9 ∷ 8 ∷ []))
decode_wire_frame-encode_wire_frame_example =
    decode_wire_frame-encode_wire_frame 4352 (9 ∷ 8 ∷ []) 64
      (record { compression = true; obfuscation_seed = some 5 }) (omega arith)
      (omega arith, (omega arith, tt)) (omega arith) (omega (arith, length-compress (9 ∷ 8 ∷ [])))
      (omega (arith, length-compress (9 ∷ 8 ∷ []))) (omega arith)

raw_uuid : parse_uuid_payload sample_crate sixteen ≡ ok (number_of 0 sixteen)
unfolding parse_uuid_payload
raw_uuid = refl

parse_uuid_payload_raw_example :
    (16 ≤ length sixteen) × (number_of 0 sixteen ≡ number_of 0 (take 16 sixteen))
parse_uuid_payload_raw_example =
    parse_uuid_payload_raw sample_crate sixteen (number_of 0 sixteen) raw_uuid

attack_packet :
    translate_packet_for_version sample_crate (packet_of 0x0101 sixteen) in_world legacy_v382
    ≡ ok (attack (number_of 0 sixteen))
unfolding translate_packet_for_version validate_client_command as_domain_state
attack_packet = refl

translate_packet_accepted_example :
    IsOpen (stage_of (attack (number_of 0 sixteen))) (as_domain_state in_world)
    × IsCleanCommand (attack (number_of 0 sixteen))
translate_packet_accepted_example =
    translate_packet_accepted sample_crate (packet_of 0x0101 sixteen) in_world legacy_v382
      (attack (number_of 0 sixteen)) attack_packet

-- A broadcast of `hi` by `al`.
abbrev broadcast : ServerMessage
broadcast = chat_broadcast (97 ∷ 108 ∷ []) (104 ∷ 105 ∷ [])

broadcast_packet :
    translate_server_packet_for_version sample_crate
      (packet_of 0x8200 (97 ∷ 108 ∷ 0 ∷ 104 ∷ 105 ∷ []))
      legacy_v382
    ≡ ok broadcast
unfolding translate_server_packet_for_version splitn_zero trimmed_text
broadcast_packet = refl

translate_server_packet_accepted_example : IsClean 32 (97 ∷ 108 ∷ []) × IsClean 160 (104 ∷ 105 ∷ [])
translate_server_packet_accepted_example =
    translate_server_packet_accepted sample_crate (packet_of 0x8200 (97 ∷ 108 ∷ 0 ∷ 104 ∷ 105 ∷ []))
      legacy_v382 broadcast broadcast_packet

-- An arithmetic that rounds nothing, in billionths.
abbrev pub exact : F64
exact = record {
  one = nano;
  one_pos = omega arith;
  round = λ n. n;
  nanos_over_nano = λ n. n;
  round_near = λ n. omega arith;
  nanos_near = λ n. omega arith;
}

run_attempts_bound_example :
    (run_attempts exact ((0, 2) ∷ (500_000_000, 1) ∷ []) (new_limiter exact 0 4 2)).1
        * (k * k * k * nano)
      + 4 * (k1 * k1 * k1) * 0
    ≤ 2 * (k * k * k * nano)
      + attempts_of ((0, 2) ∷ (500_000_000, 1) ∷ []) * (2 * 2 * (k * k * nano))
      + 4
        * (k1 * k1 * k1)
        * (run_attempts exact
            ((0, 2) ∷ (500_000_000, 1) ∷ [])
            (new_limiter exact 0 4 2)).0.last_refill
run_attempts_bound_example =
    run_attempts_bound exact 0 4 2 ((0, 2) ∷ (500_000_000, 1) ∷ []) (omega arith, (omega arith, tt))
