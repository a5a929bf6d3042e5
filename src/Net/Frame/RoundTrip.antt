-- ===== src/Net/Frame/RoundTrip.antt =====
-- crates/net/src/lib.rs: `encode_frame` behind `decode_frame`, and the other way round.
use helbreath_backend.Prelude.{
  ℕ, ◌+◌, ◌^◌, ◌≤◌, ◌<◌, ◌≡◌, List, [], ◌∷◌, arith, ok, err, length, All,
}
use helbreath_backend.Net.Frame.{IsByte, DecodedPacket, invalid_length, decode_frame, encode_frame}

abbrev pub packet_of : ℕ → List ℕ → DecodedPacket
packet_of opcode payload = record {
  header = record { length = 2 + length payload; opcode = opcode };
  payload = payload;
}

-- A frame that is encoded decodes to its opcode and payload, if the opcode is a u16, the payload is
-- within the limit and the length field does not wrap.
pub decode_frame-encode_frame :
    (opcode : ℕ) (payload : List ℕ) (max : ℕ)
    → opcode < 2 ^ 16
    → length payload ≤ max
    → 2 + length payload < 2 ^ 16
    → decode_frame (encode_frame opcode payload) max ≡ ok (packet_of opcode payload)
unfolding decode_frame encode_frame
decode_frame-encode_frame opcode payload max op fits short = ground arith

-- Beyond the length field's range the frame is refused: the length has wrapped.
pub decode_frame-encode_frame_wrapped :
    (opcode : ℕ) (payload : List ℕ) (max : ℕ)
    → 2 ^ 16 ≤ 2 + length payload
    → decode_frame (encode_frame opcode payload) max ≡ err invalid_length
unfolding decode_frame encode_frame
decode_frame-encode_frame_wrapped opcode payload max long = ground arith

-- What a frame of bytes decodes to encodes to that frame, byte for byte; its length field is true and its
-- payload is within the limit.
pub encode_frame-decode_frame :
    (frame : List ℕ) (max : ℕ) (p : DecodedPacket)
    → All IsByte frame
    → decode_frame frame max ≡ ok p
    → (encode_frame p.header.opcode p.payload ≡ frame)
      × (p.header.length ≡ 2 + length p.payload)
      × (length p.payload ≤ max)
unfolding decode_frame encode_frame
encode_frame-decode_frame [] max p bytes e = ground arith
encode_frame-decode_frame (a ∷ []) max p bytes e = ground arith
encode_frame-decode_frame (a ∷ b ∷ []) max p bytes e = ground arith
encode_frame-decode_frame (a ∷ b ∷ c ∷ []) max p bytes e = ground arith
encode_frame-decode_frame (a ∷ b ∷ c ∷ d ∷ payload) max p bytes e = ground arith
