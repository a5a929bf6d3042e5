-- ===== src/Net/Frame.antt =====
-- crates/net/src/lib.rs: frames on the TCP stream. A frame is a little-endian u16 length, an opcode
-- and a payload; the length counts the opcode and the payload.
pub mod RoundTrip
pub mod Split
use helbreath_backend.Prelude.{
  ℕ, zero, suc, ◌+◌, ◌*◌, ◌/◌, ◌%◌, ◌^◌, ◌≡◌, ◌<◌, not, List, [], ◌∷◌, ◌++◌, ltb, ◌==◌,
  if◌then◌else◌, Result, ok, err, ◌>>=◌, ◌>>◌, fail_if, length, get_or, take, drop,
}

abbrev pub IsByte : ℕ → Type 0
IsByte b = b < 256

-- `u16::from_le_bytes` and `u16::to_le_bytes`
abbrev pub u16_from_le : ℕ → ℕ → ℕ
u16_from_le a b = a + 256 * b

abbrev pub u16_to_le : ℕ → List ℕ
u16_to_le n = (n % 256) ∷ (n / 256) ∷ []

-- `slice[i]` behind a test of the length
abbrev pub at : List ℕ → ℕ → ℕ
at xs i = get_or xs i 0

pub record PacketHeader : Type 0 where
  pub length : ℕ
  pub opcode : ℕ

pub record DecodedPacket : Type 0 where
  pub header : PacketHeader
  pub payload : List ℕ

pub data DecodeError : Type 0 where
  frame_too_short invalid_length payload_too_large : DecodeError

unfoldable pub decode_frame : List ℕ → ℕ → Result DecodeError DecodedPacket
decode_frame frame max_payload = do
  fail_if (ltb (length frame) 4) frame_too_short
  let declared = u16_from_le (at frame 0) (at frame 1)
  let opcode = u16_from_le (at frame 2) (at frame 3)
  fail_if (not (declared + 2 == length frame)) invalid_length
  let payload = drop 4 frame
  fail_if (ltb max_payload (length payload)) payload_too_large
  ok (record { header = record { length = declared; opcode = opcode }; payload = payload })

-- `(2 + payload.len()) as u16` wraps.
unfoldable pub encode_frame : ℕ → List ℕ → List ℕ
encode_frame opcode payload =
    let declared = (2 + length payload) % 2 ^ 16 in
    u16_to_le declared ++ (u16_to_le opcode ++ payload)

-- The loop of `split_frames`: the frames cut off so far are returned with what stays in the buffer.
-- Each round takes two bytes at least, so a fuel above the length of the buffer is enough.
split_loop : ℕ → List ℕ → List (List ℕ) × List ℕ
split_loop zero buffer = ([], buffer)
split_loop (suc fuel) buffer =
    let total = u16_from_le (at buffer 0) (at buffer 1) + 2 in
    let rest = split_loop fuel (drop total buffer) in
    if ltb (length buffer) 2
    then ([], buffer)
    else if ltb (length buffer) total
    then ([], buffer)
    else (take total buffer ∷ rest.0, rest.1)

-- The frames, and the buffer that is left.
pub split_frames : List ℕ → List (List ℕ) × List ℕ
unfolding split_loop
split_frames buffer = split_loop (suc (length buffer)) buffer
