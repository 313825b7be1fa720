-- ===== src/Decode.antt =====
-- src/reac_decode.c, src/reac_decode.h: parsing a REAC packet out of an Ethernet frame, and
-- decoding its 24-bit samples into one float array for each channel.
pub mod Value
pub mod Parse
pub mod Fill
pub mod Samples
pub mod Wire
pub mod Fixture
mod Tests
use mathlib.Core.Option
use reac_jack.Common.{
  ℕ, zero, suc, ◌+◌, ◌-◌, ◌*◌, ◌/◌, ◌%◌, ◌^◌, bit_and, bit_or, Bool, true, false, ◌||◌, Option,
  none, some, ltb, ◌==◌, ◌!=◌, if◌then◌else◌, u16, u64, ◌<<<◌, ℤ, int32, Buffer, offset, update,
}

abbrev pub reac_ethertype : ℕ
reac_ethertype = 0x8819

abbrev pub max_channels : ℕ
max_channels = 40

abbrev pub frames_per_packet : ℕ
frames_per_packet = 12

abbrev pub bytes_per_sample : ℕ
bytes_per_sample = 3

abbrev pub end_marker_0 : ℕ
end_marker_0 = 0xc2

abbrev pub end_marker_1 : ℕ
end_marker_1 = 0xea

abbrev pub max_int24 : ℕ
max_int24 = 2 ^ 23

-- ETHERNET_HEADER_BYTES, REAC_PACKET_HEADER_BYTES, REAC_END_MARKER_BYTES
abbrev pub ethernet_header_bytes : ℕ
ethernet_header_bytes = 14

abbrev pub packet_header_bytes : ℕ
packet_header_bytes = 36

abbrev pub end_marker_bytes : ℕ
end_marker_bytes = 2

pub data Status : Type 0 where
  ok bad_argument not_reac short_packet bad_end_marker bad_payload_size : Status
  unsupported_channel_count : Status

-- `ReacPacketView`; a null `payload` is `none`.
pub record PacketView : Type 0 where
  pub counter : ℕ
  pub channels : ℕ
  pub payload_size : ℕ
  pub payload : Option (Buffer ℕ)

-- The float that `sample24_to_float` returns. A 24-bit integer has an exact float32, and dividing
-- it by a power of two is exact, so the float is the fraction itself.
pub record Float : Type 0 where
  pub numerator : ℤ
  pub denominator : ℕ

-- `uint8_t` loads are promoted to `int` before the shift; the cast cuts to 16 bits.
pub read_be16 : Buffer ℕ → ℕ
read_be16 p = u16 (bit_or (p 0 <<< 8) (p 1))

pub read_le16 : Buffer ℕ → ℕ
read_le16 p = u16 (bit_or (p 0) (p 1 <<< 8))

pub sign_extend_24 : ℕ → ℤ
sign_extend_24 value =
    int32 (if bit_and value 0x80_0000 != 0 then bit_or value 0xff00_0000 else value)

pub sample24_to_float : ℤ → Float
sample24_to_float value = record { numerator = value; denominator = max_int24 }

abbrev pub packet_overhead : ℕ
packet_overhead = ethernet_header_bytes + packet_header_bytes

-- `size_t` arithmetic.
abbrev pub payload_bytes_for : ℕ → ℕ → ℕ
payload_bytes_for channels frames = u64 (channels * frames * bytes_per_sample)

-- What `memset(packet, 0, sizeof(*packet))` leaves.
abbrev pub zero_view : PacketView
zero_view = record { counter = 0; channels = 0; payload_size = 0; payload = none }

abbrev pub unsupported : ℕ → Bool
unsupported channels = channels == 0 || ltb max_channels channels || (channels % 2) != 0

-- `reac_parse_packet` after its null checks. Each subtraction stands behind the size check.
pub parse_frame : Buffer ℕ → ℕ → Status × PacketView
parse_frame frame size =
    if ltb size (packet_overhead + end_marker_bytes)
    then (short_packet, zero_view)
    else if read_be16 (offset frame 12) != reac_ethertype
    then (not_reac, zero_view)
    else if frame (size - 2) != end_marker_0 || frame (size - 1) != end_marker_1
    then (bad_end_marker, zero_view)
    else let payload_size = size - packet_overhead - end_marker_bytes in
      let quantum = payload_bytes_for 1 frames_per_packet in
      if payload_size == 0 || (payload_size % quantum) != 0
      then (bad_payload_size, zero_view)
      else let channels = payload_size / quantum in
        if unsupported channels then (unsupported_channel_count, zero_view) else (
          ok,
          record {
            counter = read_le16 (offset frame ethernet_header_bytes);
            channels = u16 channels;
            payload_size = payload_size;
            payload = some (offset frame packet_overhead);
          },
        )

-- `reac_parse_packet`: a null pointer is `none`; the view comes back as the call leaves it.
pub parse_packet : Option (Buffer ℕ) → ℕ → Option PacketView → Status × Option PacketView
unfolding parse_frame
parse_packet none size view = (bad_argument, view)
parse_packet (some frame) size none = (bad_argument, none)
parse_packet (some frame) size (some view) =
    let (status, view') = parse_frame frame size in (status, some view')

-- The arrays behind `float *const *outputs`; a null pointer is `none`.
abbrev pub Outputs : Type 0
Outputs = Buffer (Option (Buffer Float))

-- `outputs[ch][frame] = v`
pub store : Outputs → ℕ → ℕ → Float → Outputs
store outs ch frame v =
    λ c. if c == ch then Option.map (λ (b : Buffer Float). update b frame v) (outs c) else outs c

abbrev pub is_null : Option (Buffer Float) → Bool
is_null none = true
is_null (some b) = false

-- The loop over `outputs[ch] == NULL`, with `left` channels from `ch` on.
pub any_null : Outputs → ℕ → ℕ → Bool
any_null outs zero ch = false
any_null outs (suc left) ch = is_null (outs ch) || any_null outs left (ch + 1)

-- The two samples of the six bytes at `in`.
pub sample_1 : Buffer ℕ → ℕ → Float
unfolding sample24_to_float sign_extend_24
sample_1 bytes at = sample24_to_float (
    sign_extend_24
      (bit_or (bit_or (bytes (at + 3)) (bytes (at + 0) <<< 8)) (bytes (at + 1) <<< 16)))

pub sample_2 : Buffer ℕ → ℕ → Float
unfolding sample24_to_float sign_extend_24
sample_2 bytes at = sample24_to_float (
    sign_extend_24
      (bit_or (bit_or (bytes (at + 4)) (bytes (at + 5) <<< 8)) (bytes (at + 2) <<< 16)))

-- The loop `for (ch = 0; ch < channels; ch += 2)`, with `left` rounds from `ch` on; `at` is where
-- `in` points, counted from `samples`. Both come back. At most 40 channels pass the checks, so the
-- 16-bit `ch` does not wrap.
pub decode_pairs : Buffer ℕ → ℕ → ℕ → ℕ → ℕ → Outputs → ℕ × Outputs
decode_pairs bytes frame zero ch at outs = (at, outs)
decode_pairs bytes frame (suc left) ch at outs =
    decode_pairs bytes frame left (ch + 2) (at + 6)
      (store (store outs ch frame (sample_1 bytes at)) (ch + 1) frame (sample_2 bytes at))

-- The loop over the frames, with `left` of them from `frame` on.
pub decode_frames : Buffer ℕ → ℕ → ℕ → ℕ → ℕ → Outputs → Outputs
decode_frames bytes channels zero frame at outs = outs
decode_frames bytes channels (suc left) frame at outs =
    let (at', outs') = decode_pairs bytes frame ((channels + 1) / 2) 0 at outs in
    decode_frames bytes channels left (frame + 1) at' outs'

-- `reac_decode_samples_to_channels` after its null checks.
pub decode_bytes : Buffer ℕ → ℕ → ℕ → ℕ → Outputs → Status × Outputs
decode_bytes bytes sample_bytes channels frames outs =
    if unsupported channels
    then (unsupported_channel_count, outs)
    else if sample_bytes != payload_bytes_for channels frames
    then (bad_payload_size, outs)
    else if any_null outs channels 0
    then (bad_argument, outs)
    else (ok, decode_frames bytes channels frames 0 0 outs)

pub decode_samples : Option (Buffer ℕ) → ℕ → ℕ → ℕ → Option Outputs → Status × Option Outputs
unfolding decode_bytes
decode_samples none sample_bytes channels frames outs = (bad_argument, outs)
decode_samples (some bytes) sample_bytes channels frames none = (bad_argument, none)
decode_samples (some bytes) sample_bytes channels frames (some outs) =
    let (status, outs') = decode_bytes bytes sample_bytes channels frames outs in
    (status, some outs')
