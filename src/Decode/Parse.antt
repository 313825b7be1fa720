-- ===== src/Decode/Parse.antt =====
-- src/reac_decode.c: which frames `reac_parse_packet` accepts, and what its view holds then.
use reac_jack.Common.{ℕ, ◌+◌, ◌-◌, ◌*◌, ◌/◌, ◌≤◌, ◌≡◌, ◌≢◌, ◌↔◌, arith, some, Buffer, offset}
use reac_jack.Decode.{ok, not_reac, PacketView, zero_view, parse_frame, parse_packet}
use reac_jack.Decode.Value.{IsBytes, read_be16_lem, read_le16_lem}
use reac_jack.Decode.Samples.{IsSupported}

-- An Ethernet frame with a REAC packet of `channels` channels: 14 + 36 header bytes, EtherType
-- 0x8819 in network order, 12 frames of 3 bytes for each channel, and the two end bytes.
pub record IsReacFrame (frame : Buffer ℕ) (size channels : ℕ) : Type 0 where
  pub supported : IsSupported channels
  pub length : size ≡ 14 + 36 + 36 * channels + 2
  pub type_high : frame 12 ≡ 0x88
  pub type_low : frame 13 ≡ 0x19
  pub end_0 : frame (size - 2) ≡ 0xc2
  pub end_1 : frame (size - 1) ≡ 0xea

-- What the view of such a frame holds.
abbrev pub reac_view : Buffer ℕ → ℕ → PacketView
reac_view frame channels = record {
  counter = frame 14 + frame 15 * 256;
  channels = channels;
  payload_size = 36 * channels;
  payload = some (offset frame 50);
}

-- A frame that holds a REAC packet is accepted, and the view shows the little-endian counter, the
-- channel count that the size determines, and the payload behind both headers.
pub parse_packet_accepts :
    (frame : Buffer ℕ) (size channels : ℕ) (view : PacketView)
    → IsBytes frame
    → IsReacFrame frame size channels
    → parse_packet (some frame) size (some view) ≡ (ok, some (reac_view frame channels))
unfolding parse_packet
parse_packet_accepts frame size channels view h r = ground (
  arith,
  read_be16_lem (offset frame 12) (λ i. h (12 + i)),
  read_le16_lem (offset frame 14) (λ i. h (14 + i)),
)

parse_frame_accepted :
    (frame : Buffer ℕ) (size : ℕ)
    → IsBytes frame
    → (parse_frame frame size).0 ≡ ok
    → IsReacFrame frame size ((size - 52) / 36)
unfolding parse_frame
parse_frame_accepted frame size h e =
    ground (arith, h 12, h 13, read_be16_lem (offset frame 12) (λ i. h (12 + i)))

-- Exactly the frames that hold a REAC packet are accepted.
pub parse_packet_accepts_iff :
    (frame : Buffer ℕ) (size : ℕ) (view : PacketView)
    → IsBytes frame
    → ((parse_packet (some frame) size (some view)).0 ≡ ok)
      ↔ ((channels : ℕ) × IsReacFrame frame size channels)
unfolding parse_packet
parse_packet_accepts_iff frame size view h = (
  λ e. ((size - 52) / 36, parse_frame_accepted frame size h e),
  λ (channels, r). ground (arith, parse_packet_accepts frame size channels view h r),
)

-- A frame is "not REAC" exactly if it is long enough for the headers and the end bytes and has
-- another EtherType, whatever the rest of it is.
pub parse_packet_not_reac_iff :
    (frame : Buffer ℕ) (size : ℕ) (view : PacketView)
    → IsBytes frame
    → ((parse_packet (some frame) size (some view)).0 ≡ not_reac)
      ↔ ((52 ≤ size) × (frame 12 * 256 + frame 13 ≢ 0x8819))
unfolding parse_packet
parse_packet_not_reac_iff frame size view h =
    ground (arith, read_be16_lem (offset frame 12) (λ i. h (12 + i)))

-- A frame that is refused leaves a view with zeroes and a null payload, whatever it was before.
pub parse_packet_error :
    (frame : Buffer ℕ) (size : ℕ) (view : PacketView)
    → (parse_packet (some frame) size (some view)).0 ≢ ok
    → (parse_packet (some frame) size (some view)).1 ≡ some zero_view
unfolding parse_packet
parse_packet_error frame size view h = ground arith
