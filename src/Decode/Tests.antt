-- ===== src/Decode/Tests.antt =====
-- Runs of the decoder on small frames, and the theorems at concrete input.
use reac_jack.Common.{
  Buffer, arith, if◌then◌else◌, leb, ltb, negsuc, none, pos, refl, some, ℕ, ℤ, ◌&&◌, ◌*◌, ◌+◌, ◌-◌,
  ◌<◌, ◌==◌, ◌↔◌, ◌≡◌, ◌≢◌, ◌≤◌,
}
use reac_jack.Decode.{
  Outputs, PacketView, decode_frames, decode_pairs, decode_samples, not_reac, ok, parse_packet,
  payload_bytes_for, read_be16, sample24_to_float, sample_2, short_packet, sign_extend_24, store,
}
use reac_jack.Decode.Value.{IsBytes, fraction24, sign_extend_24_lem}
use reac_jack.Decode.Parse.{IsReacFrame, parse_packet_accepts_iff, parse_packet_not_reac_iff}
use reac_jack.Decode.Fill.{cell}
use reac_jack.Decode.Samples.{IsDecoded, IsSupported, decode_samples_ok}
use reac_jack.Decode.Wire.{Fits24, decode_samples-payload, pair_byte, payload, payload-IsBytes}

-- Frame `f` of channel 0 is f + 1, and of channel 1 -(f + 1).
abbrev ramp : ℕ → ℕ → ℤ
ramp f c = if c == 0 then pos (f + 1) else negsuc f

abbrev two_channels : Buffer ℕ
two_channels = payload (λ f c. if ltb f 12 then ramp f c else pos 0) 2

-- A packet of two channels with counter 0x1234.
abbrev packet : Buffer ℕ
packet i =
    if leb 50 i && ltb i 122
    then two_channels (i - 50)
    else if i == 12
    then 0x88
    else if i == 13
    then 0x19
    else if i == 14
    then 0x34
    else if i == 15
    then 0x12
    else if i == 122
    then 0xc2
    else if i == 123
    then 0xea
    else 0

two_channels-IsBytes : IsBytes two_channels
two_channels-IsBytes = payload-IsBytes _ 2

packet-IsBytes : IsBytes packet
packet-IsBytes i = ground (arith, two_channels-IsBytes (i - 50))

abbrev blank : PacketView
blank = record { counter = 7; channels = 7; payload_size = 7; payload = none }

abbrev arrays : Outputs
arrays c = some (λ f. record { numerator = pos 0; denominator = 1 })

two-IsSupported : IsSupported 2
two-IsSupported = omega arith

packet-IsReacFrame : IsReacFrame packet 124 2
packet-IsReacFrame = record {
  supported = two-IsSupported;
  length = refl;
  type_high = refl;
  type_low = refl;
  end_0 = refl;
  end_1 = refl;
}

parse_packet_runs : (parse_packet (some packet) 124 (some blank)).0 ≡ ok
unfolding parse_packet read_be16
parse_packet_runs = refl

parse_packet_short : (parse_packet (some packet) 51 (some blank)).0 ≡ short_packet
unfolding parse_packet
parse_packet_short = refl

second_sample : cell (decode_frames two_channels 2 12 0 0 arrays) 1 1 ≡ some (fraction24 0xff_fffe)
unfolding decode_frames decode_pairs store sample_2 payload pair_byte
second_sample = refl

sign_extend_24_example : sign_extend_24 0xff_fffe ≡ negsuc 1
sign_extend_24_example = sign_extend_24_lem 0xff_fffe (omega arith)

parse_packet_accepts_iff_example :
    ((parse_packet (some packet) 124 (some blank)).0 ≡ ok)
    ↔ ((channels : ℕ) × IsReacFrame packet 124 channels)
parse_packet_accepts_iff_example = parse_packet_accepts_iff packet 124 blank packet-IsBytes

parse_packet_not_reac_iff_example :
    ((parse_packet (some packet) 124 (some blank)).0 ≡ not_reac)
    ↔ ((52 ≤ 124) × (packet 12 * 256 + packet 13 ≢ 0x8819))
parse_packet_not_reac_iff_example = parse_packet_not_reac_iff packet 124 blank packet-IsBytes

parse_packet_refuses : (parse_packet (some packet) 51 (some blank)).0 ≢ ok
parse_packet_refuses e = cc (parse_packet_short)

decode_samples_ok_example :
    (after : Outputs) × (decode_samples (some two_channels) 72 2 12 (some arrays)
      ≡ (ok, some after))
    × IsDecoded two_channels 2 12 arrays after
decode_samples_ok_example =
    decode_samples_ok two_channels 72 2 12 arrays two_channels-IsBytes two-IsSupported refl
      (λ c h. refl)

decode_samples_refuses : (decode_samples (some two_channels) 71 2 12 (some arrays)).0 ≢ ok
unfolding decode_samples
decode_samples_refuses e = cc

abbrev constant : ℕ → ℕ → ℤ
constant f c = if c == 0 then pos 5 else negsuc 8

constant-Fits24 : (f c : ℕ) → Fits24 (constant f c)
constant-Fits24 f c = ground arith

decode_samples-payload_example :
    (after : Outputs) × (decode_samples
        (some (payload constant 2))
        (payload_bytes_for 2 12)
        2
        12
        (some arrays)
      ≡ (ok, some after))
    × ((c f : ℕ) → c < 2 → f < 12 → cell after c f ≡ some (sample24_to_float (constant f c)))
decode_samples-payload_example =
    decode_samples-payload constant 2 12 arrays constant-Fits24 two-IsSupported (λ c h. refl)
