-- ===== src/Pipewire/Capture.antt =====
-- src/reacjack-pw.c: the capture thread, as a step on what the socket gives, and the process
-- callback, as a step on the buffer that PipeWire gives.
use reac_jack.Common.{
  Buffer, Option, if◌then◌else◌, ltb, none, pos, some, suc, u32, u64, update, zero, ℕ, ◌!=◌, ◌&&◌,
  ◌*◌, ◌+◌, ◌/◌,
}
use reac_jack.Counter.{Counter, note_counter}
use reac_jack.Decode.{
  Float, Outputs, PacketView, Status, decode_samples, frames_per_packet, max_int24, not_reac, ok,
  parse_packet, zero_view,
}
use reac_jack.Pipewire.{AudioRing, audio_ring_read, audio_ring_write}

-- `ReacPw`, with the arrays that the capture thread keeps on its stack; `counter` has
-- `lost_packets`, `last_counter` and `have_last_counter`.
pub record ReacPw : Type 0 where
  pub ring : AudioRing Float
  pub channels : ℕ
  pub received_packets : ℕ
  pub non_reac_packets : ℕ
  pub malformed_packets : ℕ
  pub capture_errors : ℕ
  pub ring_overruns : ℕ
  pub pipewire_underruns : ℕ
  pub counter : Counter
  pub storage : Outputs
  pub interleaved : Buffer Float

-- `channel_ptrs[ch]`, which points to an array for every channel.
abbrev pub array : Outputs → Buffer (Buffer Float)
array outs ch = elim (outs ch) [
  | none ↦ λ i. record { numerator = pos 0; denominator = max_int24 }
  | some b ↦ b
]

-- The inner loop of `interleave_packet`, with `left` channels from `ch` on, and the outer loop.
unfoldable pub interleave_frame :
    Buffer (Buffer Float) → ℕ → ℕ → ℕ → ℕ → Buffer Float → Buffer Float
interleave_frame channels channel_count frame zero ch interleaved = interleaved
interleave_frame channels channel_count frame (suc left) ch interleaved =
    interleave_frame channels channel_count frame left (ch + 1)
      (update interleaved (frame * channel_count + ch) (channels ch frame))

unfoldable pub interleave_packet : Buffer (Buffer Float) → ℕ → ℕ → ℕ → Buffer Float → Buffer Float
interleave_packet channels channel_count zero frame interleaved = interleaved
interleave_packet channels channel_count (suc left) frame interleaved =
    interleave_packet channels channel_count left (frame + 1)
      (interleave_frame channels channel_count frame channel_count 0 interleaved)

abbrev malformed : ReacPw → ReacPw
malformed app = record app { malformed_packets = u64 (app.malformed_packets + 1) }

-- From `interleave_packet` to the end of the loop, when the ring has answered.
abbrev pub offer : ReacPw → ℕ → Option (AudioRing Float) → ReacPw
offer app counter none = record app { ring_overruns = u64 (app.ring_overruns + 1) }
offer app counter (some ring) = record app {
  ring = ring;
  counter = note_counter app.counter counter;
  received_packets = u64 (app.received_packets + 1);
}

-- The arrays after decoding, and the interleaved samples.
abbrev pub fill_packet : ReacPw → Outputs → ReacPw
fill_packet app outs = record app {
  storage = outs;
  interleaved = interleave_packet (array outs) app.channels frames_per_packet 0 app.interleaved;
}

-- The packet is of the right width: what decoding gave, and the write to the ring.
abbrev pub take_decoded : ReacPw → ℕ → Status × Option Outputs → ReacPw
take_decoded app counter (ok, some outs) =
    let filled = fill_packet app outs in
    offer filled counter (audio_ring_write app.ring filled.interleaved frames_per_packet)
take_decoded app counter (status, outs) = malformed app

abbrev pub take_parsed : ReacPw → Status × Option PacketView → ReacPw
take_parsed app (not_reac, view) = record app { non_reac_packets = u64 (app.non_reac_packets + 1) }
take_parsed app (ok, some packet) =
    if packet.channels != app.channels
    then malformed app
    else take_decoded app packet.counter (
        decode_samples packet.payload packet.payload_size packet.channels frames_per_packet
          (some app.storage))
take_parsed app (status, view) = malformed app

-- What `poll` and `recv` give in one round of `capture_thread_main`.
pub data Event : Type 0 where
  interrupted failed timeout : Event
  received : Buffer ℕ → ℕ → Event

-- One round of `capture_thread_main`
unfoldable pub capture_step : ReacPw → Event → ReacPw
capture_step app interrupted = app
capture_step app failed = record app { capture_errors = u64 (app.capture_errors + 1) }
capture_step app timeout = app
capture_step app (received bytes size) =
    take_parsed app (parse_packet (some bytes) size (some zero_view))

-- `frames` of `on_process`, from the size of the buffer and the frames requested
abbrev pub frames_of : ℕ → ℕ → ℕ → ℕ
frames_of channels maxsize requested =
    let frames = maxsize / (channels * 4) in
    if ltb 0 requested && ltb requested frames then requested else frames

-- What `on_process` writes into the chunk.
pub record Chunk : Type 0 where
  pub offset : ℕ
  pub stride : ℕ
  pub size : ℕ

-- `on_process`. The buffer is `none` if PipeWire has none, or if it has no data or no chunk; else
-- it is the array, its size in bytes and the frames requested.
unfoldable pub on_process :
    Float → ReacPw → Option (Buffer Float × ℕ × ℕ) → Option (Buffer Float × Chunk) × ReacPw
on_process silence app none = (none, app)
on_process silence app (some (out, maxsize, requested)) =
    let frames = frames_of app.channels maxsize requested in
    let stride = app.channels * 4 in
    let (read_frames, out', ring') = audio_ring_read silence app.ring out frames in
    (
      some (out', record { offset = 0; stride = stride; size = u32 (frames * stride) }),
      record app {
        ring = ring';
        pipewire_underruns =
            if ltb read_frames frames
            then u64 (app.pipewire_underruns + 1)
            else app.pipewire_underruns;
      },
    )
