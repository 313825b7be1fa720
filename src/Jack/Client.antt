-- ===== src/Jack/Client.antt =====
-- src/reacjack.c: the state of the client, its capture thread as a step on a captured frame, and
-- its process callback as a step on the ports.
use mathlib.Core.Option
use reac_jack.Common.{
  Bool, Buffer, Option, false, if◌then◌else◌, ltb, memset, negsuc, none, pos, some, sub16, true,
  u16, u64, ℕ, ℤ, ◌!=◌, ◌&&◌, ◌*◌, ◌+◌, ◌/◌, ◌==◌, ◌||◌,
}
use reac_jack.Counter.{Counter}
use reac_jack.Decode.{
  any_null, bytes_per_sample, decode_samples, max_channels, Float, Outputs, PacketView, Status,
  parse_packet, zero_view,
}
use reac_jack.Jack.{
  Error, err_bad_packet_size, err_capture, err_jack_buffer_too_large, err_jack_port, err_ok,
  err_ring_read, err_short_packet,
}
use reac_jack.Jack.ByteRing.{ByteRing}

-- `note_packet_counter`; the count is a `long`, whose overflow C leaves undefined.
unfoldable pub note_packet_counter : Counter → ℕ → Counter
note_packet_counter c counter =
    let expected = u16 (c.last_counter + 1) in
    let gap = sub16 counter expected in
    let missed = if ltb gap 32768 then c.lost + gap else c.lost + 1 in
    record {
      lost = if c.have_last_counter && (counter != expected) then missed else c.lost;
      last_counter = counter;
      have_last_counter = true;
    }

-- The globals that both threads use; the buffer is `processBuffer`.
pub record Client (J : ByteRing) : Type 0 where
  pub ring : J.R
  pub counter : Counter
  pub net_buffer_underrun : ℕ
  pub jack_buffer_underrun : ℕ
  pub non_reac : ℕ
  pub malformed_packets : ℕ
  pub data_size : ℕ
  pub process_buffer : Buffer ℕ
  pub process_buffer_bytes : ℕ
  pub current_channels : ℕ
  pub error : Error
  pub received_packages : ℕ
  pub process_start_time : ℕ

-- `frame.size < 0 ? 0 : (size_t)frame.size`
abbrev pub frame_size : ℤ → ℕ
frame_size (pos n) = n
frame_size (negsuc n) = 0

-- `silence_outputs`; a port without a buffer is `none`.
abbrev silent_limit : ℕ → ℕ
silent_limit channels =
    if channels == 0 || ltb max_channels channels then max_channels else channels

abbrev pub silence_outputs : Float → Outputs → ℕ → ℕ → Outputs
silence_outputs silence ports nframes channels = λ i.
    if ltb i (silent_limit channels)
    then Option.map (λ (b : Buffer Float). memset b 0 silence nframes) (ports i)
    else ports i

module _ {J : ByteRing} where
  -- `write_payload_to_ring`: whether it returned 0.
  unfoldable pub write_payload : Client J → Buffer ℕ → ℕ → Bool × Client J
  write_payload app payload bytes =
      if bytes == 0
      then (false, app)
      else if ltb (J.write_space app.ring) bytes
      then (false, record app { net_buffer_underrun = app.net_buffer_underrun + 1 })
      else let (written, ring') = J.write app.ring payload bytes in
        (written == bytes, record app { ring = ring' })

  -- From `receivedPackages++` on.
  unfoldable pub keep_packet : Client J → ℕ → Buffer ℕ → Client J
  unfolding write_payload
  keep_packet app counter payload =
      let counted = record app {
        received_packages = app.received_packages + 1;
        counter = note_packet_counter app.counter counter;
      } in
      let (written, app') = write_payload counted payload app.data_size in
      if written then app' else record app' { error = err_ring_read }

  -- The first packet sets the width; another width is malformed.
  unfoldable pub take_packet : Client J → PacketView → Buffer ℕ → Client J
  unfolding keep_packet
  take_packet app packet payload =
      if app.data_size == 0
      then keep_packet
          (record app { data_size = packet.payload_size; current_channels = packet.channels })
          packet.counter payload
      else if app.data_size != packet.payload_size
      then record app { malformed_packets = app.malformed_packets + 1; error = err_bad_packet_size }
      else keep_packet app packet.counter payload

  abbrev refuse : Client J → Error → Client J
  refuse app e = record app { malformed_packets = app.malformed_packets + 1; error = e }

  abbrev pub take_view : Client J → Status × Option PacketView → Client J
  take_view app (Status.not_reac, view) = record app { non_reac = app.non_reac + 1 }
  take_view app (Status.ok, some packet) = elim (packet.payload) [
    | none ↦ app
    | some payload ↦ take_packet app packet payload
  ]
  take_view app (Status.short_packet, view) = refuse app err_short_packet
  take_view app (status, view) = refuse app err_bad_packet_size

  -- One round of `copyData` on a captured frame; none is a failed capture.
  unfoldable pub copy_step : Client J → Option (Buffer ℕ × ℤ) → Client J
  unfolding take_packet
  copy_step app none = record app { error = err_capture }
  copy_step app (some (bytes, size)) =
      take_view app (parse_packet (some bytes) (frame_size size) (some zero_view))

  -- The end of `process`, from the decoder's answer on.
  abbrev pub decoded : Outputs → Client J → Status × Option Outputs → Outputs × Client J
  decoded silent app (Status.ok, some outs) = (outs, record app { error = err_ok })
  decoded silent app (status, outs) = (silent, record app { error = err_bad_packet_size })

  -- `process` once the bytes are read: to the ports.
  unfoldable pub play : Float → Client J → ℕ → Outputs → Buffer ℕ → ℕ → Outputs × Client J
  play silence app nframes ports bytes count =
      let silent = silence_outputs silence ports nframes app.current_channels in
      if any_null ports app.current_channels 0
      then (silent, record app { error = err_jack_port })
      else decoded silent app
          (decode_samples (some bytes) count (u16 app.current_channels) nframes (some ports))

  -- `process` without its metering and the times for the display; `now` is the frame time of JACK,
  -- and the ports have the buffers of `jack_port_get_buffer`. The answer has the ports' samples.
  unfoldable pub process : Float → Client J → ℕ → ℕ → Outputs → Outputs × Client J
  unfolding play
  process silence app nframes now ports =
      let buffer_size = u64 (nframes * app.current_channels * bytes_per_sample) in
      let available = J.read_space app.ring in
      let silent = silence_outputs silence ports nframes app.current_channels in
      let start = if app.process_start_time == 0 then now else app.process_start_time in
      let timed = record app { process_start_time = start } in
      let (count, bytes, ring') = J.read app.ring app.process_buffer buffer_size in
      if app.current_channels == 0 || app.data_size == 0
      then (silence_outputs silence ports nframes max_channels, app)
      else if ltb app.process_buffer_bytes buffer_size
      then (
        silent,
        record app {
          error = err_jack_buffer_too_large;
          jack_buffer_underrun = app.jack_buffer_underrun + 1;
        },
      )
      else if ltb available buffer_size
      then (
        silent,
        record timed {
          jack_buffer_underrun = timed.jack_buffer_underrun + 1;
          process_start_time = now;
          received_packages = available / (bytes_per_sample * app.current_channels);
        },
      )
      else let taken = record timed { ring = ring'; process_buffer = bytes } in
        if count != buffer_size
        then (silent, record taken { error = err_ring_read })
        else play silence taken nframes ports bytes count
