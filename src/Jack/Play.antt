-- ===== src/Jack/Play.antt =====
-- src/reacjack.c: what the process callback gives to the ports.
use reac_jack.Common.{
  Buffer, arith, false, ltb, offset, pos, refl, some, tabulate, true, u16, u64, ℕ, ◌!=◌, ◌*◌, ◌++◌,
  ◌+◌, ◌<◌, ◌==◌, ◌^◌, ◌≡◌, ◌≢◌, ◌≤◌,
}
use reac_jack.Decode.{Float, Outputs, any_null, zero_view}
use reac_jack.Decode.Value.{IsBytes}
use reac_jack.Decode.Parse.{IsReacFrame, parse_packet_accepts}
use reac_jack.Decode.Samples.{
  HasArrays, IsDecoded, IsSupported, any_null-eq-false, decode_samples_ok,
}
use reac_jack.Jack.{err_ok}
use reac_jack.Jack.ByteRing.{Behaves, ByteRing}
use reac_jack.Jack.Client.{
  Client, copy_step, decoded, keep_packet, note_packet_counter, play, process, take_packet,
  write_payload,
}

module _ {J : ByteRing} where
  -- What a callback has done that played `nframes` frames.
  pub record Played (app : Client J) (nframes : ℕ) (ports after : Outputs) (app' : Client J)
      : Type 0 where
    pub bytes : Buffer ℕ
    pub decoded : IsDecoded bytes app.current_channels nframes ports after
    pub oldest :
        J.contents app.ring
        ≡ tabulate (nframes * app.current_channels * 3) bytes ++ J.contents app'.ring
    pub fine : app'.error ≡ err_ok
    pub underruns : app'.jack_buffer_underrun ≡ app.jack_buffer_underrun

  -- When a width that the decoder supports is known, the ring holds the bytes of `nframes` frames,
  -- they fit the client's buffer, and every channel has a port's buffer, `process` takes exactly
  -- these, the oldest bytes of the ring, and every port gets its channel's samples of them; no
  -- underrun is counted and no error stays. (JACK's ring is taken to behave.)
  pub process-Played :
      (silence : Float) (app : Client J) (nframes now : ℕ) (ports : Outputs)
      → Behaves J
      → IsSupported app.current_channels
      → app.data_size ≢ 0
      → nframes < 2 ^ 32
      → nframes * app.current_channels * 3 ≤ app.process_buffer_bytes
      → nframes * app.current_channels * 3 ≤ J.read_space app.ring
      → HasArrays ports app.current_channels
      → IsBytes ((J.read app.ring app.process_buffer (nframes * app.current_channels * 3)).1)
      → let (after, app') = process silence app nframes now ports in
        Played app nframes ports after app'
  unfolding process play
  process-Played silence app nframes now ports b s some_data small fits there arrays h =
      let n = app.current_channels in
      let size = nframes * n * 3 in
      let low = s.positive in
      let high = s.at_most in
      let (count, oldest) = b.read_there app.ring app.process_buffer size there in
      let bytes = (J.read app.ring app.process_buffer size).1 in
      let width : u16 n ≡ n = omega arith in
      let bound : nframes * n ≤ nframes * 40 = grind arith in
      let same : n * nframes ≡ nframes * n = grind arith in
      let wrap : u64 size ≡ size = omega arith in
      let (outs, called, decoded) =
        decode_samples_ok bytes size n nframes ports h s (omega arith) arrays in
      let some_channels : (n == 0) ≡ false = ground arith in
      let has_data : (app.data_size == 0) ≡ false = ground arith in
      let fitting : ltb app.process_buffer_bytes size ≡ false = ground arith in
      let enough : ltb (J.read_space app.ring) size ≡ false = ground arith in
      let whole : (size != size) ≡ false = ground arith in
      let no_null : any_null ports n 0 ≡ false =
        any_null-eq-false ports n 0 (λ c p q. arrays c (omega arith)) in
      rw (wrap, some_channels, has_data, fitting, enough, count, whole, no_null, width, called)
        (record {
          bytes = bytes;
          decoded = decoded;
          oldest = oldest;
          fine = refl;
          underruns = refl;
        })

  -- The payload of a packet that fits the ring, at the width of the stream, goes behind the bytes
  -- that the ring holds, whole and in order; the packet is counted and its counter noted; and no
  -- underrun is counted. (JACK's ring is taken to behave.)
  pub copy_step_appends :
      (app : Client J) (bytes : Buffer ℕ) (size channels : ℕ)
      → Behaves J
      → IsBytes bytes
      → IsReacFrame bytes size channels
      → app.data_size ≡ 36 * channels
      → 36 * channels ≤ J.write_space app.ring
      → let after = copy_step app (some (bytes, pos size)) in
        (J.contents after.ring ≡ J.contents app.ring ++ tabulate (36 * channels) (offset bytes 50))
        × (after.received_packages ≡ app.received_packages + 1)
        × (after.counter ≡ note_packet_counter app.counter (bytes 14 + bytes 15 * 256))
        × (after.net_buffer_underrun ≡ app.net_buffer_underrun)
  unfolding copy_step take_packet keep_packet write_payload
  copy_step_appends app bytes size channels b h r width room =
      let s = r.supported in
      let low = s.positive in
      let (count, behind) = b.write_fits app.ring (offset bytes 50) (36 * channels) room in
      let some_data : (36 * channels == 0) ≡ false = ground arith in
      let same : (36 * channels != 36 * channels) ≡ false = ground arith in
      let fitting : ltb (J.write_space app.ring) (36 * channels) ≡ false = ground arith in
      let whole : (36 * channels == 36 * channels) ≡ true = ground arith in
      rw
        (
          parse_packet_accepts bytes size channels zero_view h r,
          width,
          some_data,
          same,
          fitting,
          count,
          whole,
        )
        (behind, refl, refl, refl)
