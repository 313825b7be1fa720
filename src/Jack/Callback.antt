-- ===== src/Jack/Callback.antt =====
-- src/reacjack.c: the whole process callback: `process` with its times and its metering.
use reac_jack.Common.{
  Bool, Buffer, Option, arith, false, if◌then◌else◌, ltb, none, refl, some, true, ◌≢◌, ◌<◌, ◌^◌,
  ◌≤◌, u16, u64, ℕ, ◌!=◌, ◌*◌, ◌==◌, ◌||◌, ◌≡◌,
}
use reac_jack.Decode.{Float, Outputs, Status, any_null, bytes_per_sample, decode_samples}
use reac_jack.Jack.{err_ok}
use reac_jack.Jack.ByteRing.{Behaves, ByteRing}
use reac_jack.Jack.Client.{Client, decoded, play, process, silence_outputs}
use reac_jack.Jack.Meter.{Double, Meter, measure}
use reac_jack.Jack.Play.{Played, process-Played}
use reac_jack.Decode.Value.{IsBytes}
use reac_jack.Decode.Samples.{HasArrays, IsSupported, any_null-eq-false, decode_samples_ok}
use reac_jack.Jack.Display.{Decibels, Times, note_times}

-- `outBuffer[ch][frame]`
abbrev pub samples_of : Float → Outputs → Buffer (Buffer Float)
samples_of silence outs ch = elim (outs ch) [ none ↦ λ i. silence | some b ↦ b ]

abbrev is_decoded : Status × Option Outputs → Bool
is_decoded (Status.ok, some outs) = true
is_decoded (status, outs) = false

module _ {J : ByteRing} where
  -- Does `process` get to its metering? The guards in their order.
  unfoldable pub gets_through : Client J → ℕ → Outputs → Bool
  gets_through app nframes ports =
      let buffer_size = u64 (nframes * app.current_channels * bytes_per_sample) in
      let (count, bytes, ring') = J.read app.ring app.process_buffer buffer_size in
      if app.current_channels == 0 || app.data_size == 0
      then false
      else if ltb app.process_buffer_bytes buffer_size
      then false
      else if ltb (J.read_space app.ring) buffer_size
      then false
      else if count != buffer_size
      then false
      else if any_null ports app.current_channels 0
      then false
      else is_decoded
          (decode_samples (some bytes) count (u16 app.current_channels) nframes (some ports))

  -- `process`: the ports, the client, the meter and the times.
  unfoldable pub callback :
      (D : Double)
      → Decibels D
      → Float
      → (sample_rate : ℕ) → (packet_time : D.W) → (do_measure : Bool) → Client J
      → Meter D
      → Times D
      → (nframes now : ℕ) → Outputs
      → Outputs × Client J × Meter D × Times D
  callback D E silence sample_rate packet_time do_measure app m t nframes now ports =
      let (outs, app') = process silence app nframes now ports in
      (
        outs,
        app',
        if gets_through app nframes ports
            then measure D do_measure (samples_of silence outs) app.current_channels nframes m
            else m,
        note_times D E sample_rate packet_time app nframes now t,
      )

  decoded-err :
      (silent : Outputs) (app : Client J) (d : Status × Option Outputs)
      → is_decoded d ≡ true
      → (decoded silent app d).1.error ≡ err_ok
  decoded-err silent app (Status.ok, some outs) h = refl
  decoded-err silent app (Status.ok, none) h = absurd (ground arith)
  decoded-err silent app (status, outs) h = absurd (ground arith)

  -- A callback that gets to its metering leaves no error.
  gets_through-err :
      (silence : Float) (app : Client J) (nframes now : ℕ) (ports : Outputs)
      → gets_through app nframes ports ≡ true
      → (process silence app nframes now ports).1.error ≡ err_ok
  unfolding gets_through process play
  gets_through-err silence app nframes now ports h =
      let (count, bytes, ring') =
        J.read app.ring app.process_buffer
          (u64 (nframes * app.current_channels * bytes_per_sample)) in
      let taken : Client J = record app {
        process_start_time = if app.process_start_time == 0 then now else app.process_start_time;
        ring = ring';
        process_buffer = bytes;
      } in
      let fine =
        decoded-err (silence_outputs silence ports nframes app.current_channels) taken
          (decode_samples (some bytes) count (u16 app.current_channels) nframes (some ports)) in
      ground arith

  got_through :
      (app : Client J) (nframes : ℕ) (ports : Outputs)
      → Behaves J
      → IsSupported app.current_channels
      → app.data_size ≢ 0
      → nframes < 2 ^ 32
      → nframes * app.current_channels * 3 ≤ app.process_buffer_bytes
      → nframes * app.current_channels * 3 ≤ J.read_space app.ring
      → HasArrays ports app.current_channels
      → IsBytes ((J.read app.ring app.process_buffer (nframes * app.current_channels * 3)).1)
      → gets_through app nframes ports ≡ true
  unfolding gets_through
  got_through app nframes ports b s some_data small fits there arrays h =
      let n = app.current_channels in
      let size = nframes * n * 3 in
      let low = s.positive in
      let high = s.at_most in
      let (count, oldest) = b.read_there app.ring app.process_buffer size there in
      let bytes = (J.read app.ring app.process_buffer size).1 in
      let width : u16 n ≡ n = omega arith in
      let bound : nframes * n ≤ nframes * 40 = grind arith in
      let wrap : u64 size ≡ size = omega arith in
      let (outs, called, decoded) =
        decode_samples_ok bytes size n nframes ports h s (omega arith) arrays in
      let some_channels : (n == 0) ≡ false = ground arith in
      let has_data : (app.data_size == 0) ≡ false = ground arith in
      let fitting : ltb app.process_buffer_bytes size ≡ false = ground arith in
      let enough : ltb (J.read_space app.ring) size ≡ false = ground arith in
      let whole : (size != size) ≡ false = ground arith in
      let no_null : any_null ports n 0 ≡ false =
        any_null-eq-false ports n 0 (λ c p q. arrays c (omega arith)) in
      rw (wrap, some_channels, has_data, fitting, enough, count, whole, no_null, width, called) refl

  -- When a width that the decoder supports is known, the ring holds the bytes of `nframes` frames,
  -- they fit the client's buffer, and every channel has a port's buffer, the callback takes exactly
  -- these, the oldest bytes of the ring; every port gets its channel's samples of them; no underrun
  -- is counted and no error stays; and the meter has measured what the ports were given, just then.
  -- (JACK's ring is taken to behave.)
  pub callback-Played :
      (D : Double) (E : Decibels D) (silence : Float) (sample_rate : ℕ) (packet_time : D.W)
      (do_measure : Bool) (app : Client J) (m : Meter D) (t : Times D) (nframes now : ℕ)
      (ports : Outputs)
      → Behaves J
      → IsSupported app.current_channels
      → app.data_size ≢ 0
      → nframes < 2 ^ 32
      → nframes * app.current_channels * 3 ≤ app.process_buffer_bytes
      → nframes * app.current_channels * 3 ≤ J.read_space app.ring
      → HasArrays ports app.current_channels
      → IsBytes ((J.read app.ring app.process_buffer (nframes * app.current_channels * 3)).1)
      → let (after, app', m', t') =
          callback D E silence sample_rate packet_time do_measure app m t nframes now ports in
        Played app nframes ports after app'
        × (m' ≡ measure D do_measure (samples_of silence after) app.current_channels nframes m)
  unfolding callback
  callback-Played D E silence sample_rate packet_time do_measure app m t nframes now ports b s
        some_data small fits there arrays h =
      (
        process-Played silence app nframes now ports b s some_data small fits there arrays h,
        rw (got_through app nframes ports b s some_data small fits there arrays h) refl,
      )
