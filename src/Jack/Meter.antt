-- ===== src/Jack/Meter.antt =====
-- src/reacjack.c: the metering of the process callback and of the display. The arithmetic of the
-- language's double is taken with the operations that the code applies.
pub mod Peak
pub mod Window
use reac_jack.Common.{
  Bool, Buffer, [], if◌then◌else◌, offset, suc, u32, update, zero, ℕ, ◌%◌, ◌*◌, ◌+◌,
}
use reac_jack.Decode.{Float}

-- `METER_ITERATIONS`
abbrev pub meter_iterations : ℕ
meter_iterations = 400

-- `double`, with `(double)` of a sample, `(float)` of a result and `lt` for `<`.
pub record Double : Type 1 where
  pub W : Type 0
  pub nought : W
  pub of_nat : ℕ → W
  pub of_sample : Float → W
  pub narrow : W → W
  pub add : W → W → W
  pub mul : W → W → W
  pub div : W → W → W
  pub sqrt : W → W
  pub fabs : W → W
  pub lt : W → W → Bool

-- The globals of the metering, which are 0 at the start.
pub record Meter (D : Double) : Type 0 where
  pub meter_rms : Buffer D.W
  pub meter_peak : Buffer D.W
  pub meter_iteration : ℕ
  pub channel_rms : Buffer D.W
  pub channel_peak : Buffer D.W

module _ (D : Double) where
  abbrev pub first_meter : Meter D
  first_meter = record {
    meter_rms = λ i. D.nought;
    meter_peak = λ i. D.nought;
    meter_iteration = 0;
    channel_rms = λ i. D.nought;
    channel_peak = λ i. D.nought;
  }

  -- `if (peak < x) peak = x`
  abbrev pub raise : D.W → D.W → D.W
  raise peak x = if D.lt peak x then x else peak

  -- One frame, for the channels from `ch` on: the squares' sums and the peaks.
  pub measure_channels :
      Buffer (Buffer Float) → ℕ → ℕ → ℕ → Buffer D.W × Buffer D.W → Buffer D.W × Buffer D.W
  measure_channels out frame zero ch (sq_val, peak) = (sq_val, peak)
  measure_channels out frame (suc left) ch (sq_val, peak) =
      let sample = D.of_sample (out ch frame) in
      measure_channels out frame left (ch + 1) (
        update sq_val ch (D.add (sq_val ch) (D.mul sample sample)),
        update peak ch (raise (peak ch) (D.fabs sample)),
      )

  -- The frames from `frame` on.
  pub measure_frames :
      Buffer (Buffer Float) → ℕ → ℕ → ℕ → Buffer D.W × Buffer D.W → Buffer D.W × Buffer D.W
  measure_frames out channels zero frame sums = sums
  measure_frames out channels (suc left) frame sums =
      measure_frames out channels left (frame + 1) (measure_channels out frame channels 0 sums)

  -- The period's values, kept for the channels from `ch` on.
  pub keep_channels : Buffer D.W → Buffer D.W → ℕ → ℕ → Meter D → Meter D
  keep_channels sq_val peak zero ch m = m
  keep_channels sq_val peak (suc left) ch m =
      let offset = ch * meter_iterations + m.meter_iteration in
      keep_channels sq_val peak left (ch + 1) (record m {
        meter_rms = update m.meter_rms offset (sq_val ch);
        meter_peak = update m.meter_peak offset (peak ch);
      })

  -- The loop over the kept periods of a channel, from `v` on.
  pub sum_periods : Meter D → ℕ → ℕ → ℕ → D.W × D.W → D.W × D.W
  sum_periods m ch zero v (rms, peak_val) = (rms, peak_val)
  sum_periods m ch (suc left) v (rms, peak_val) =
      let offset = ch * meter_iterations + v in
      sum_periods m ch left (v + 1)
        (D.add rms (m.meter_rms offset), raise peak_val (m.meter_peak offset))

  -- What the display shows of the channel.
  pub show_channel : ℕ → ℕ → Meter D → Meter D
  show_channel nframes ch m =
      let (rms, peak_val) = sum_periods m ch meter_iterations 0 (D.nought, D.nought) in
      record m {
        channel_rms =
            update m.channel_rms ch
              (D.narrow (D.sqrt (D.div rms (D.of_nat (u32 (meter_iterations * nframes))))));
        channel_peak = update m.channel_peak ch (D.narrow peak_val);
      }

  -- What it shows of the channels from `ch` on.
  pub show_channels : ℕ → ℕ → ℕ → Meter D → Meter D
  show_channels nframes zero ch m = m
  show_channels nframes (suc left) ch m =
      show_channels nframes left (ch + 1) (show_channel nframes ch m)

  -- The metering of `process` on the ports' samples `out`.
  unfoldable pub measure : Bool → Buffer (Buffer Float) → ℕ → ℕ → Meter D → Meter D
  measure do_measure out channels nframes m =
      let (sq_val, peak) = measure_frames out channels nframes 0 (λ ch. D.nought, λ ch. D.nought) in
      let kept = keep_channels sq_val peak channels 0 m in
      let turned = record kept {
        meter_iteration = (kept.meter_iteration + 1) % meter_iterations;
      } in
      if do_measure then show_channels nframes channels 0 turned else m
