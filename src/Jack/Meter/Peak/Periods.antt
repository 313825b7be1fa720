-- ===== src/Jack/Meter/Peak/Periods.antt =====
-- src/reacjack.c: what the metering of one callback leaves in the globals.

use reac_jack.Common.{
  Buffer, ap, arith, if◌then◌else◌, leb, ltb, lt→ltb, refl, suc, sym, true, update, zero, ℕ, ◌%◌,
  ◌&&◌, ◌*◌, ◌+◌, ◌<◌, ◌==◌, ◌∙◌, ◌≡◌,
}
use reac_jack.Decode.{Float}
use reac_jack.Jack.Meter.{
  Double, Meter, keep_channels, measure, measure_channels, measure_frames, raise, show_channel,
  show_channels, sum_periods,
}
use reac_jack.Jack.Meter.Peak.{greatest}

-- What a callback has given to the ports.
pub record Period : Type 0 where
  pub out : Buffer (Buffer Float)
  pub nframes : ℕ

module _ (D : Double) where
  -- `fabs(outBuffer[ch][frame])`
  abbrev pub sample_level : Period → ℕ → Buffer D.W
  sample_level p ch frame = D.fabs (D.of_sample (p.out ch frame))

  -- A channel's peak in a period.
  abbrev pub level : Period → ℕ → D.W
  level p ch = greatest D D.nought (sample_level p ch) 0 p.nframes

  measure_channels-peak :
      (p : Period) (frame left ch c : ℕ) (sums : Buffer D.W × Buffer D.W)
      → (measure_channels D p.out frame left ch sums).1 c ≡ (
          if leb ch c && ltb c (ch + left)
          then raise D (sums.1 c) (sample_level p c frame)
          else sums.1 c)
  unfolding measure_channels
  measure_channels-peak p frame zero ch c sums = ground arith
  measure_channels-peak p frame (suc left) ch c sums =
      measure_channels-peak p frame left (ch + 1) c (measure_channels D p.out frame 1 ch sums)
      ∙ ground arith

  keep_channels-meter_iteration :
      (sq_val peak : Buffer D.W) (left ch : ℕ) (m : Meter D)
      → (keep_channels D sq_val peak left ch m).meter_iteration ≡ m.meter_iteration
  unfolding keep_channels
  keep_channels-meter_iteration sq_val peak zero ch m = refl
  keep_channels-meter_iteration sq_val peak (suc left) ch m =
      keep_channels-meter_iteration sq_val peak left (ch + 1) _

  keep_channels-meter_peak :
      (sq_val peak : Buffer D.W) (left ch : ℕ) (m : Meter D) (c v : ℕ)
      → m.meter_iteration < 400
      → v < 400
      → (keep_channels D sq_val peak left ch m).meter_peak (c * 400 + v) ≡ (
          if (leb ch c && ltb c (ch + left)) && (v == m.meter_iteration)
          then peak c
          else m.meter_peak (c * 400 + v))
  unfolding keep_channels
  keep_channels-meter_peak sq_val peak zero ch m c v low high = ground arith
  keep_channels-meter_peak sq_val peak (suc left) ch m c v low high =
      keep_channels-meter_peak sq_val peak left (ch + 1) (keep_channels D sq_val peak 1 ch m) c v
        low high
      ∙ ground arith

  sum_periods-greatest :
      (m : Meter D) (ch left v : ℕ) (sums : D.W × D.W)
      → (sum_periods D m ch left v sums).1
        ≡ greatest D sums.1 (λ i. m.meter_peak (ch * 400 + i)) v left
  unfolding sum_periods greatest
  sum_periods-greatest m ch zero v sums = refl
  sum_periods-greatest m ch (suc left) v sums = sum_periods-greatest m ch left (v + 1) _

  measure_frames-peak :
      (p : Period) (channels left frame c : ℕ) (sums : Buffer D.W × Buffer D.W)
      → c < channels
      → (measure_frames D p.out channels left frame sums).1 c
        ≡ greatest D (sums.1 c) (sample_level p c) frame left
  unfolding measure_frames greatest
  measure_frames-peak p channels zero frame c sums h = refl
  measure_frames-peak p channels (suc left) frame c sums h =
      let here = measure_channels-peak p frame channels 0 c sums in
      let inside : ltb c channels ≡ true = lt→ltb c channels h in
      measure_frames-peak p channels left (frame + 1) c
        (measure_channels D p.out frame channels 0 sums) h
      ∙ ap (λ x. greatest D x (sample_level p c) (frame + 1) left) (here ∙ ground arith)

  -- What a period's metering has made of the globals.
  pub record Measured (p : Period) (channels : ℕ) (m after : Meter D) : Type 0 where
    pub iteration : after.meter_iteration ≡ (m.meter_iteration + 1) % 400
    pub entry :
        (c v : ℕ)
        → c < channels
        → v < 400
        → after.meter_peak (c * 400 + v)
          ≡ (if v == m.meter_iteration then level p c else m.meter_peak (c * 400 + v))
    pub shown :
        (c : ℕ)
        → c < channels
        → after.channel_peak c
          ≡ D.narrow (greatest D D.nought (λ v. after.meter_peak (c * 400 + v)) 0 400)

  show_channel-channel_peak :
      (nframes ch : ℕ) (m : Meter D)
      → (show_channel D nframes ch m).channel_peak
        ≡ update m.channel_peak ch
            (D.narrow (greatest D D.nought (λ v. m.meter_peak (ch * 400 + v)) 0 400))
  unfolding show_channel
  show_channel-channel_peak nframes ch m =
      ap (λ x. update m.channel_peak ch (D.narrow x))
        (sum_periods-greatest m ch 400 0 (D.nought, D.nought))

  show_channel-meter :
      (nframes ch : ℕ) (m : Meter D)
      → let shown = show_channel D nframes ch m in
        (shown.meter_iteration ≡ m.meter_iteration) × (shown.meter_peak ≡ m.meter_peak)
  unfolding show_channel
  show_channel-meter nframes ch m = (refl, refl)

  show_channels-meter :
      (nframes left ch : ℕ) (m : Meter D)
      → let shown = show_channels D nframes left ch m in
        (shown.meter_iteration ≡ m.meter_iteration) × (shown.meter_peak ≡ m.meter_peak)
  unfolding show_channels
  show_channels-meter nframes zero ch m = (refl, refl)
  show_channels-meter nframes (suc left) ch m =
      let (turn, peaks) = show_channel-meter nframes ch m in
      let (turn', peaks') =
        show_channels-meter nframes left (ch + 1) (show_channel D nframes ch m) in
      (turn' ∙ turn, peaks' ∙ peaks)

  -- The peak of a channel over what is kept.
  abbrev kept_peak : Buffer D.W → ℕ → D.W
  kept_peak peaks c = D.narrow (greatest D D.nought (λ v. peaks (c * 400 + v)) 0 400)

  show_channels-channel_peak :
      (nframes left ch : ℕ) (m : Meter D) (c : ℕ)
      → (show_channels D nframes left ch m).channel_peak c
        ≡ (if leb ch c && ltb c (ch + left) then kept_peak m.meter_peak c else m.channel_peak c)
  unfolding show_channels
  show_channels-channel_peak nframes zero ch m c = ground arith
  show_channels-channel_peak nframes (suc left) ch m c =
      let (turn, peaks) = show_channel-meter nframes ch m in
      let next = show_channel D nframes ch m in
      let here : next.channel_peak c
          ≡ (if c == ch then kept_peak m.meter_peak ch else m.channel_peak c) =
        ap (λ (f : Buffer D.W). f c) (show_channel-channel_peak nframes ch m) in
      let same : kept_peak next.meter_peak c ≡ kept_peak m.meter_peak c =
        ap (λ f. kept_peak f c) peaks in
      show_channels-channel_peak nframes left (ch + 1) next c
      ∙ go c (kept_peak next.meter_peak c) (next.channel_peak c) same here
    where
      go :
          (i : ℕ) (x y : D.W)
          → x ≡ kept_peak m.meter_peak i
          → y ≡ (if i == ch then kept_peak m.meter_peak ch else m.channel_peak i)
          → (if leb (ch + 1) i && ltb i (ch + 1 + left) then x else y) ≡ (
              if leb ch i && ltb i (ch + suc left)
              then kept_peak m.meter_peak i
              else m.channel_peak i)
      go i x y e f =
          let moved : i ≡ ch → kept_peak m.meter_peak ch ≡ kept_peak m.meter_peak i =
            λ s. ap (kept_peak m.meter_peak) (sym s) in
          ground arith

  pub measure-Measured :
      (p : Period) (channels : ℕ) (m : Meter D)
      → m.meter_iteration < 400
      → Measured p channels m (measure D true p.out channels p.nframes m)
  unfolding measure
  measure-Measured p channels m low =
      let sums = measure_frames D p.out channels p.nframes 0 (λ ch. D.nought, λ ch. D.nought) in
      let kept = keep_channels D sums.0 sums.1 channels 0 m in
      let turn = keep_channels-meter_iteration sums.0 sums.1 channels 0 m in
      let turned : Meter D = record kept { meter_iteration = (kept.meter_iteration + 1) % 400 } in
      let (turn', peaks) = show_channels-meter p.nframes channels 0 turned in
      record {
        iteration = turn' ∙ ap (λ (n : ℕ). (n + 1) % 400) turn;
        entry = λ c v inside small.
            let found =
              measure_frames-peak p channels p.nframes 0 c (λ ch. D.nought, λ ch. D.nought)
                inside in
            ap (λ (f : Buffer D.W). f (c * 400 + v)) peaks
            ∙ keep_channels-meter_peak sums.0 sums.1 channels 0 m c v low small
            ∙ ground arith;
        shown = λ c inside.
            show_channels-channel_peak p.nframes channels 0 turned c
            ∙ ground arith
            ∙ ap (λ f. kept_peak f c) (sym peaks);
      }
