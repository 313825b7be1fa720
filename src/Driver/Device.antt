-- ===== src/Driver/Device.antt =====
-- src/coreaudio/ReacJackDriver.c: the running device, its starts and stops, its timeline.
use reac_jack.Common.{
  Bool, Option, false, if◌then◌else◌, ltb, none, not, some, sub64, true, u64, ℕ, ◌*◌, ◌+◌, ◌-◌,
  ◌==◌, ◌^◌, ◌||◌,
}
use reac_jack.Driver.{
  ObjectId, Outcome, bad_object, device, error, illegal_operation, min_observed_frames, ok,
  ring_frames, target_fill,
}
use reac_jack.Driver.Float64.{Float64}
use reac_jack.Ring.{Ring, seek_to_fill}

-- The globals that `gDevice_IOMutex` guards. The ring is there while `gDevice_RingIsOpen`.
pub record Device (R : Float64) (A : Type 0) : Type 0 where
  pub running : ℕ
  pub ticks_per_frame : R.F
  pub anchor_host : ℕ
  pub anchor_sample : R.F
  pub last_host : ℕ
  pub last_sample : R.F
  pub seed : ℕ
  pub slaved : R.F
  pub ref_valid : Bool
  pub ref_host : ℕ
  pub ref_pos : ℕ
  pub ring : Option (Ring A)

module _ {A : Type 0} where
  -- The opened ring, sought to the target fill.
  abbrev sought : Option (Ring A) → Option (Ring A)
  sought none = none
  sought (some r) = some ((seek_to_fill r target_fill).1)

module _ (R : Float64) where
  -- `kClock_MaxRateSkew`, 0.01
  abbrev pub max_rate_skew : R.F
  max_rate_skew = R.literal 1 2

  -- 0.000002, the change of rate that is followed at the least
  abbrev pub resync_threshold : R.F
  resync_threshold = R.literal 2 6

  -- `low`, `high` and the clamped estimate of `update_clock_estimate`
  abbrev pub low_rate : R.F → R.F
  low_rate nominal = R.fmul nominal (R.fsub (R.of_nat 1) max_rate_skew)

  abbrev pub high_rate : R.F → R.F
  high_rate nominal = R.fmul nominal (R.fadd (R.of_nat 1) max_rate_skew)

  abbrev pub clamped : R.F → R.F → R.F
  clamped nominal estimate =
      if R.flt estimate (low_rate nominal)
      then low_rate nominal
      else if R.flt (high_rate nominal) estimate
      then high_rate nominal
      else estimate

module _ {R : Float64} {A : Type 0} where
  -- What the first start sets, at the host time `now`, with what `shared_audio_open` maps.
  abbrev pub first_start : Device R A → ℕ → Option (Ring A) → Device R A
  first_start d now opened = record d {
    anchor_host = now;
    anchor_sample = R.of_nat 0;
    last_host = now;
    last_sample = R.of_nat 0;
    slaved = d.ticks_per_frame;
    ref_valid = false;
    ring = sought opened;
  }

  abbrev count_start : Device R A → Device R A
  count_start d = record d { running = d.running + 1 }

  -- `ReacJack_StartIO`
  unfoldable pub start_io :
      Device R A → Bool → ObjectId → ℕ → Option (Ring A) → Outcome (Unit {0}) × Device R A
  start_io d true device now opened =
      if d.running == 2 ^ 64 - 1
      then (error illegal_operation, d)
      else if d.running == 0
      then (ok tt, count_start (first_start d now opened))
      else (ok tt, count_start d)
  start_io d own id now opened = (error bad_object, d)

  -- `ReacJack_StopIO`
  unfoldable pub stop_io : Device R A → Bool → ObjectId → Outcome (Unit {0}) × Device R A
  stop_io d true device =
      if d.running == 0
      then (error illegal_operation, d)
      else if d.running - 1 == 0
      then (ok tt, record d { running = 0; ring = none })
      else (ok tt, record d { running = d.running - 1 })
  stop_io d own id = (error bad_object, d)

  -- The end of `update_clock_estimate`: a new rate, from the last timestamp on.
  abbrev pub follow : Device R A → R.F → Device R A
  follow d estimate =
      if R.fle (R.fabs (R.fsub estimate d.slaved)) (R.fmul d.slaved (resync_threshold R))
      then d
      else record d {
        anchor_host = d.last_host;
        anchor_sample = d.last_sample;
        slaved = estimate;
        seed = u64 (d.seed + 1);
      }

  -- `update_clock_estimate` with an observation that `shared_audio_get_clock` gave
  abbrev pub observe : Device R A → ℕ → ℕ → Device R A
  observe d time position =
      if not d.ref_valid || ltb position d.ref_pos
      then record d { ref_host = time; ref_pos = position; ref_valid = true }
      else let window = sub64 position d.ref_pos in
        if ltb window min_observed_frames
        then d
        else follow d (
            clamped R d.ticks_per_frame
              (R.fdiv (R.of_nat (sub64 time d.ref_host)) (R.of_nat window)))

  -- `update_clock_estimate`; `observed` is what `shared_audio_get_clock` gives.
  unfoldable pub update_clock_estimate : Device R A → Option (ℕ × ℕ) → Device R A
  update_clock_estimate d none = d
  update_clock_estimate d (some (time, position)) = elim (d.ring) [
    | none ↦ d
    | some r ↦ observe d time position
  ]

  -- The timestamp at `now`, before it is held back: host time and sample time.
  abbrev pub timestamp : Device R A → ℕ → ℕ × R.F
  timestamp d now =
      let ticks_per_period = R.fmul d.slaved (R.of_nat ring_frames) in
      let periods = R.to_nat (R.fdiv (R.of_nat (sub64 now d.anchor_host)) ticks_per_period) in
      (
        u64 (d.anchor_host + R.to_nat (R.fmul (R.of_nat periods) ticks_per_period)),
        R.fadd d.anchor_sample (R.of_nat (u64 (periods * ring_frames))),
      )

  -- The rest of `ReacJack_GetZeroTimeStamp`: never behind the last one.
  abbrev pub emit : Device R A → ℕ × R.F → (R.F × ℕ × ℕ) × Device R A
  emit d (host_time, sample_time) =
      if ltb host_time d.last_host then ((d.last_sample, d.last_host, d.seed), d) else (
        (sample_time, host_time, d.seed),
        record d { last_host = host_time; last_sample = sample_time },
      )

  -- `ReacJack_GetZeroTimeStamp`; `given` says that no pointer to a result is null.
  unfoldable pub get_zero_time_stamp :
      Device R A → Bool → ObjectId → Bool → Option (ℕ × ℕ) → ℕ → Outcome (R.F × ℕ × ℕ) × Device R A
  unfolding update_clock_estimate
  get_zero_time_stamp d true device true observed now =
      let updated = update_clock_estimate d observed in
      let (answer, d') = emit updated (timestamp updated now) in (ok answer, d')
  get_zero_time_stamp d own id given observed now = (error bad_object, d)
