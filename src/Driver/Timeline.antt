-- ===== src/Driver/Timeline.antt =====
-- src/coreaudio/ReacJackDriver.c: the timeline that the host sees never runs back.
use reac_jack.Common.{
  List, Option, [], arith, inl, none, refl, some, true, u64, ℕ, ◌+◌, ◌∷◌, ◌≡◌, ◌≢◌, ◌≤◌, ◌⊎◌,
}
use reac_jack.Driver.{Outcome, device, error, ok}
use reac_jack.Driver.Float64.{Float64}
use reac_jack.Driver.Device.{Device, get_zero_time_stamp, start_io, stop_io, update_clock_estimate}
use reac_jack.Driver.Operation.{do_io_operation}
use reac_jack.Driver.Lifecycle.{Call, daemon, io, perform, run, stamp, start, stop}

-- The timestamps of an answer, if it is one.
abbrev pub host_time : {F : Type 0} → Outcome (F × ℕ × ℕ) → ℕ
host_time (ok (sample, host, seed)) = host
host_time (error s) = 0

module _ {R : Float64} {A : Type 0} where
  -- An update of the clock keeps the rate, the anchor and the seed, or it counts the seed up and
  -- anchors the timeline at the last timestamp. It never changes that timestamp.
  pub update_clock_estimate_lem :
      (d : Device R A) (observed : Option (ℕ × ℕ))
      → let d' = update_clock_estimate d observed in
        (d'.last_host ≡ d.last_host)
        × (d'.last_sample ≡ d.last_sample)
        × (((d'.seed ≡ d.seed)
              × (d'.slaved ≡ d.slaved)
              × (d'.anchor_host ≡ d.anchor_host)
              × (d'.anchor_sample ≡ d.anchor_sample))
            ⊎ ((d'.seed ≡ u64 (d.seed + 1))
                × (d'.anchor_host ≡ d.last_host)
                × (d'.anchor_sample ≡ d.last_sample)))
  unfolding update_clock_estimate
  update_clock_estimate_lem d none = (refl, refl, inl (refl, refl, refl, refl))
  update_clock_estimate_lem d (some (time, position)) = ground arith

  stamp_lem :
      (d : Device R A) (observed : Option (ℕ × ℕ)) (now : ℕ)
      → let (answer, d') = get_zero_time_stamp d true device true observed now in
        (host_time answer ≡ d'.last_host) × (d.last_host ≤ d'.last_host) × (d'.running ≡ d.running)
  unfolding get_zero_time_stamp
  stamp_lem d observed now = let u = update_clock_estimate_lem d observed in ground arith

module _ {R : Float64} {A : Type 0} (silence : A) where
  -- A client runs from each call to the next.
  abbrev pub IsRunning : List (Call A) → Device R A → Type 0
  IsRunning [] d = d.running ≢ 0
  IsRunning (c ∷ cs) d = (d.running ≢ 0) × IsRunning cs (perform silence c d)

  perform-last_host :
      (c : Call A) (d : Device R A) → d.running ≢ 0 → d.last_host ≤ (perform silence c d).last_host
  unfolding start_io stop_io do_io_operation
  perform-last_host (start now opened) d h = ground arith
  perform-last_host stop d h = ground arith
  perform-last_host (stamp observed now) d h = (stamp_lem d observed now).1
  perform-last_host (io op buffer frames) d h = ground arith
  perform-last_host (daemon r) d h = omega arith

  run-last_host :
      (cs : List (Call A)) (d : Device R A)
      → IsRunning cs d
      → d.last_host ≤ (run silence cs d).last_host
  run-last_host [] d h = omega arith
  run-last_host (c ∷ cs) d h =
      let one = perform-last_host c d h.0 in
      let rest = run-last_host cs (perform silence c d) h.1 in omega arith

  -- Two calls of `ReacJack_GetZeroTimeStamp` with anything between them that leaves a client
  -- running: the second gives no earlier host time, whatever the clocks and the daemon said.
  pub get_zero_time_stamp_monotone :
      (cs : List (Call A)) (d : Device R A) (observed later : Option (ℕ × ℕ)) (now then : ℕ)
      → IsRunning cs ((get_zero_time_stamp d true device true observed now).1)
      → let (first, d1) = get_zero_time_stamp d true device true observed now in
        let (second, d2) = get_zero_time_stamp (run silence cs d1) true device true later then in
        host_time first ≤ host_time second
  get_zero_time_stamp_monotone cs d observed later now then h =
      let d1 = (get_zero_time_stamp d true device true observed now).1 in
      let one = stamp_lem d observed now in
      let between = run-last_host cs d1 h in
      let two = stamp_lem (run silence cs d1) later then in omega arith
