-- ===== src/Driver/Counts.antt =====
-- src/coreaudio/ReacJackDriver.c: the counts of clients and of references.
use reac_jack.Common.{
  Buffer, List, Option, [], arith, if◌then◌else◌, length, ltb, none, refl, some, true, ℕ, ◌+◌, ◌<◌,
  ◌^◌, ◌∷◌, ◌≡◌, ◌≤◌,
}
use reac_jack.Driver.{Outcome, device, error, ok}
use reac_jack.Driver.Float64.{Float64}
use reac_jack.Driver.Device.{Device, get_zero_time_stamp, start_io, stop_io, update_clock_estimate}
use reac_jack.Driver.Operation.{Operation, do_io_operation}
use reac_jack.Driver.Lifecycle.{Call, daemon, io, perform, run, see, stamp, start, stop}
use reac_jack.Driver.Glue.{Interface, PlugIn, add_ref, query_interface, release}
use reac_jack.Ring.{Ring}

-- 1 for a call that succeeded.
abbrev pub success : {B : Type 0} → Outcome B → ℕ
success (ok b) = 1
success (error s) = 0

module _ {R : Float64} {A : Type 0} (silence : A) where
  -- How many starts succeed in a run, and how many stops.
  abbrev pub starts : List (Call A) → Device R A → ℕ
  starts [] d = 0
  starts (start now opened ∷ cs) d =
      success (start_io d true device now opened).0
      + starts cs (perform silence (start now opened) d)
  starts (c ∷ cs) d = starts cs (perform silence c d)

  abbrev pub stops : List (Call A) → Device R A → ℕ
  stops [] d = 0
  stops (stop ∷ cs) d = success (stop_io d true device).0 + stops cs (perform silence stop d)
  stops (c ∷ cs) d = stops cs (perform silence c d)

  start_running :
      (d : Device R A) (now : ℕ) (opened : Option (Ring A))
      → (perform silence (start now opened) d).running
        ≡ d.running + success (start_io d true device now opened).0
  unfolding start_io
  start_running d now opened = ground arith

  stop_running :
      (d : Device R A)
      → (perform silence stop d).running + success (stop_io d true device).0 ≡ d.running
  unfolding stop_io
  stop_running d = ground arith

  stamp_running :
      (d : Device R A) (observed : Option (ℕ × ℕ)) (now : ℕ)
      → (perform silence (stamp observed now) d).running ≡ d.running
  unfolding get_zero_time_stamp update_clock_estimate
  stamp_running d none now = ground arith
  stamp_running d (some (time, position)) now = ground arith

  io_running :
      (d : Device R A) (op : Operation) (buffer : Option (Buffer A)) (frames : ℕ)
      → (perform silence (io op buffer frames) d).running ≡ d.running
  unfolding do_io_operation
  io_running d op buffer frames = ground arith

  -- In any run the count of running clients grows by the starts that succeed and falls by the
  -- stops that succeed: a failed call leaves no trace in it.
  pub run-counts :
      (cs : List (Call A)) (d : Device R A)
      → (run silence cs d).running + stops cs d ≡ d.running + starts cs d
  run-counts [] d = refl
  run-counts (start now opened ∷ cs) d =
      omega
        (arith, start_running d now opened, run-counts cs (perform silence (start now opened) d))
  run-counts (stop ∷ cs) d = omega (arith, stop_running d, run-counts cs (perform silence stop d))
  run-counts (stamp observed now ∷ cs) d =
      omega (
        arith,
        stamp_running d observed now,
        run-counts cs (perform silence (stamp observed now) d),
      )
  run-counts (io op buffer frames ∷ cs) d = omega (
    arith,
    io_running d op buffer frames,
    run-counts cs (perform silence (io op buffer frames) d),
  )
  run-counts (daemon r ∷ cs) d = run-counts cs (see d r)

-- The calls on the plug-in's references.
pub data Reference : Type 0 where
  query : Option Interface → Reference
  add drop : Reference

module _ {R : Float64} {Host : Type 0} where
  abbrev pub refer : Reference → PlugIn R Host → PlugIn R Host
  refer (query i) p = (query_interface p true i true).1
  refer add p = (add_ref p true).1
  refer drop p = (release p true).1

  abbrev pub refer_all : List Reference → PlugIn R Host → PlugIn R Host
  refer_all [] p = p
  refer_all (c ∷ cs) p = refer_all cs (refer c p)

  -- References handed out, and references given back while there were any.
  abbrev pub acquired : List Reference → PlugIn R Host → ℕ
  acquired [] p = 0
  acquired (query i ∷ cs) p =
      success (query_interface p true i true).0 + acquired cs (refer (query i) p)
  acquired (add ∷ cs) p = 1 + acquired cs (refer add p)
  acquired (drop ∷ cs) p = acquired cs (refer drop p)

  abbrev pub released : List Reference → PlugIn R Host → ℕ
  released [] p = 0
  released (drop ∷ cs) p = (if ltb 0 p.ref_count then 1 else 0) + released cs (refer drop p)
  released (c ∷ cs) p = released cs (refer c p)

  query_count :
      (p : PlugIn R Host) (i : Option Interface)
      → p.ref_count + 1 < 2 ^ 32
      → (refer (query i) p).ref_count ≡ p.ref_count + success (query_interface p true i true).0
  unfolding query_interface
  query_count p i h = ground arith

  add_count :
      (p : PlugIn R Host) → p.ref_count + 1 < 2 ^ 32 → (refer add p).ref_count ≡ p.ref_count + 1
  unfolding add_ref
  add_count p h = ground arith

  drop_count :
      (p : PlugIn R Host)
      → (refer drop p).ref_count + (if ltb 0 p.ref_count then 1 else 0) ≡ p.ref_count
  unfolding release
  drop_count p = ground arith

  -- While the 32-bit count cannot wrap, it is at all times the references handed out less those
  -- given back; a release too many changes nothing.
  pub refer_all-counts :
      (cs : List Reference) (p : PlugIn R Host)
      → p.ref_count + length cs < 2 ^ 32
      → (refer_all cs p).ref_count + released cs p ≡ p.ref_count + acquired cs p
  refer_all-counts [] p h = refl
  refer_all-counts (query i ∷ cs) p h =
      let one = query_count p i (omega arith) in
      let bound : success (query_interface p true i true).0 ≤ 1 = ground arith in
      omega (arith, refer_all-counts cs (refer (query i) p) (omega arith))
  refer_all-counts (add ∷ cs) p h =
      let one = add_count p (omega arith) in
      omega (arith, refer_all-counts cs (refer add p) (omega arith))
  refer_all-counts (drop ∷ cs) p h =
      let one = drop_count p in omega (arith, refer_all-counts cs (refer drop p) (omega arith))
