-- ===== src/Driver/Lifecycle.antt =====
-- src/coreaudio/ReacJackDriver.c: the device under any sequence of the host's calls, with the
-- daemon's writes to the mapped ring between them.
use mathlib.Core.Option
use reac_jack.Common.{
  Bool, Buffer, List, Option, [], arith, false, none, refl, some, sub64, true, ℕ, ◌∷◌, ◌≡◌, ◌≢◌,
  ◌≤◌,
}
use reac_jack.Driver.{ObjectId, device}
use reac_jack.Driver.Float64.{Float64}
use reac_jack.Driver.Device.{
  Device, clamped, get_zero_time_stamp, high_rate, low_rate, start_io, stop_io,
  update_clock_estimate,
}
use reac_jack.Driver.Operation.{Operation, do_io_operation}
use reac_jack.Ring.{Ring}

-- `IsValid` is kept at a nominal rate for which the bounds stand as they should: what IEEE 754
-- gives at any positive rate.
pub record RateBounds (R : Float64) (nominal : R.F) : Type 0 where
  pub low_refl : R.flt (low_rate R nominal) (low_rate R nominal) ≡ false
  pub high_refl : R.flt (high_rate R nominal) (high_rate R nominal) ≡ false
  pub ordered : R.flt (high_rate R nominal) (low_rate R nominal) ≡ false
  pub above : R.flt nominal (low_rate R nominal) ≡ false
  pub below : R.flt (high_rate R nominal) nominal ≡ false

-- A rate within one per cent of the nominal one.
pub record Within (R : Float64) (nominal rate : R.F) : Type 0 where
  pub low : R.flt rate (low_rate R nominal) ≡ false
  pub high : R.flt (high_rate R nominal) rate ≡ false

clamped-Within :
    (R : Float64) (nominal estimate : R.F)
    → RateBounds R nominal
    → Within R nominal (clamped R nominal estimate)
clamped-Within R nominal estimate b = record {
  low = let l = b.low_refl in let o = b.ordered in ground arith;
  high = let h = b.high_refl in let o = b.ordered in ground arith;
}

module _ {R : Float64} {A : Type 0} where
  -- The ring is open only while a client runs, the rate then stays near the nominal one, and the
  -- anchor of the timeline is no later than the last timestamp.
  pub record IsValid (d : Device R A) : Type 0 where
    pub closed : d.running ≡ 0 → d.ring ≡ none
    pub rate : d.running ≢ 0 → Within R d.ticks_per_frame d.slaved
    pub anchored : d.anchor_host ≤ d.last_host

  start_io-IsValid :
      (d : Device R A) (own : Bool) (id : ObjectId) (now : ℕ) (opened : Option (Ring A))
      → RateBounds R d.ticks_per_frame
      → IsValid d
      → IsValid ((start_io d own id now opened).1)
  unfolding start_io
  start_io-IsValid d own id now opened b v = record {
    closed = let c = v.closed in ground arith;
    rate =
        let r = v.rate in
        let n : Within R d.ticks_per_frame d.ticks_per_frame = record {
          low = b.above;
          high = b.below;
        } in
        ground arith;
    anchored = let a = v.anchored in ground arith;
  }

  stop_io-IsValid :
      (d : Device R A) (own : Bool) (id : ObjectId) → IsValid d → IsValid ((stop_io d own id).1)
  unfolding stop_io
  stop_io-IsValid d own id v = record {
    closed = let c = v.closed in ground arith;
    rate = let r = v.rate in ground arith;
    anchored = let a = v.anchored in ground arith;
  }

  update_clock_estimate-IsValid :
      (d : Device R A) (observed : Option (ℕ × ℕ))
      → RateBounds R d.ticks_per_frame
      → IsValid d
      → IsValid (update_clock_estimate d observed)
  unfolding update_clock_estimate
  update_clock_estimate-IsValid d none b v = v
  update_clock_estimate-IsValid d (some (time, position)) b v = record {
    closed = let c = v.closed in ground arith;
    rate =
        let r = v.rate in
        let estimate =
          R.fdiv (R.of_nat (sub64 time d.ref_host)) (R.of_nat (sub64 position d.ref_pos)) in
        ground (arith, clamped-Within R d.ticks_per_frame estimate b);
    anchored = let a = v.anchored in ground arith;
  }

  get_zero_time_stamp-IsValid :
      (d : Device R A) (own : Bool) (id : ObjectId) (given : Bool) (observed : Option (ℕ × ℕ))
      (now : ℕ)
      → RateBounds R d.ticks_per_frame
      → IsValid d
      → IsValid ((get_zero_time_stamp d own id given observed now).1)
  unfolding get_zero_time_stamp
  get_zero_time_stamp-IsValid d own id given observed now b v =
      let u = update_clock_estimate-IsValid d observed b v in
      record {
        closed = let c = u.closed in let c' = v.closed in ground arith;
        rate = let r = u.rate in let r' = v.rate in ground arith;
        anchored = let a = u.anchored in let a' = v.anchored in ground arith;
      }

module _ {R : Float64} {A : Type 0} (silence : A) where
  do_io_operation-IsValid :
      (d : Device R A) (own : Bool) (id : ObjectId) (op : Operation) (buffer : Option (Buffer A))
      (frames : ℕ)
      → IsValid d
      → IsValid ((do_io_operation silence d own id op buffer frames).1)
  unfolding do_io_operation
  do_io_operation-IsValid d own id op buffer frames v = record {
    closed = let c = v.closed in ground arith;
    rate = let r = v.rate in ground arith;
    anchored = let a = v.anchored in ground arith;
  }

-- One call of the host, or a write of the daemon to the ring that is mapped.
pub data Call (A : Type 0) : Type 0 where
  start : ℕ → Option (Ring A) → Call A
  stop : Call A
  stamp : Option (ℕ × ℕ) → ℕ → Call A
  io : Operation → Option (Buffer A) → ℕ → Call A
  daemon : Ring A → Call A

module _ {R : Float64} {A : Type 0} where
  abbrev pub see : Device R A → Ring A → Device R A
  see d r = record d { ring = Option.map (λ (old : Ring A). r) d.ring }

module _ {R : Float64} {A : Type 0} (silence : A) where
  abbrev pub perform : Call A → Device R A → Device R A
  perform (start now opened) d = (start_io d true device now opened).1
  perform stop d = (stop_io d true device).1
  perform (stamp observed now) d = (get_zero_time_stamp d true device true observed now).1
  perform (io op buffer frames) d = (do_io_operation silence d true device op buffer frames).1
  perform (daemon r) d = see d r

  abbrev pub run : List (Call A) → Device R A → Device R A
  run [] d = d
  run (c ∷ cs) d = run cs (perform c d)

  perform-ticks : (c : Call A) (d : Device R A) → (perform c d).ticks_per_frame ≡ d.ticks_per_frame
  unfolding start_io stop_io get_zero_time_stamp do_io_operation
  perform-ticks (start now opened) d = ground arith
  perform-ticks stop d = ground arith
  perform-ticks (stamp observed now) d = ground arith
  perform-ticks (io op buffer frames) d = ground arith
  perform-ticks (daemon r) d = refl

  perform-IsValid :
      (c : Call A) (d : Device R A)
      → RateBounds R d.ticks_per_frame
      → IsValid d
      → IsValid (perform c d)
  perform-IsValid (start now opened) d b v = start_io-IsValid d true device now opened b v
  perform-IsValid stop d b v = stop_io-IsValid d true device v
  perform-IsValid (stamp observed now) d b v =
      get_zero_time_stamp-IsValid d true device true observed now b v
  perform-IsValid (io op buffer frames) d b v =
      do_io_operation-IsValid silence d true device op buffer frames v
  perform-IsValid (daemon r) d b v = record {
    closed = let c = v.closed in ground arith;
    rate = v.rate;
    anchored = v.anchored;
  }

  -- At a nominal rate that stands between its bounds, after any sequence of starts, stops,
  -- timestamps, IO operations and writes of the daemon, from a valid device (such as one that no
  -- client has started): the ring is closed when no client runs; while one runs, the rate that the
  -- clock follows is within one per cent of the nominal rate; and the anchor of the timeline is no
  -- later than the last timestamp.
  pub run-IsValid :
      (cs : List (Call A)) (d : Device R A)
      → RateBounds R d.ticks_per_frame
      → IsValid d
      → IsValid (run cs d)
  run-IsValid [] d b v = v
  run-IsValid (c ∷ cs) d b v =
      run-IsValid cs (perform c d) (rw (perform-ticks c d) b) (perform-IsValid c d b v)
