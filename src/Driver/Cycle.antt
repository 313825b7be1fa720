-- ===== src/Driver/Cycle.antt =====
-- src/coreaudio/ReacJackDriver.c: what one IO cycle gives the host.
use reac_jack.Common.{
  Buffer, arith, fun_ext, if◌then◌else◌, ltb, memset, memset-at, none, some, true, ℕ, ◌*◌, ◌+◌, ◌<◌,
  ◌^◌, ◌∙◌, ◌≡◌,
}
use reac_jack.Driver.{channel_count, device, fill_tolerance, ok, target_fill}
use reac_jack.Driver.Float64.{Float64}
use reac_jack.Driver.Device.{Device}
use reac_jack.Driver.Operation.{do_io_operation, read_input}
use reac_jack.Ring.{Ring, max_correction, read_regulated}
use reac_jack.Ring.Valid.{IsValid}
use reac_jack.Ring.Accounts.{Accounts, read_regulated-Accounts}

module _ {R : Float64} {A : Type 0} (silence : A) where
  -- A cycle without a ring fills exactly the host's `frames * 40` samples with silence and changes
  -- nothing of the device.
  pub do_io_operation_silent :
      (d : Device R A) (buffer : Buffer A) (frames : ℕ)
      → d.ring ≡ none
      → (do_io_operation silence d true device read_input (some buffer) frames
          ≡ (ok (some (λ i. if ltb i (frames * channel_count) then silence else buffer i)), d))
  unfolding do_io_operation
  do_io_operation_silent d buffer frames h =
      let filled : memset buffer 0 silence (frames * channel_count)
          ≡ (λ i. if ltb i (frames * channel_count) then silence else buffer i) =
        fun_ext (λ i. memset-at buffer 0 silence (frames * channel_count) i ∙ ground arith) in
      ground arith

  -- A cycle with a valid ring (its count of dropped frames is taken not to wrap) is one regulated
  -- read of 40 channels at the device's target and tolerance: the ring that stays mapped is valid,
  -- and the frames that left it are those returned and those counted as dropped.
  pub do_io_operation_reads :
      (d : Device R A) (r : Ring A) (buffer : Buffer A) (frames : ℕ)
      → d.ring ≡ some r
      → IsValid r
      → r.dropped_frames + max_correction < 2 ^ 64
      → let result =
          read_regulated silence r buffer channel_count frames target_fill fill_tolerance in
        (do_io_operation silence d true device read_input (some buffer) frames
          ≡ (ok (some result.1), record d { ring = some result.2 }))
        × Accounts r frames result
  unfolding do_io_operation
  do_io_operation_reads d r buffer frames h v hd = (
    ground arith,
    read_regulated-Accounts silence r buffer channel_count frames target_fill fill_tolerance v
        (omega arith) (omega arith) hd,
  )
