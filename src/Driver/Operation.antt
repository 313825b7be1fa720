-- ===== src/Driver/Operation.antt =====
-- src/coreaudio/ReacJackDriver.c: the IO operations.
use reac_jack.Common.{Bool, Buffer, Option, false, memset, none, some, true, ℕ, ◌*◌}
use reac_jack.Driver.{
  ObjectId, Outcome, bad_object, channel_count, device, error, fill_tolerance, ok, target_fill,
}
use reac_jack.Driver.Float64.{Float64}
use reac_jack.Driver.Device.{Device}
use reac_jack.Driver.Glue.{about_device}
use reac_jack.Ring.{read_regulated}

-- `kAudioServerPlugInIOOperationReadInput` and the others.
pub data Operation : Type 0 where
  read_input : Operation
  other_operation : ℕ → Operation

abbrev is_read_input : Operation → Bool
is_read_input read_input = true
is_read_input op = false

-- `ReacJack_WillDoIOOperation`: whether it will, and whether in place.
unfoldable pub will_do_io_operation : Bool → ObjectId → Operation → Bool → Outcome (Bool × Bool)
will_do_io_operation true device op true = ok (is_read_input op, true)
will_do_io_operation own id op given = error bad_object

abbrev pub begin_io_operation : Bool → ObjectId → Outcome (Unit {0})
begin_io_operation = about_device

abbrev pub end_io_operation : Bool → ObjectId → Outcome (Unit {0})
end_io_operation = about_device

module _ {R : Float64} {A : Type 0} (silence : A) where
  -- The read of one cycle into the host's buffer.
  abbrev pub read_cycle : Device R A → Buffer A → ℕ → Option (Buffer A) × Device R A
  read_cycle d buffer frames = elim (d.ring) [
    | none ↦ (some (memset buffer 0 silence (frames * channel_count)), d)
    | some r ↦
        let (real, out, r') =
          read_regulated silence r buffer channel_count frames target_fill fill_tolerance in
        (some out, record d { ring = some r' })
  ]

  -- `ReacJack_DoIOOperation`; a null buffer is `none`.
  unfoldable pub do_io_operation :
      Device R A
      → Bool
      → ObjectId
      → Operation
      → Option (Buffer A)
      → ℕ
      → Outcome (Option (Buffer A)) × Device R A
  do_io_operation d true device read_input (some buffer) frames =
      let (out, d') = read_cycle d buffer frames in (ok out, d')
  do_io_operation d true device op buffer frames = (ok buffer, d)
  do_io_operation d own id op buffer frames = (error bad_object, d)
