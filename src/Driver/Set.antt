-- ===== src/Driver/Set.antt =====
-- src/coreaudio/ReacJackDriver.c: setting a property. The device keeps its one format and its one
-- rate, so that an accepted call changes nothing.
use reac_jack.Common.{Bool, Option, false, if◌then◌else◌, none, some, true, ℕ, ◌!=◌, ◌&&◌, ◌==◌}
use reac_jack.Driver.{
  Address, ObjectId, Outcome, Sdk, Selector, StreamDescription, bad_object, bad_property_size,
  device, error, nominal_sample_rate, ok, physical_format, sample_rate, size_of_float64,
  stream_input, unknown_property, unsupported_format, virtual_format,
}
use reac_jack.Driver.Float64.{Float64}
use reac_jack.Driver.Data.{device_stream_format}

module _ (R : Float64) (sdk : Sdk) where
  -- `formats_equal`
  abbrev pub formats_equal : StreamDescription R.F → StreamDescription R.F → Bool
  formats_equal a b =
      R.feq a.rate b.rate
      && (a.format_id == b.format_id)
      && (a.format_flags == b.format_flags)
      && (a.bytes_per_packet == b.bytes_per_packet)
      && (a.frames_per_packet == b.frames_per_packet)
      && (a.frame_bytes == b.frame_bytes)
      && (a.channels_per_frame == b.channels_per_frame)
      && (a.bits_per_channel == b.bits_per_channel)

  -- The caller's data, as the code reads it: as a rate, or as a format.
  pub record Given : Type 0 where
    pub as_rate : R.F
    pub as_format : StreamDescription R.F

  abbrev pub set_rate : Given → ℕ → Outcome (Unit {0})
  set_rate given size =
      if size != size_of_float64
      then error bad_property_size
      else if R.feq given.as_rate (R.of_nat sample_rate)
      then ok tt
      else error unsupported_format

  abbrev pub set_format : Given → ℕ → Outcome (Unit {0})
  set_format given size =
      if size != sdk.size_of_stream_description
      then error bad_property_size
      else if formats_equal given.as_format (device_stream_format R sdk)
      then ok tt
      else error unsupported_format

  -- `ReacJack_SetPropertyData` past its null checks
  abbrev pub set_property : ObjectId → Selector → Given → ℕ → Outcome (Unit {0})
  set_property device nominal_sample_rate given size = set_rate given size
  set_property stream_input virtual_format given size = set_format given size
  set_property stream_input physical_format given size = set_format given size
  set_property id selector given size = error unknown_property

  -- `ReacJack_SetPropertyData`
  unfoldable pub set_property_data :
      Bool → ObjectId → Option Address → ℕ → Option Given → Outcome (Unit {0})
  set_property_data false id address size given = error bad_object
  set_property_data true id none size given = error bad_object
  set_property_data true id (some a) size none = error bad_object
  set_property_data true id (some a) size (some given) = set_property id a.selector given size
