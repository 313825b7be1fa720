-- ===== src/Driver/Glue.antt =====
-- src/coreaudio/ReacJackDriver.c: the plug-in as a COM object, and the calls that do nothing.
use reac_jack.Common.{
  Bool, Option, false, if◌then◌else◌, ltb, none, some, true, u32, ℕ, ◌+◌, ◌-◌, ◌||◌,
}
use reac_jack.Driver.{
  ObjectId, Outcome, bad_object, device, error, illegal_operation, no_interface, ok, sample_rate,
  unsupported_operation,
}
use reac_jack.Driver.Float64.{Float64}

-- `gPlugIn_RefCount`, `gPlugIn_Host` and `gDevice_HostTicksPerFrame`. A host is of any type.
pub record PlugIn (R : Float64) (Host : Type 0) : Type 0 where
  pub ref_count : ℕ
  pub host : Option Host
  pub ticks_per_frame : R.F

-- What CoreFoundation says of the interface asked for.
pub record Interface : Type 0 where
  pub is_unknown : Bool
  pub is_driver : Bool

module _ {R : Float64} {Host : Type 0} where
  abbrev pub count_up : PlugIn R Host → PlugIn R Host
  count_up p = record p { ref_count = u32 (p.ref_count + 1) }

  -- `ReacJack_QueryInterface`; no interface is a failed `CFUUIDCreateFromUUIDBytes`.
  unfoldable pub query_interface :
      PlugIn R Host → Bool → Option Interface → Bool → Outcome (Unit {0}) × PlugIn R Host
  query_interface p false interface given = (error illegal_operation, p)
  query_interface p true interface false = (error illegal_operation, p)
  query_interface p true none true = (error illegal_operation, p)
  query_interface p true (some i) true =
      if i.is_unknown || i.is_driver then (ok tt, count_up p) else (error no_interface, p)

  -- `ReacJack_AddRef`
  unfoldable pub add_ref : PlugIn R Host → Bool → ℕ × PlugIn R Host
  add_ref p false = (0, p)
  add_ref p true = (u32 (p.ref_count + 1), count_up p)

  -- `ReacJack_Release`
  unfoldable pub release : PlugIn R Host → Bool → ℕ × PlugIn R Host
  release p false = (0, p)
  release p true =
      if ltb 0 p.ref_count
      then (p.ref_count - 1, record p { ref_count = p.ref_count - 1 })
      else (0, p)

  -- `ReacJack_Initialize`, with the host's timebase
  unfoldable pub initialize :
      PlugIn R Host → Bool → Option Host → ℕ → ℕ → Outcome (Unit {0}) × PlugIn R Host
  initialize p false host numer denom = (error bad_object, p)
  initialize p true host numer denom =
      let ticks_per_second =
        R.fdiv (R.fmul (R.literal 10000000000 1) (R.of_nat denom)) (R.of_nat numer) in
      (
        ok tt,
        record p { ticks_per_frame = R.fdiv ticks_per_second (R.of_nat sample_rate); host = host },
      )

-- `ReacJack_CreateDevice` and `ReacJack_DestroyDevice`
abbrev pub create_device : Outcome (Unit {0})
create_device = error unsupported_operation

abbrev pub destroy_device : Outcome (Unit {0})
destroy_device = error unsupported_operation

-- The calls that only check what they are about: `ReacJack_AddDeviceClient`,
-- `ReacJack_RemoveDeviceClient`, `ReacJack_PerformDeviceConfigurationChange`,
-- `ReacJack_AbortDeviceConfigurationChange`, `ReacJack_BeginIOOperation`, `ReacJack_EndIOOperation`.
abbrev pub about_device : Bool → ObjectId → Outcome (Unit {0})
about_device true device = ok tt
about_device own id = error bad_object

abbrev pub add_device_client : Bool → ObjectId → Outcome (Unit {0})
add_device_client = about_device

abbrev pub remove_device_client : Bool → ObjectId → Outcome (Unit {0})
remove_device_client = about_device

abbrev pub perform_configuration_change : Bool → ObjectId → Outcome (Unit {0})
perform_configuration_change = about_device

abbrev pub abort_configuration_change : Bool → ObjectId → Outcome (Unit {0})
abort_configuration_change = about_device

-- `ReacJack_Create`: whether the driver is given. The type asked for is `none` if null, else
-- whether it is `kAudioServerPlugInTypeUUID`.
abbrev pub create : Option Bool → Bool
create none = false
create (some is_server_plug_in) = is_server_plug_in
