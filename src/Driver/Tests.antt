-- ===== src/Driver/Tests.antt =====
-- A device on exact decimals, and the theorems at it.
use reac_jack.Common.{List, Option, [], arith, false, none, refl, some, true, ℕ, ◌+◌, ◌∷◌, ◌≡◌, ◌≤◌}
use reac_jack.Driver.{
  Address, Sdk, device, float, global, input, nominal_sample_rate, ok, preferred_channel_layout,
}
use reac_jack.Driver.Fixture.{decimal}
use reac_jack.Driver.Property.{device_property_size, get_property_data_size}
use reac_jack.Driver.Data.{device_property_data, device_stream_format, get_property_data}
use reac_jack.Driver.Set.{Given, set_property_data}
use reac_jack.Driver.Glue.{PlugIn}
use reac_jack.Driver.Device.{Device, get_zero_time_stamp, update_clock_estimate}
use reac_jack.Driver.Operation.{read_input}
use reac_jack.Driver.Sizes.{
  Fits, RoomFor, get_property_data-Fits, get_property_data_delivers, size_given,
}
use reac_jack.Driver.Settable.{set_property_data-get_property_data}
use reac_jack.Driver.Lifecycle.{Call, IsValid, RateBounds, io, run, run-IsValid, stamp, start, stop}
use reac_jack.Driver.Timeline.{IsRunning, get_zero_time_stamp_monotone, host_time}
use reac_jack.Driver.Counts.{Reference, drop, query}
use reac_jack.Ring.{Header, Ring}
use reac_jack.Ring.Valid

abbrev sdk : Sdk
sdk = record {
  size_of_string_ref = 8;
  size_of_value_range = 16;
  size_of_stream_description = 40;
  size_of_ranged_description = 56;
  channel_layout_header = 12;
  size_of_channel_description = 20;
  object_class_id = 1;
  plug_in_class_id = 2;
  device_class_id = 3;
  stream_class_id = 4;
  transport_type_virtual = 5;
  terminal_type_line = 6;
  layout_tag_use_descriptions = 7;
  label_discrete_0 = 65536;
  format_linear_pcm = 8;
  flags_native_float_packed = 9;
}

abbrev header : Header
header = record {
  magic = 0x524a5341;
  abi_version = 3;
  header_bytes = 112;
  sample_rate = 48000;
  channels = 2;
  capacity_frames = 8;
  write_pos = 12;
  read_pos = 5;
  underruns = 0;
  overruns = 0;
  dropped_packets = 0;
  resets = 0;
  inserted_frames = 0;
  dropped_frames = 0;
  clock_seq = 0;
  clock_host_time = 0;
  clock_sample_pos = 0;
}

abbrev ring : Ring ℕ
ring = record { header = header; samples = λ i. 100 + i }

ring-RingIsValid : Valid.IsValid ring
ring-RingIsValid = omega arith

-- Initialised, and started by nobody; 20833 ticks a frame.
abbrev idle : Device decimal ℕ
idle = record {
  running = 0;
  ticks_per_frame = 20833000000;
  anchor_host = 0;
  anchor_sample = 0;
  last_host = 0;
  last_sample = 0;
  seed = 1;
  slaved = 0;
  ref_valid = false;
  ref_host = 0;
  ref_pos = 0;
  ring = none;
}

abbrev started : Device decimal ℕ
started = record idle { running = 1; slaved = 20833000000; ring = some ring }

abbrev plug : PlugIn decimal ℕ
plug = record { ref_count = 1; host = none; ticks_per_frame = 0 }

abbrev layout_address : Option Address
layout_address = some (record { selector = preferred_channel_layout; scope = input })

abbrev rate_address : Address
rate_address = record { selector = nominal_sample_rate; scope = global }

abbrev own_rate : Given decimal sdk
own_rate = record { as_rate = decimal.of_nat 48000; as_format = device_stream_format decimal sdk }

abbrev calls : List (Call ℕ)
calls =
    start 1000 (some ring)
    ∷ stamp (some (1000, 0)) 200000000
    ∷ start 2000 none
    ∷ io read_input (some (λ i. 9)) 2
    ∷ stamp (some (500000000, 24000)) 900000000
    ∷ stop
    ∷ []

abbrev released_twice : List Reference
released_twice =
    query (some (record { is_unknown = false; is_driver = true })) ∷ drop ∷ drop ∷ drop ∷ []

get_property_data-Fits_example :
    Fits sdk 1000
      (get_property_data_size sdk true device layout_address true)
      (get_property_data decimal sdk 0 true device layout_address 0 none 1000 true)
get_property_data-Fits_example =
    get_property_data-Fits decimal sdk 0 true device layout_address 0 none 1000 true

get_property_data_delivers_example :
    size_given (
      get_property_data decimal sdk 0 true device layout_address sdk.size_of_string_ref
        (some none)
        812
        true)
    ≡ get_property_data_size sdk true device layout_address true
unfolding get_property_data_size device_property_size
get_property_data_delivers_example =
    get_property_data_delivers decimal sdk 0 true device layout_address none 812 room
  where
    room : RoomFor (get_property_data_size sdk true device layout_address true) 812
    room = omega arith

set_property_data-get_property_data_example :
    set_property_data decimal sdk true device (some rate_address) 8 (some own_rate) ≡ ok tt
unfolding get_property_data device_property_data
set_property_data-get_property_data_example =
    set_property_data-get_property_data decimal sdk 0 device rate_address 0 none 16 8
      (float (decimal.of_nat 48000)) own_rate refl refl given refl
  where
    given :
        get_property_data decimal sdk 0 true device (some rate_address) 0 none 16 true
        ≡ ok (8, some (float (decimal.of_nat 48000)))
    given = refl

bounds : RateBounds decimal 20833000000
bounds = record { low_refl = refl; high_refl = refl; ordered = refl; above = refl; below = refl }

idle-IsValid : IsValid idle
idle-IsValid = record { closed = λ h. refl; rate = λ h. absurd (h refl); anchored = omega arith }

run-IsValid_example : IsValid (run 0 calls idle)
run-IsValid_example = run-IsValid 0 calls idle bounds idle-IsValid

get_zero_time_stamp_monotone_example :
    let (first, d1) = get_zero_time_stamp started true device true none 200000000 in
    let (second, d2) =
      get_zero_time_stamp (run 0 (stamp none 300000000 ∷ []) d1) true device true none 100 in
    host_time first ≤ host_time second
unfolding get_zero_time_stamp update_clock_estimate
get_zero_time_stamp_monotone_example =
    get_zero_time_stamp_monotone 0 (stamp none 300000000 ∷ []) started none none 200000000 100
      running
  where
    running :
        IsRunning 0
          (stamp none 300000000 ∷ [])
          ((get_zero_time_stamp started true device true none 200000000).1)
    running = ground arith
