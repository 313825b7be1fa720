-- ===== src/Driver.antt =====
-- src/coreaudio/ReacJackDriver.c: the CoreAudio plug-in. What its parts share: the statuses, the
-- objects and property addresses, and what the headers of the host's SDK give as numbers.
pub mod Float64
pub mod Property
pub mod Data
pub mod Set
pub mod Sizes
pub mod Glue
pub mod Device
pub mod Operation
pub mod Lifecycle
pub mod Timeline
pub mod Counts
pub mod Cycle
pub mod Fixture
mod Tests
pub mod Settable
use Prim.Native.String.{String}
use reac_jack.Common.{ℕ, ◌+◌, ◌*◌, Bool, Option}

-- The `OSStatus` values other than 0 that the plug-in returns.
pub data Status : Type 0 where
  bad_object unknown_property bad_property_size : Status
  unsupported_format illegal_operation unsupported_operation no_interface : Status

-- A call's outcome: status 0 with what it wrote, or an error.
pub data Outcome {ℓ} (A : Type ℓ) : Type ℓ where
  ok : A → Outcome A
  error : Status → Outcome A

-- `kObjectID_PlugIn`, `kObjectID_Device`, `kObjectID_Stream_Input`, and all other ids.
pub data ObjectId : Type 0 where
  unknown_object plug_in device stream_input : ObjectId
  other_object : ℕ → ObjectId

pub data Scope : Type 0 where
  global input output : Scope
  other_scope : ℕ → Scope

-- The selectors that the program names. The SDK gives `kAudioDevicePropertyLatency` and
-- `kAudioStreamPropertyLatency` one value.
pub data Selector : Type 0 where
  base_class class owner name manufacturer owned_objects control_list : Selector
  device_list translate_uid_to_device resource_bundle : Selector
  device_uid model_uid transport_type related_devices clock_domain device_is_alive : Selector
  device_is_running can_be_default_device can_be_default_system_device latency streams : Selector
  safety_offset nominal_sample_rate available_nominal_sample_rates is_hidden : Selector
  zero_time_stamp_period preferred_channels_for_stereo preferred_channel_layout : Selector
  is_active direction terminal_type starting_channel virtual_format physical_format : Selector
  available_virtual_formats available_physical_formats : Selector
  other_selector : ℕ → Selector

-- `AudioObjectPropertyAddress`; the plug-in does not read its element.
pub record Address : Type 0 where
  pub selector : Selector
  pub scope : Scope

-- Sizes and constants of the SDK's headers, which the program takes as they are.
pub record Sdk : Type 0 where
  pub size_of_string_ref : ℕ
  pub size_of_value_range : ℕ
  pub size_of_stream_description : ℕ
  pub size_of_ranged_description : ℕ
  pub channel_layout_header : ℕ
  pub size_of_channel_description : ℕ
  pub object_class_id : ℕ
  pub plug_in_class_id : ℕ
  pub device_class_id : ℕ
  pub stream_class_id : ℕ
  pub transport_type_virtual : ℕ
  pub terminal_type_line : ℕ
  pub layout_tag_use_descriptions : ℕ
  pub label_discrete_0 : ℕ
  pub format_linear_pcm : ℕ
  pub flags_native_float_packed : ℕ

-- `sizeof` of UInt32, and of AudioObjectID and AudioClassID, which are names of it.
abbrev pub size_of_uint32 : ℕ
size_of_uint32 = 4

abbrev pub size_of_float64 : ℕ
size_of_float64 = 8

abbrev pub channel_count : ℕ
channel_count = 40

-- `kDevice_ChannelCount * sizeof(Float32)`
abbrev pub bytes_per_frame : ℕ
bytes_per_frame = channel_count * 4

abbrev pub ring_frames : ℕ
ring_frames = 8192

abbrev pub target_fill : ℕ
target_fill = 4800

abbrev pub fill_tolerance : ℕ
fill_tolerance = 2400

abbrev pub min_observed_frames : ℕ
min_observed_frames = 24000

abbrev pub sample_rate : ℕ
sample_rate = 48000

abbrev pub device_name : String
device_name = "ReacJack REAC"

abbrev pub manufacturer_name : String
manufacturer_name = "ReacJack"

abbrev pub uid_name : String
uid_name = "ReacJackDevice_UID"

abbrev pub model_uid_name : String
model_uid_name = "ReacJackDevice_ModelUID"

abbrev pub ring_name : String
ring_name = "/reacjack-audio"

-- `AudioStreamBasicDescription`, its rate in a type of the caller's.
pub record StreamDescription (F : Type 0) : Type 0 where
  pub rate : F
  pub format_id : ℕ
  pub format_flags : ℕ
  pub bytes_per_packet : ℕ
  pub frames_per_packet : ℕ
  pub frame_bytes : ℕ
  pub channels_per_frame : ℕ
  pub bits_per_channel : ℕ

-- `AudioChannelDescription`
pub record ChannelDescription : Type 0 where
  pub label : ℕ
  pub flags : ℕ
  pub coordinates : ℕ × ℕ × ℕ

-- What a property's data may be.
pub data Value (F : Type 0) : Type 0 where
  word : ℕ → Value F
  object : ObjectId → Value F
  string : String → Value F
  float : F → Value F
  range : F → F → Value F
  stereo : ℕ → ℕ → Value F
  -- Tag, bitmap, number of descriptions, and those.
  layout : ℕ → ℕ → ℕ → (ℕ → ChannelDescription) → Value F
  description : StreamDescription F → Value F
  ranged : StreamDescription F → F → F → Value F

-- `channel_layout_size`
abbrev pub channel_layout_size : Sdk → ℕ
channel_layout_size sdk =
    sdk.channel_layout_header + channel_count * sdk.size_of_channel_description
