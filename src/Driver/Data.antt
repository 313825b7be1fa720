-- ===== src/Driver/Data.antt =====
-- src/coreaudio/ReacJackDriver.c: what the three objects answer for a property. An answer is the
-- value of `*outDataSize` and what was written to the caller's buffer of `room` bytes, if anything.
use Prim.Native.String.{String}
use text.Mathlib.Text.{◌==◌ as str_eq}
use reac_jack.Common.{Bool, Option, false, if◌then◌else◌, ltb, none, some, true, ℕ, ◌!=◌, ◌*◌, ◌+◌}
use reac_jack.Driver.{
  Address, ObjectId, Outcome, Scope, Sdk, Selector, StreamDescription, Value,
  available_nominal_sample_rates, available_physical_formats, available_virtual_formats, bad_object,
  bad_property_size, base_class, bytes_per_frame, can_be_default_device,
  can_be_default_system_device, channel_count, channel_layout_size, class, clock_domain,
  control_list, description, device, device_is_alive, device_is_running, device_list, device_name,
  device_uid, direction, error, float, is_active, is_hidden, latency, layout, manufacturer,
  manufacturer_name, model_uid, model_uid_name, name, nominal_sample_rate, object, ok, output,
  owned_objects, owner, physical_format, plug_in, preferred_channel_layout,
  preferred_channels_for_stereo, range, ranged, related_devices, resource_bundle, ring_frames,
  safety_offset, sample_rate, size_of_float64, size_of_uint32, starting_channel, stereo,
  stream_input, streams, string, terminal_type, translate_uid_to_device, transport_type, uid_name,
  unknown_object, unknown_property, virtual_format, word, zero_time_stamp_period,
}
use reac_jack.Driver.Float64.{Float64}

module _ (R : Float64) (sdk : Sdk) where
  abbrev pub Answer : Type 0
  Answer = Outcome (ℕ × Option (Value R.F))

  -- `device_stream_format`
  abbrev pub device_stream_format : StreamDescription R.F
  device_stream_format = record {
    rate = R.of_nat sample_rate;
    format_id = sdk.format_linear_pcm;
    format_flags = sdk.flags_native_float_packed;
    bytes_per_packet = bytes_per_frame;
    frames_per_packet = 1;
    frame_bytes = bytes_per_frame;
    channels_per_frame = channel_count;
    bits_per_channel = 32;
  }

  -- `write_uint32`
  unfoldable pub write_uint32 : ℕ → ℕ → Answer
  write_uint32 room value =
      if ltb room size_of_uint32
      then error bad_property_size
      else ok (size_of_uint32, some (word value))

  -- `write_object_id`
  unfoldable pub write_object_id : ℕ → ObjectId → Answer
  write_object_id room value =
      if ltb room size_of_uint32
      then error bad_property_size
      else ok (size_of_uint32, some (object value))

  -- `write_string`; the copy that it makes is taken to succeed.
  unfoldable pub write_string : ℕ → String → Answer
  write_string room value =
      if ltb room sdk.size_of_string_ref
      then error bad_property_size
      else ok (sdk.size_of_string_ref, some (string value))

  -- A list of one object, empty where it finds no room.
  unfoldable pub write_list : ℕ → ObjectId → Answer
  unfolding write_object_id
  write_list room value =
      if ltb room size_of_uint32 then ok (0, none) else write_object_id room value

  -- The search of `kAudioPlugInPropertyTranslateUIDToDevice`.
  abbrev pub found_device : Option String → ObjectId
  found_device none = unknown_object
  found_device (some uid) = if str_eq uid uid_name then device else unknown_object

  unfoldable pub translate_uid : ℕ → Option (Option String) → ℕ → Answer
  unfolding write_object_id
  translate_uid qualifier_size none room = error bad_property_size
  translate_uid qualifier_size (some uid) room =
      if qualifier_size != sdk.size_of_string_ref
      then error bad_property_size
      else write_object_id room (found_device uid)

  -- `plugin_property_data`
  unfoldable pub plugin_property_data : Selector → ℕ → Option (Option String) → ℕ → Answer
  unfolding write_uint32 write_object_id write_string write_list translate_uid
  plugin_property_data base_class size uid room = write_uint32 room sdk.object_class_id
  plugin_property_data class size uid room = write_uint32 room sdk.plug_in_class_id
  plugin_property_data owner size uid room = write_object_id room unknown_object
  plugin_property_data manufacturer size uid room = write_string room manufacturer_name
  plugin_property_data resource_bundle size uid room = write_string room ""
  plugin_property_data owned_objects size uid room = write_list room device
  plugin_property_data device_list size uid room = write_list room device
  plugin_property_data translate_uid_to_device size uid room = translate_uid size uid room
  plugin_property_data _ size uid room = error unknown_property

  -- The answer to `kAudioDevicePropertyStreams`.
  unfoldable pub streams_data : Scope → ℕ → Answer
  unfolding write_list
  streams_data output room = ok (0, none)
  streams_data _ room = write_list room stream_input

  -- An answer of `size` bytes, refused or empty where it finds no room.
  abbrev pub write_sized : ℕ → ℕ → Value R.F → Answer
  write_sized room size value =
      if ltb room size then error bad_property_size else ok (size, some value)

  abbrev pub write_if_room : ℕ → ℕ → Value R.F → Answer
  write_if_room room size value = if ltb room size then ok (0, none) else ok (size, some value)

  -- The layout that the loop over the channels fills.
  abbrev pub channel_layout : Value R.F
  channel_layout =
      layout sdk.layout_tag_use_descriptions 0 channel_count
        (λ i. record { label = sdk.label_discrete_0 + i; flags = 0; coordinates = (0, 0, 0) })

  -- `device_property_data`, with the count of running clients
  unfoldable pub device_property_data : ℕ → Selector → Scope → ℕ → Answer
  unfolding write_uint32 write_object_id write_string streams_data
  device_property_data running base_class scope room = write_uint32 room sdk.object_class_id
  device_property_data running class scope room = write_uint32 room sdk.device_class_id
  device_property_data running owner scope room = write_object_id room plug_in
  device_property_data running name scope room = write_string room device_name
  device_property_data running manufacturer scope room = write_string room manufacturer_name
  device_property_data running device_uid scope room = write_string room uid_name
  device_property_data running model_uid scope room = write_string room model_uid_name
  device_property_data running owned_objects scope room = write_object_id room stream_input
  device_property_data running control_list scope room = ok (0, none)
  device_property_data running transport_type scope room =
      write_uint32 room sdk.transport_type_virtual
  device_property_data running related_devices scope room = write_object_id room device
  device_property_data running clock_domain scope room = write_uint32 room 0
  device_property_data running device_is_alive scope room = write_uint32 room 1
  device_property_data running device_is_running scope room =
      write_uint32 room (if ltb 0 running then 1 else 0)
  device_property_data running can_be_default_device scope room = write_uint32 room 1
  device_property_data running can_be_default_system_device scope room = write_uint32 room 0
  device_property_data running latency scope room = write_uint32 room 0
  device_property_data running safety_offset scope room = write_uint32 room 0
  device_property_data running is_hidden scope room = write_uint32 room 0
  device_property_data running zero_time_stamp_period scope room = write_uint32 room ring_frames
  device_property_data running streams scope room = streams_data scope room
  device_property_data running nominal_sample_rate scope room =
      write_sized room size_of_float64 (float (R.of_nat sample_rate))
  device_property_data running available_nominal_sample_rates scope room =
      write_if_room room sdk.size_of_value_range
        (range (R.of_nat sample_rate) (R.of_nat sample_rate))
  device_property_data running preferred_channels_for_stereo scope room =
      write_sized room (2 * size_of_uint32) (stereo 1 2)
  device_property_data running preferred_channel_layout scope room =
      write_sized room (channel_layout_size sdk) channel_layout
  device_property_data running _ scope room = error unknown_property

  -- `stream_property_data`
  unfoldable pub stream_property_data : Selector → ℕ → Answer
  unfolding write_uint32 write_object_id
  stream_property_data base_class room = write_uint32 room sdk.object_class_id
  stream_property_data class room = write_uint32 room sdk.stream_class_id
  stream_property_data owner room = write_object_id room device
  stream_property_data is_active room = write_uint32 room 1
  stream_property_data direction room = write_uint32 room 1
  stream_property_data terminal_type room = write_uint32 room sdk.terminal_type_line
  stream_property_data starting_channel room = write_uint32 room 1
  stream_property_data latency room = write_uint32 room 0
  stream_property_data virtual_format room =
      write_sized room sdk.size_of_stream_description (description device_stream_format)
  stream_property_data physical_format room =
      write_sized room sdk.size_of_stream_description (description device_stream_format)
  stream_property_data available_virtual_formats room =
      write_if_room room sdk.size_of_ranged_description
        (ranged device_stream_format (R.of_nat sample_rate) (R.of_nat sample_rate))
  stream_property_data available_physical_formats room =
      write_if_room room sdk.size_of_ranged_description
        (ranged device_stream_format (R.of_nat sample_rate) (R.of_nat sample_rate))
  stream_property_data _ room = error unknown_property

  -- `ReacJack_GetPropertyData`; `given` says that neither of the results' pointers is null.
  unfoldable pub get_property_data :
      ℕ → Bool → ObjectId → Option Address → ℕ → Option (Option String) → ℕ → Bool → Answer
  unfolding plugin_property_data device_property_data stream_property_data
  get_property_data running false id address size uid room given = error bad_object
  get_property_data running true id none size uid room given = error bad_object
  get_property_data running true id (some a) size uid room false = error bad_object
  get_property_data running true plug_in (some a) size uid room true =
      plugin_property_data a.selector size uid room
  get_property_data running true device (some a) size uid room true =
      device_property_data running a.selector a.scope room
  get_property_data running true stream_input (some a) size uid room true =
      stream_property_data a.selector room
  get_property_data running true _ (some a) size uid room true = error bad_object
