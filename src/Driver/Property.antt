-- ===== src/Driver/Property.antt =====
-- src/coreaudio/ReacJackDriver.c: which properties the three objects have, and their sizes.
use reac_jack.Common.{Bool, Option, false, if◌then◌else◌, none, some, true, ℕ, ◌*◌}
use reac_jack.Driver.{
  Address, ObjectId, Outcome, Scope, Sdk, Selector, available_nominal_sample_rates,
  available_physical_formats, available_virtual_formats, bad_object, base_class,
  can_be_default_device, can_be_default_system_device, channel_layout_size, class, clock_domain,
  control_list, device, device_is_alive, device_is_running, device_list, device_uid, direction,
  error, global, input, is_active, is_hidden, latency, manufacturer, model_uid, name,
  nominal_sample_rate, ok, output, owned_objects, owner, physical_format, plug_in,
  preferred_channel_layout, preferred_channels_for_stereo, related_devices, resource_bundle,
  safety_offset, size_of_float64, size_of_uint32, starting_channel, stream_input, streams,
  terminal_type, translate_uid_to_device, transport_type, unknown_property, virtual_format,
  zero_time_stamp_period,
}

-- `plugin_has_property`
unfoldable pub plugin_has_property : Selector → Bool
plugin_has_property base_class = true
plugin_has_property class = true
plugin_has_property owner = true
plugin_has_property manufacturer = true
plugin_has_property owned_objects = true
plugin_has_property device_list = true
plugin_has_property translate_uid_to_device = true
plugin_has_property resource_bundle = true
plugin_has_property _ = false

-- `scope == kAudioObjectPropertyScopeInput || scope == kAudioObjectPropertyScopeGlobal`
abbrev pub is_input_or_global : Scope → Bool
is_input_or_global input = true
is_input_or_global global = true
is_input_or_global _ = false

-- `device_has_property`
unfoldable pub device_has_property : Selector → Scope → Bool
device_has_property base_class scope = true
device_has_property class scope = true
device_has_property owner scope = true
device_has_property name scope = true
device_has_property manufacturer scope = true
device_has_property owned_objects scope = true
device_has_property control_list scope = true
device_has_property device_uid scope = true
device_has_property model_uid scope = true
device_has_property transport_type scope = true
device_has_property related_devices scope = true
device_has_property clock_domain scope = true
device_has_property device_is_alive scope = true
device_has_property device_is_running scope = true
device_has_property can_be_default_device scope = true
device_has_property can_be_default_system_device scope = true
device_has_property latency scope = true
device_has_property streams scope = true
device_has_property safety_offset scope = true
device_has_property nominal_sample_rate scope = true
device_has_property available_nominal_sample_rates scope = true
device_has_property is_hidden scope = true
device_has_property zero_time_stamp_period scope = true
device_has_property preferred_channels_for_stereo scope = is_input_or_global scope
device_has_property preferred_channel_layout scope = is_input_or_global scope
device_has_property _ scope = false

-- `stream_has_property`
unfoldable pub stream_has_property : Selector → Bool
stream_has_property base_class = true
stream_has_property class = true
stream_has_property owner = true
stream_has_property is_active = true
stream_has_property direction = true
stream_has_property terminal_type = true
stream_has_property starting_channel = true
stream_has_property latency = true
stream_has_property virtual_format = true
stream_has_property physical_format = true
stream_has_property available_virtual_formats = true
stream_has_property available_physical_formats = true
stream_has_property _ = false

-- `ReacJack_HasProperty`; `own` says `inDriver == gDriverRef`, a null address is `none`.
unfoldable pub has_property : Bool → ObjectId → Option Address → Bool
unfolding plugin_has_property device_has_property stream_has_property
has_property false id address = false
has_property true id none = false
has_property true plug_in (some a) = plugin_has_property a.selector
has_property true device (some a) = device_has_property a.selector a.scope
has_property true stream_input (some a) = stream_has_property a.selector
has_property true _ (some a) = false

-- Whether `ReacJack_IsPropertySettable` ends in true on a property that the object has.
abbrev pub settable : ObjectId → Selector → Bool
settable device nominal_sample_rate = true
settable stream_input virtual_format = true
settable stream_input physical_format = true
settable id selector = false

-- `ReacJack_IsPropertySettable`; `given` says that the result's pointer is not null.
unfoldable pub is_property_settable : Bool → ObjectId → Option Address → Bool → Outcome Bool
unfolding has_property
is_property_settable false id address given = error bad_object
is_property_settable true id none given = error bad_object
is_property_settable true id (some a) false = error bad_object
is_property_settable true id (some a) true =
    if has_property true id (some a) then ok (settable id a.selector) else error unknown_property

module _ (sdk : Sdk) where
  -- `plugin_property_size`
  unfoldable pub plugin_property_size : Selector → Outcome ℕ
  plugin_property_size base_class = ok size_of_uint32
  plugin_property_size class = ok size_of_uint32
  plugin_property_size owner = ok size_of_uint32
  plugin_property_size manufacturer = ok sdk.size_of_string_ref
  plugin_property_size resource_bundle = ok sdk.size_of_string_ref
  plugin_property_size owned_objects = ok size_of_uint32
  plugin_property_size device_list = ok size_of_uint32
  plugin_property_size translate_uid_to_device = ok size_of_uint32
  plugin_property_size _ = error unknown_property

  -- `address->mScope == kAudioObjectPropertyScopeOutput ? 0 : sizeof(AudioObjectID)`
  abbrev pub streams_size : Scope → ℕ
  streams_size output = 0
  streams_size _ = size_of_uint32

  -- `device_property_size`
  unfoldable pub device_property_size : Selector → Scope → Outcome ℕ
  device_property_size base_class scope = ok size_of_uint32
  device_property_size class scope = ok size_of_uint32
  device_property_size owner scope = ok size_of_uint32
  device_property_size name scope = ok sdk.size_of_string_ref
  device_property_size manufacturer scope = ok sdk.size_of_string_ref
  device_property_size device_uid scope = ok sdk.size_of_string_ref
  device_property_size model_uid scope = ok sdk.size_of_string_ref
  device_property_size owned_objects scope = ok size_of_uint32
  device_property_size control_list scope = ok 0
  device_property_size transport_type scope = ok size_of_uint32
  device_property_size clock_domain scope = ok size_of_uint32
  device_property_size device_is_alive scope = ok size_of_uint32
  device_property_size device_is_running scope = ok size_of_uint32
  device_property_size can_be_default_device scope = ok size_of_uint32
  device_property_size can_be_default_system_device scope = ok size_of_uint32
  device_property_size latency scope = ok size_of_uint32
  device_property_size safety_offset scope = ok size_of_uint32
  device_property_size is_hidden scope = ok size_of_uint32
  device_property_size zero_time_stamp_period scope = ok size_of_uint32
  device_property_size related_devices scope = ok size_of_uint32
  device_property_size streams scope = ok (streams_size scope)
  device_property_size nominal_sample_rate scope = ok size_of_float64
  device_property_size available_nominal_sample_rates scope = ok sdk.size_of_value_range
  device_property_size preferred_channels_for_stereo scope = ok (2 * size_of_uint32)
  device_property_size preferred_channel_layout scope = ok (channel_layout_size sdk)
  device_property_size _ scope = error unknown_property

  -- `stream_property_size`
  unfoldable pub stream_property_size : Selector → Outcome ℕ
  stream_property_size base_class = ok size_of_uint32
  stream_property_size class = ok size_of_uint32
  stream_property_size owner = ok size_of_uint32
  stream_property_size is_active = ok size_of_uint32
  stream_property_size direction = ok size_of_uint32
  stream_property_size terminal_type = ok size_of_uint32
  stream_property_size starting_channel = ok size_of_uint32
  stream_property_size latency = ok size_of_uint32
  stream_property_size virtual_format = ok sdk.size_of_stream_description
  stream_property_size physical_format = ok sdk.size_of_stream_description
  stream_property_size available_virtual_formats = ok sdk.size_of_ranged_description
  stream_property_size available_physical_formats = ok sdk.size_of_ranged_description
  stream_property_size _ = error unknown_property

  -- `ReacJack_GetPropertyDataSize`
  unfoldable pub get_property_data_size : Bool → ObjectId → Option Address → Bool → Outcome ℕ
  unfolding plugin_property_size device_property_size stream_property_size
  get_property_data_size false id address given = error bad_object
  get_property_data_size true id none given = error bad_object
  get_property_data_size true id (some a) false = error bad_object
  get_property_data_size true plug_in (some a) true = plugin_property_size a.selector
  get_property_data_size true device (some a) true = device_property_size a.selector a.scope
  get_property_data_size true stream_input (some a) true = stream_property_size a.selector
  get_property_data_size true _ (some a) true = error bad_object
