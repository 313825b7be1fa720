-- ===== src/Driver/Sizes.antt =====
-- src/coreaudio/ReacJackDriver.c: the three property tables, of what an object has, of sizes and of
-- data, tell the host the same.
use reac_jack.Common.{
  Bool, Option, arith, false, none, not, refl, some, true, ℕ, ◌&&◌, ◌*◌, ◌+◌, ◌<◌, ◌≡◌, ◌≤◌, ◌⊎◌,
}
use reac_jack.Driver.{
  Address, ObjectId, Outcome, Scope, Sdk, Selector, Value, base_class, description, device, error,
  float, layout, object, ok, output, plug_in, preferred_channel_layout,
  preferred_channels_for_stereo, range, ranged, size_of_float64, size_of_uint32, stereo,
  stream_input, streams, string, translate_uid_to_device, word,
}
use reac_jack.Driver.Float64.{Float64}
use reac_jack.Driver.Property.{
  device_has_property, device_property_size, get_property_data_size, has_property,
  is_input_or_global, plugin_has_property, plugin_property_size, stream_has_property,
  stream_property_size, streams_size,
}
use reac_jack.Driver.Data.{
  device_property_data, get_property_data, plugin_property_data, stream_property_data, streams_data,
  translate_uid, write_list, write_object_id, write_string, write_uint32,
}
use Prim.Native.String.{String}

-- The bytes that a value takes in the caller's buffer.
abbrev pub bytes : {F : Type 0} → Sdk → Option (Value F) → ℕ
bytes sdk none = 0
bytes sdk (some (word n)) = size_of_uint32
bytes sdk (some (object id)) = size_of_uint32
bytes sdk (some (string s)) = sdk.size_of_string_ref
bytes sdk (some (float x)) = size_of_float64
bytes sdk (some (range x y)) = sdk.size_of_value_range
bytes sdk (some (stereo l r)) = 2 * size_of_uint32
bytes sdk (some (layout tag bitmap n channels)) =
    sdk.channel_layout_header + n * sdk.size_of_channel_description
bytes sdk (some (description f)) = sdk.size_of_stream_description
bytes sdk (some (ranged f x y)) = sdk.size_of_ranged_description

-- An answer in a buffer of `room` bytes where `announced` was said: what is written fits the
-- buffer, its size is the one given back, and it is the announced one unless nothing is written.
abbrev pub Fits : {F : Type 0} → Sdk → ℕ → Outcome ℕ → Outcome (ℕ × Option (Value F)) → Type 0
Fits sdk room announced (error s) = Unit {0}
Fits sdk room (error s) (ok answer) = ⊥
Fits sdk room (ok size) (ok (n, v)) =
    (n ≤ room) × (n ≡ bytes sdk v) × ((n ≡ size) ⊎ ((n ≡ 0) × (room < size)))

module _ (R : Float64) (sdk : Sdk) where
  plugin-Fits :
      (s : Selector) (size : ℕ) (uid : Option (Option String)) (room : ℕ)
      → Fits sdk room (plugin_property_size sdk s) (plugin_property_data R sdk s size uid room)
  unfolding plugin_property_size plugin_property_data translate_uid write_list write_uint32
      write_object_id write_string
  plugin-Fits base_class size uid room = ground arith
  plugin-Fits translate_uid_to_device size none room = ground arith
  plugin-Fits translate_uid_to_device size (some uid) room = ground arith
  plugin-Fits _ size uid room = ground arith

  streams-Fits :
      (scope : Scope) (room : ℕ)
      → Fits sdk room (ok (streams_size sdk scope)) (streams_data R sdk scope room)
  unfolding streams_data write_list write_object_id
  streams-Fits output room = ground arith
  streams-Fits _ room = ground arith

  device-Fits :
      (running : ℕ) (s : Selector) (scope : Scope) (room : ℕ)
      → Fits sdk room
          (device_property_size sdk s scope)
          (device_property_data R sdk running s scope room)
  unfolding device_property_size device_property_data write_uint32 write_object_id write_string
  device-Fits running base_class scope room = ground arith
  device-Fits running streams scope room = streams-Fits scope room
  device-Fits running _ scope room = ground arith

  stream-Fits :
      (s : Selector) (room : ℕ)
      → Fits sdk room (stream_property_size sdk s) (stream_property_data R sdk s room)
  unfolding stream_property_size stream_property_data write_uint32 write_object_id
  stream-Fits base_class room = ground arith
  stream-Fits _ room = ground arith

  -- Whatever `ReacJack_GetPropertyData` is asked: what it writes fits the caller's buffer, the
  -- size given back is that of what it writes, and it is the one that
  -- `ReacJack_GetPropertyDataSize` announces, unless the buffer is smaller and nothing is written.
  pub get_property_data-Fits :
      (running : ℕ) (own : Bool) (id : ObjectId) (address : Option Address) (size : ℕ)
      (uid : Option (Option String)) (room : ℕ) (given : Bool)
      → Fits sdk room
          (get_property_data_size sdk own id address true)
          (get_property_data R sdk running own id address size uid room given)
  unfolding get_property_data get_property_data_size
  get_property_data-Fits running false id address size uid room given = tt
  get_property_data-Fits running true id none size uid room given = tt
  get_property_data-Fits running true id (some a) size uid room false = tt
  get_property_data-Fits running true plug_in (some a) size uid room true =
      plugin-Fits a.selector size uid room
  get_property_data-Fits running true device (some a) size uid room true =
      device-Fits running a.selector a.scope room
  get_property_data-Fits running true stream_input (some a) size uid room true =
      stream-Fits a.selector room
  get_property_data-Fits running true _ (some a) size uid room true = tt

abbrev pub size_given : {A : Type 0} → Outcome (ℕ × A) → Outcome ℕ
size_given (ok (n, v)) = ok n
size_given (error s) = error s

-- Room for what is announced, if anything is.
abbrev pub RoomFor : Outcome ℕ → ℕ → Type 0
RoomFor (ok size) room = size ≤ room
RoomFor (error s) room = Unit {0}

abbrev pub is_ok : {A : Type 0} → Outcome A → Bool
is_ok (ok a) = true
is_ok (error s) = false

-- The properties that are kept from all scopes but two.
abbrev pub is_preferred : Selector → Bool
is_preferred preferred_channels_for_stereo = true
is_preferred preferred_channel_layout = true
is_preferred s = false

-- A device's preferred channels, asked for in a scope where it denies to have them.
abbrev pub hidden : ObjectId → Option Address → Bool
hidden device (some a) = is_preferred a.selector && not (is_input_or_global a.scope)
hidden id address = false

module _ (R : Float64) (sdk : Sdk) where
  plugin-size_given :
      (s : Selector) (uid : Option String) (room : ℕ)
      → RoomFor (plugin_property_size sdk s) room
      → size_given (plugin_property_data R sdk s sdk.size_of_string_ref (some uid) room)
        ≡ plugin_property_size sdk s
  unfolding plugin_property_size plugin_property_data translate_uid write_list write_uint32
      write_object_id write_string
  plugin-size_given base_class uid room h = ground arith
  plugin-size_given _ uid room h = ground arith

  streams-size_given :
      (scope : Scope) (room : ℕ)
      → streams_size sdk scope ≤ room
      → size_given (streams_data R sdk scope room) ≡ ok (streams_size sdk scope)
  unfolding streams_data write_list write_object_id
  streams-size_given output room h = ground arith
  streams-size_given _ room h = ground arith

  device-size_given :
      (running : ℕ) (s : Selector) (scope : Scope) (room : ℕ)
      → RoomFor (device_property_size sdk s scope) room
      → size_given (device_property_data R sdk running s scope room)
        ≡ device_property_size sdk s scope
  unfolding device_property_size device_property_data write_uint32 write_object_id write_string
  device-size_given running base_class scope room h = ground arith
  device-size_given running streams scope room h = streams-size_given scope room h
  device-size_given running _ scope room h = ground arith

  stream-size_given :
      (s : Selector) (room : ℕ)
      → RoomFor (stream_property_size sdk s) room
      → size_given (stream_property_data R sdk s room) ≡ stream_property_size sdk s
  unfolding stream_property_size stream_property_data write_uint32 write_object_id
  stream-size_given base_class room h = ground arith
  stream-size_given _ room h = ground arith

  -- With room for the announced size, and a qualifier of the right kind where one is read,
  -- `ReacJack_GetPropertyData` gives back exactly the size, or the error, of
  -- `ReacJack_GetPropertyDataSize`: what is announced is delivered.
  pub get_property_data_delivers :
      (running : ℕ) (own : Bool) (id : ObjectId) (address : Option Address) (uid : Option String)
      (room : ℕ)
      → RoomFor (get_property_data_size sdk own id address true) room
      → size_given (
          get_property_data R sdk running own id address sdk.size_of_string_ref
            (some uid)
            room
            true)
        ≡ get_property_data_size sdk own id address true
  unfolding get_property_data get_property_data_size
  get_property_data_delivers running false id address uid room h = refl
  get_property_data_delivers running true id none uid room h = refl
  get_property_data_delivers running true plug_in (some a) uid room h =
      plugin-size_given a.selector uid room h
  get_property_data_delivers running true device (some a) uid room h =
      device-size_given running a.selector a.scope room h
  get_property_data_delivers running true stream_input (some a) uid room h =
      stream-size_given a.selector room h
  get_property_data_delivers running true _ (some a) uid room h = refl

module _ (sdk : Sdk) where
  plugin_has_property-size :
      (s : Selector) → plugin_has_property s ≡ is_ok (plugin_property_size sdk s)
  unfolding plugin_has_property plugin_property_size
  plugin_has_property-size base_class = refl
  plugin_has_property-size _ = refl

  device_has_property-size :
      (s : Selector) (scope : Scope)
      → device_has_property s scope ≡ (
          is_ok (device_property_size sdk s scope)
          && not (is_preferred s && not (is_input_or_global scope)))
  unfolding device_has_property device_property_size
  device_has_property-size base_class scope = refl
  device_has_property-size preferred_channels_for_stereo scope = ground arith
  device_has_property-size preferred_channel_layout scope = ground arith
  device_has_property-size _ scope = refl

  stream_has_property-size :
      (s : Selector) → stream_has_property s ≡ is_ok (stream_property_size sdk s)
  unfolding stream_has_property stream_property_size
  stream_has_property-size base_class = refl
  stream_has_property-size _ = refl

  -- `ReacJack_HasProperty` says yes exactly where `ReacJack_GetPropertyDataSize` gives a size,
  -- except that the device denies its two preferred-channel properties outside the input and
  -- the global scope, while their sizes are given in every scope.
  pub has_property-size :
      (own : Bool) (id : ObjectId) (address : Option Address)
      → has_property own id address
        ≡ (is_ok (get_property_data_size sdk own id address true) && not (hidden id address))
  unfolding has_property get_property_data_size
  has_property-size false id address = refl
  has_property-size true id none = refl
  has_property-size true plug_in (some a) = ground (arith, plugin_has_property-size a.selector)
  has_property-size true device (some a) = device_has_property-size a.selector a.scope
  has_property-size true stream_input (some a) = ground (arith, stream_has_property-size a.selector)
  has_property-size true _ (some a) = refl
