-- ===== src/Driver/Settable.antt =====
-- src/coreaudio/ReacJackDriver.c: which properties can be set, and to what.
use Prim.Native.String.{String}
use reac_jack.Common.{Bool, Option, arith, false, not, some, true, ℕ, ◌↔◌, ◌≡◌, ◌≢◌}
use reac_jack.Driver.{
  Address, ObjectId, Outcome, Sdk, Selector, Value, description, error, float, ok, sample_rate,
  unknown_object, unknown_property,
}
use reac_jack.Driver.Float64.{Float64}
use reac_jack.Driver.Data.{device_property_data, get_property_data, stream_property_data}
use reac_jack.Driver.Property.{
  device_has_property, has_property, is_property_settable, settable, stream_has_property,
}
use reac_jack.Driver.Set.{Given, set_property, set_property_data}

-- Whether the host's `SetPropertyData` is about a property that can be set at all.
abbrev pub is_unknown : Outcome (Unit {0}) → Bool
is_unknown (error unknown_property) = true
is_unknown result = false

module _ (R : Float64) (sdk : Sdk) where
  -- The caller's data are the bytes of a value.
  abbrev pub Holds : Value R.F → Given R sdk → Type 0
  Holds (float x) given = given.as_rate ≡ x
  Holds (description f) given = given.as_format ≡ f
  Holds v given = Unit {0}

  settable-has_property :
      (id : ObjectId) (a : Address)
      → settable id a.selector ≡ true
      → has_property true id (some a) ≡ true
  unfolding has_property device_has_property stream_has_property
  settable-has_property id a h = ground arith

  settable-set_property :
      (id : ObjectId) (s : Selector) (given : Given R sdk) (size : ℕ)
      → settable id s ≡ not (is_unknown (set_property R sdk id s given size))
  settable-set_property unknown_object s given size = ground arith
  settable-set_property _ s given size = ground arith

  -- `ReacJack_IsPropertySettable` answers yes exactly where `ReacJack_SetPropertyData` knows the
  -- property (it may then still refuse the size or the value), for every object and selector.
  pub is_property_settable_iff :
      (id : ObjectId) (a : Address) (given : Given R sdk) (size : ℕ)
      → (is_property_settable true id (some a) true ≡ ok true)
        ↔ (set_property_data R sdk true id (some a) size (some given) ≢ error unknown_property)
  unfolding is_property_settable set_property_data
  is_property_settable_iff id a given size =
      ground (arith, settable-has_property id a, settable-set_property id a.selector given size)

  -- A property that can be set accepts the value that `ReacJack_GetPropertyData` gives for it, at
  -- the size given with it. (The rate 48 kHz is taken to equal itself, which is false of a NaN
  -- alone.)
  pub set_property_data-get_property_data :
      (running : ℕ) (id : ObjectId) (a : Address) (qualifier : ℕ) (uid : Option (Option String))
      (room n : ℕ) (v : Value R.F) (given : Given R sdk)
      → settable id a.selector ≡ true
      → R.feq (R.of_nat sample_rate) (R.of_nat sample_rate) ≡ true
      → get_property_data R sdk running true id (some a) qualifier uid room true ≡ ok (n, some v)
      → Holds v given
      → set_property_data R sdk true id (some a) n (some given) ≡ ok tt
  unfolding get_property_data set_property_data device_property_data stream_property_data
  set_property_data-get_property_data running id a qualifier uid room n v given hs hr hg hv =
      ground arith
