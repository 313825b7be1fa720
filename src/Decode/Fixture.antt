-- ===== src/Decode/Fixture.antt =====
-- A silent sample, and a frame that holds a REAC packet of two channels, for the tests.
use reac_jack.Common.{Buffer, arith, if◌then◌else◌, pos, refl, ℕ, ◌%◌, ◌==◌}
use reac_jack.Decode.{Float, max_int24}
use reac_jack.Decode.Value.{IsBytes}
use reac_jack.Decode.Parse.{IsReacFrame}

abbrev pub quiet : Float
quiet = record { numerator = pos 0; denominator = max_int24 }

abbrev pub wire_frame : Buffer ℕ
wire_frame i =
    if i == 12
    then 0x88
    else if i == 13
    then 0x19
    else if i == 122
    then 0xc2
    else if i == 123
    then 0xea
    else i % 256

pub wire_frame-IsBytes : IsBytes wire_frame
wire_frame-IsBytes i = ground arith

pub wire_frame-IsReacFrame : IsReacFrame wire_frame 124 2
wire_frame-IsReacFrame = record {
  supported = record { positive = omega arith; at_most = omega arith; even = refl };
  length = refl;
  type_high = refl;
  type_low = refl;
  end_0 = refl;
  end_1 = refl;
}
