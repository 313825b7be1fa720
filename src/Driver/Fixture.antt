-- ===== src/Driver/Fixture.antt =====
-- Numbers of millionths as the operations of Float64, for the tests.
use reac_jack.Common.{leb, ltb, ℕ, ◌*◌, ◌+◌, ◌-◌, ◌/◌, ◌==◌, ◌^◌}
use reac_jack.Driver.Float64.{Float64}

abbrev pub decimal : Float64
decimal = record {
  F = ℕ;
  of_nat = λ n. n * 1000000;
  to_nat = λ x. x / 1000000;
  fadd = λ x y. x + y;
  fsub = λ x y. x - y;
  fmul = λ x y. x * y / 1000000;
  fdiv = λ x y. x * 1000000 / y;
  fabs = λ x. x;
  flt = ltb;
  fle = leb;
  feq = λ x y. x == y;
  literal = λ digits places. digits * 1000000 / 10 ^ places;
}
