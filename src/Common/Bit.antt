-- ===== src/Common/Bit.antt =====
-- `|` of disjoint fields, and `&` with one bit, as arithmetic.
use Prim.Native.Nat.{
  ℕ, zero, suc, ◌+◌, ◌-◌, ◌*◌, ◌/◌, ◌%◌, ◌^◌, ◌≤◌, ◌<◌, min, max, bit_and, bit_or, digits, bitwise,
  bit_and-bitwise, bit_or-bitwise,
}
use mathlib.Core.Path.{◌≡◌, refl, ap}
use native.Mathlib.Nat.{pow-suc, one-le-pow, div-div-eq-div-mul, mul_comm}
use native.Mathlib.Omega.{arith}

-- One digit of a bitwise operation, and the rest: the fuel of `digits` is more than enough.
module _ (z : ℕ → ℕ) (f : ℕ → ℕ → ℕ) where
  digits_any_fuel : (k l a b : ℕ) → a ≤ k → a ≤ l → digits z f k a b ≡ digits z f l a b
  digits_any_fuel zero l (suc a) b p q = absurd (omega arith)
  digits_any_fuel (suc k) zero (suc a) b p q = absurd (omega arith)
  digits_any_fuel zero zero zero b p q = refl
  digits_any_fuel zero (suc l) zero b p q = refl
  digits_any_fuel (suc k) zero zero b p q = refl
  digits_any_fuel (suc k) (suc l) zero b p q = refl
  digits_any_fuel (suc k) (suc l) (suc a) b p q =
      ap (λ (t : ℕ). t * 2 + f (suc a % 2) (b % 2))
        (digits_any_fuel k l (suc a / 2) (b / 2) (omega arith) (omega arith))

  bitwise_digit :
      (a b : ℕ)
      → bitwise z f (suc a) b ≡ bitwise z f (suc a / 2) (b / 2) * 2 + f (suc a % 2) (b % 2)
  bitwise_digit a b =
      ap (λ (t : ℕ). t * 2 + f (suc a % 2) (b % 2))
        (digits_any_fuel a (suc a / 2) (suc a / 2) (b / 2) (omega arith) (omega arith))

or_digit : (a b : ℕ) → bit_or a b ≡ bit_or (a / 2) (b / 2) * 2 + max (a % 2) (b % 2)
or_digit zero b = simp bit_or-bitwise (omega arith)
or_digit (suc a) b = simp bit_or-bitwise (bitwise_digit (λ y. y) max a b)

and_digit : (a b : ℕ) → bit_and a b ≡ bit_and (a / 2) (b / 2) * 2 + min (a % 2) (b % 2)
and_digit zero b = simp bit_and-bitwise (omega arith)
and_digit (suc a) b = simp bit_and-bitwise (bitwise_digit (λ y. 0) min a b)

zero-bit_or : (b : ℕ) → bit_or 0 b ≡ b
zero-bit_or b = bit_or-bitwise 0 b

or_fuel : (k a : ℕ) → a ≤ k → bit_or a 0 ≡ a
or_fuel k zero h = zero-bit_or 0
or_fuel zero (suc a) h = absurd (omega arith)
or_fuel (suc k) (suc a) h = omega (arith, or_digit (suc a) 0, or_fuel k (suc a / 2) (omega arith))

and_fuel : (k a : ℕ) → a ≤ k → bit_and a 0 ≡ 0
and_fuel k zero h = bit_and-bitwise 0 0
and_fuel zero (suc a) h = absurd (omega arith)
and_fuel (suc k) (suc a) h =
    omega (arith, and_digit (suc a) 0, and_fuel k (suc a / 2) (omega arith))

double_field : (q k : ℕ) → q * 2 ^ suc k ≡ 2 * (q * 2 ^ k)
double_field q k = omega (arith, ap (λ (t : ℕ). q * t) (pow-suc 2 k))

-- `(q << k) | r` and `r | (q << k)` are sums when `r` fits `k` bits.
pub or_high_low : (k q r : ℕ) → r < 2 ^ k → bit_or (q * 2 ^ k) r ≡ q * 2 ^ k + r
or_high_low zero q r h = ground (arith, or_fuel q q)
or_high_low (suc k) q r h =
    ground
      (arith, or_digit (q * 2 ^ suc k) r, double_field q k, pow-suc 2 k, or_high_low k q (r / 2))

pub or_low_high : (k q r : ℕ) → r < 2 ^ k → bit_or r (q * 2 ^ k) ≡ q * 2 ^ k + r
or_low_high zero q r h = ground (arith, zero-bit_or q)
or_low_high (suc k) q r h =
    ground
      (arith, or_digit r (q * 2 ^ suc k), double_field q k, pow-suc 2 k, or_low_high k q (r / 2))

-- `a & (1 << k)` keeps that bit alone.
pub and_bit : (k a : ℕ) → bit_and a (2 ^ k) ≡ a / 2 ^ k % 2 * 2 ^ k
and_bit zero a = ground (arith, and_digit a 1, and_fuel (a / 2) (a / 2))
and_bit (suc k) a = ground (
  arith,
  and_digit a (2 ^ suc k),
  pow-suc 2 k,
  and_bit k (a / 2),
  div-div-eq-div-mul a 2 (2 ^ k),
  ap (λ (t : ℕ). a / t) (mul_comm 2 (2 ^ k)),
  ap (λ (t : ℕ). a / 2 / 2 ^ k % 2 * t) (pow-suc 2 k),
)

low_fields : (k q r : ℕ) → r < 2 ^ k → bit_and (q * 2 ^ k + r) (2 ^ k - 1) ≡ r
low_fields zero q r h = ground (arith, and_fuel (q * 1 + r) (q * 1 + r))
low_fields (suc k) q r h = ground (
  arith,
  and_digit (q * 2 ^ suc k + r) (2 ^ suc k - 1),
  double_field q k,
  pow-suc 2 k,
  low_fields k q (r / 2),
)

-- `a & ((1 << k) - 1)` is a remainder.
pub and_low : (k a : ℕ) → bit_and a (2 ^ k - 1) ≡ a % 2 ^ k
and_low k a = ground (arith, one-le-pow k 2, low_fields k (a / 2 ^ k) (a % 2 ^ k))
