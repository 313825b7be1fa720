-- ===== src/Decode/Value.antt =====
-- src/reac_decode.c: the words and samples that are read off the bytes, as arithmetic.
use reac_jack.Common.{
  ℕ, ◌+◌, ◌-◌, ◌*◌, ◌^◌, ◌<◌, ◌≡◌, arith, bit_or, ltb, if◌then◌else◌, ℤ, pos, negsuc, Buffer,
}
use reac_jack.Common.Bit.{or_high_low, or_low_high, and_bit}
use reac_jack.Decode.{Float, read_be16, read_le16, sign_extend_24, sample_1, sample_2}

-- Two's complement of 24 bits, and the fraction that a 24-bit sample stands for.
abbrev pub signed24 : ℕ → ℤ
signed24 w = if ltb w (2 ^ 23) then pos w else negsuc (2 ^ 24 - w - 1)

abbrev pub fraction24 : ℕ → Float
fraction24 w = record { numerator = signed24 w; denominator = 2 ^ 23 }

abbrev pub IsBytes : Buffer ℕ → Type 0
IsBytes p = (i : ℕ) → p i < 256

pub read_be16_lem : (p : Buffer ℕ) → IsBytes p → read_be16 p ≡ p 0 * 256 + p 1
unfolding read_be16
read_be16_lem p h = ground (arith, h 0, h 1, or_high_low 8 (p 0) (p 1))

pub read_le16_lem : (p : Buffer ℕ) → IsBytes p → read_le16 p ≡ p 0 + p 1 * 256
unfolding read_le16
read_le16_lem p h = ground (arith, h 0, h 1, or_low_high 8 (p 1) (p 0))

-- `sign_extend_24` reads 24 bits as a two's complement number.
pub sign_extend_24_lem : (w : ℕ) → w < 2 ^ 24 → sign_extend_24 w ≡ signed24 w
unfolding sign_extend_24
sign_extend_24_lem w h = ground (arith, and_bit 23 w, or_low_high 24 255 w)

three_bytes :
    (a b c : ℕ)
    → a < 256
    → b < 256
    → bit_or (bit_or a (b * 2 ^ 8)) (c * 2 ^ 16) ≡ a + b * 256 + c * 65536
three_bytes a b c ha hb = ground (arith, or_low_high 8 b a, or_low_high 16 c (b * 2 ^ 8 + a))

-- The byte order of a pair of samples on the wire.
pub sample_1_lem :
    (p : Buffer ℕ) (at : ℕ)
    → IsBytes p
    → sample_1 p at ≡ fraction24 (p (at + 3) + p (at + 0) * 256 + p (at + 1) * 65536)
unfolding sample_1
sample_1_lem p at h = ground (
  arith,
  h (at + 0),
  h (at + 1),
  h (at + 3),
  three_bytes (p (at + 3)) (p (at + 0)) (p (at + 1)),
  sign_extend_24_lem (p (at + 3) + p (at + 0) * 256 + p (at + 1) * 65536),
)

pub sample_2_lem :
    (p : Buffer ℕ) (at : ℕ)
    → IsBytes p
    → sample_2 p at ≡ fraction24 (p (at + 4) + p (at + 5) * 256 + p (at + 2) * 65536)
unfolding sample_2
sample_2_lem p at h = ground (
  arith,
  h (at + 2),
  h (at + 4),
  h (at + 5),
  three_bytes (p (at + 4)) (p (at + 5)) (p (at + 2)),
  sign_extend_24_lem (p (at + 4) + p (at + 5) * 256 + p (at + 2) * 65536),
)
