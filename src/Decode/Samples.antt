-- ===== src/Decode/Samples.antt =====
-- src/reac_decode.c: what `reac_decode_samples_to_channels` returns and writes.
use native.Mathlib.Nat.{sub-zero}
use reac_jack.Common.{
  ℕ, zero, suc, ◌+◌, ◌*◌, ◌/◌, ◌%◌, ◌≤◌, ◌<◌, ◌≡◌, ◌≢◌, refl, arith, false, ◌&&◌, Option, none,
  some, ltb, ◌==◌, if◌then◌else◌, Buffer,
}
use reac_jack.Decode.{
  Float, Outputs, ok, max_channels, payload_bytes_for, is_null, any_null, decode_frames,
  decode_samples,
}
use reac_jack.Decode.Value.{IsBytes, fraction24, sample_1_lem, sample_2_lem}
use reac_jack.Decode.Fill.{cell, filled, sample_of, pair_at, cell-decode_frames}

-- Even, at least 2 and at most 40.
pub record IsSupported (channels : ℕ) : Type 0 where
  pub positive : 0 < channels
  pub at_most : channels ≤ max_channels
  pub even : channels % 2 ≡ 0

-- The first `channels` output pointers are not null.
abbrev pub HasArrays : Outputs → ℕ → Type 0
HasArrays outs channels = (c : ℕ) → c < channels → is_null (outs c) ≡ false

-- The sample of channel `c` in frame `f`. Frames follow one another, and in a frame the pairs of
-- channels, six bytes each: low, middle and high byte of the even channel at 3, 0, 1, of the odd
-- one at 4, 5, 2.
abbrev pub wire_sample : Buffer ℕ → ℕ → ℕ → ℕ → Float
wire_sample bytes channels c f =
    let at = (f * (channels / 2) + c / 2) * 6 in
    if c % 2 == 0
    then fraction24 (bytes (at + 3) + bytes (at + 0) * 256 + bytes (at + 1) * 65536)
    else fraction24 (bytes (at + 4) + bytes (at + 5) * 256 + bytes (at + 2) * 65536)

pub any_null-eq-false :
    (outs : Outputs) (left ch : ℕ)
    → ((c : ℕ) → ch ≤ c → c < ch + left → is_null (outs c) ≡ false)
    → any_null outs left ch ≡ false
unfolding any_null
any_null-eq-false outs zero ch h = refl
any_null-eq-false outs (suc left) ch h =
    ground
      (arith, h ch, any_null-eq-false outs left (ch + 1) (λ c p q. h c (omega arith) (omega arith)))

filled_not_null :
    (outs : Outputs) (c : ℕ) (v : Float) → is_null (outs c) ≡ false → filled outs c v ≡ some v
filled_not_null outs c v h = ground arith

pair_at_row :
    (channels c f : ℕ)
    → channels % 2 ≡ 0
    → pair_at channels 0 0 c f ≡ (f * (channels / 2) + c / 2) * 6
pair_at_row channels c f even =
    let half : (channels + 1) / 2 ≡ channels / 2 = omega arith in rw (half, sub-zero) (omega arith)

sample_of-wire :
    (bytes : Buffer ℕ) (channels c f : ℕ)
    → IsBytes bytes
    → channels % 2 ≡ 0
    → sample_of bytes (pair_at channels 0 0 c f) c ≡ wire_sample bytes channels c f
sample_of-wire bytes channels c f h even = rw (pair_at_row channels c f even) (
    ground (
      arith,
      sample_1_lem bytes ((f * (channels / 2) + c / 2) * 6) h,
      sample_2_lem bytes ((f * (channels / 2) + c / 2) * 6) h,
    ))

-- What a successful call has done to the arrays.
pub record IsDecoded (bytes : Buffer ℕ) (channels frames : ℕ) (before after : Outputs)
    : Type 0 where
  pub inside :
      (c f : ℕ) → c < channels → f < frames → cell after c f ≡ some (wire_sample bytes channels c f)
  pub outside :
      (c f : ℕ) → (ltb c channels && ltb f frames) ≡ false → cell after c f ≡ cell before c f

decode_frames-IsDecoded :
    (bytes : Buffer ℕ) (channels frames : ℕ) (outs : Outputs)
    → IsBytes bytes
    → IsSupported channels
    → HasArrays outs channels
    → IsDecoded bytes channels frames outs (decode_frames bytes channels frames 0 0 outs)
decode_frames-IsDecoded bytes channels frames outs h s arrays = record {
  inside = λ c f p q. ground (
    arith,
    cell-decode_frames bytes channels frames 0 0 outs c f s.even,
    filled_not_null outs c (sample_of bytes (pair_at channels 0 0 c f) c) (arrays c p),
    sample_of-wire bytes channels c f h s.even,
  );
  outside = λ c f p. ground (arith, cell-decode_frames bytes channels frames 0 0 outs c f s.even);
}

-- On a supported channel count, a sample size that fits and arrays for all channels, decoding
-- returns OK; then every frame of every channel holds the two's complement fraction of its three
-- bytes on the wire, and nothing outside these channels and frames has changed.
pub decode_samples_ok :
    (bytes : Buffer ℕ) (sample_bytes channels frames : ℕ) (outs : Outputs)
    → IsBytes bytes
    → IsSupported channels
    → sample_bytes ≡ payload_bytes_for channels frames
    → HasArrays outs channels
    → (after : Outputs) × (decode_samples (some bytes) sample_bytes channels frames (some outs)
        ≡ (ok, some after))
      × IsDecoded bytes channels frames outs after
unfolding decode_samples
decode_samples_ok bytes sample_bytes channels frames outs h s e arrays = (
  decode_frames bytes channels frames 0 0 outs,
  ground (arith, any_null-eq-false outs channels 0 (λ c p q. arrays c (omega arith))),
  decode_frames-IsDecoded bytes channels frames outs h s arrays,
)

-- A call that fails leaves every array as it was.
pub decode_samples_error :
    (bytes : Option (Buffer ℕ)) (sample_bytes channels frames : ℕ) (outs : Option Outputs)
    → (decode_samples bytes sample_bytes channels frames outs).0 ≢ ok
    → (decode_samples bytes sample_bytes channels frames outs).1 ≡ outs
unfolding decode_samples
decode_samples_error none sample_bytes channels frames outs h = refl
decode_samples_error (some bytes) sample_bytes channels frames none h = refl
decode_samples_error (some bytes) sample_bytes channels frames (some outs) h = ground arith
