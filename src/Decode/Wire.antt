-- ===== src/Decode/Wire.antt =====
-- What a REAC device sends, as tests/test_reac_decode.c builds it, and the round trip through the
-- decoder.
use native.Mathlib.Nat.{div-eq_of_lt, mul-add-div_right, mul-add-mod_self_right, mod-eq_of_lt}
use reac_jack.Common.{
  ℕ, ◌+◌, ◌*◌, ◌/◌, ◌%◌, ◌^◌, ◌<◌, ◌≡◌, refl, ap, ◌∙◌, arith, bit_and, some, ◌==◌, Bool-cases, inl,
  inr, if◌then◌else◌, u8, ◌>>>◌, ℤ, pos, negsuc, uint32_of, Buffer,
}
use reac_jack.Common.Bit.{and_low}
use reac_jack.Decode.{Float, Outputs, ok, sample24_to_float, payload_bytes_for, decode_samples}
use reac_jack.Decode.Value.{IsBytes, signed24}
use reac_jack.Decode.Samples.{IsSupported, HasArrays, wire_sample, decode_samples_ok}
use reac_jack.Decode.Fill.{cell}

-- A sample that 24 bits hold.
abbrev pub Fits24 : ℤ → Type 0
Fits24 (pos n) = n < 2 ^ 23
Fits24 (negsuc n) = n < 2 ^ 23

abbrev value24 : ℤ → ℕ
value24 sample = bit_and (uint32_of sample) 0xff_ffff

-- `put_reac_sample_pair`: the byte that it writes at `slot`, below 6.
unfoldable pub pair_byte : ℤ → ℤ → ℕ → ℕ
pair_byte sample_1 sample_2 slot =
    if slot == 0
    then u8 (bit_and (value24 sample_1 >>> 8) 0xff)
    else if slot == 1
    then u8 (bit_and (value24 sample_1 >>> 16) 0xff)
    else if slot == 2
    then u8 (bit_and (value24 sample_2 >>> 16) 0xff)
    else if slot == 3
    then u8 (bit_and (value24 sample_1) 0xff)
    else if slot == 4
    then u8 (bit_and (value24 sample_2) 0xff)
    else u8 (bit_and (value24 sample_2 >>> 8) 0xff)

-- The payload for the samples `sample frame channel`, pair after pair and frame after frame.
unfoldable pub payload : (ℕ → ℕ → ℤ) → ℕ → Buffer ℕ
payload sample channels i =
    let pair = i / 6 in
    let frame = pair / (channels / 2) in
    let ch = pair % (channels / 2) * 2 in
    pair_byte (sample frame ch) (sample frame (ch + 1)) (i % 6)

pair_byte-lt : (s t : ℤ) (slot : ℕ) → pair_byte s t slot < 256
unfolding pair_byte
pair_byte-lt s t slot = ground arith

pub payload-IsBytes : (sample : ℕ → ℕ → ℤ) (channels : ℕ) → IsBytes (payload sample channels)
unfolding payload
payload-IsBytes sample channels i = pair_byte-lt _ _ (i % 6)

split_index : (h f g : ℕ) → g < h → ((f * h + g) / h ≡ f) × ((f * h + g) % h ≡ g)
split_index h f g p = (
  ground (arith, mul-add-div_right {m = h} (omega arith) f g, div-eq_of_lt p),
  mul-add-mod_self_right f h g ∙ mod-eq_of_lt p,
)

payload_at :
    (sample : ℕ → ℕ → ℤ) (channels f g k : ℕ)
    → g < channels / 2
    → k < 6
    → payload sample channels ((f * (channels / 2) + g) * 6 + k)
      ≡ pair_byte (sample f (g * 2)) (sample f (g * 2 + 1)) k
unfolding payload
payload_at sample channels f g k p q =
    let h = channels / 2 in
    let pair : ((f * h + g) * 6 + k) / 6 ≡ f * h + g = omega arith in
    let slot : ((f * h + g) * 6 + k) % 6 ≡ k = omega arith in
    let (row, column) = split_index h f g p in rw (pair, slot, row, column)

signed24-value24 : (s : ℤ) → Fits24 s → signed24 (uint32_of s % 2 ^ 24) ≡ s
signed24-value24 (pos n) h = ground arith
signed24-value24 (negsuc n) h = ground arith

three_bytes_join :
    (v : ℕ)
    → v < 2 ^ 24
    → u8 (bit_and v 0xff) + u8 (bit_and (v >>> 8) 0xff) * 256 + u8 (bit_and (v >>> 16) 0xff) * 65536
      ≡ v
three_bytes_join v h = omega (arith, and_low 8 v, and_low 8 (v / 2 ^ 8), and_low 8 (v / 2 ^ 16))

value24-lt : (s : ℤ) → value24 s < 2 ^ 24
value24-lt s = omega (arith, and_low 24 (uint32_of s))

low_pair :
    (s t : ℤ)
    → Fits24 s
    → signed24 (pair_byte s t 3 + pair_byte s t 0 * 256 + pair_byte s t 1 * 65536) ≡ s
unfolding pair_byte
low_pair s t h =
    ap signed24 (three_bytes_join (value24 s) (value24-lt s) ∙ and_low 24 (uint32_of s))
    ∙ signed24-value24 s h

high_pair :
    (s t : ℤ)
    → Fits24 t
    → signed24 (pair_byte s t 4 + pair_byte s t 5 * 256 + pair_byte s t 2 * 65536) ≡ t
unfolding pair_byte
high_pair s t h =
    ap signed24 (three_bytes_join (value24 t) (value24-lt t) ∙ and_low 24 (uint32_of t))
    ∙ signed24-value24 t h

abbrev fraction : ℤ → Float
fraction v = record { numerator = v; denominator = 2 ^ 23 }

-- The samples of both halves of each pair come off the wire as they went on.
wire_sample-payload :
    (sample : ℕ → ℕ → ℤ) (channels c f : ℕ)
    → ((g d : ℕ) → Fits24 (sample g d))
    → IsSupported channels
    → c < channels
    → wire_sample (payload sample channels) channels c f ≡ sample24_to_float (sample f c)
unfolding sample24_to_float
wire_sample-payload sample channels c f h s p =
    let g = c / 2 in
    let at = payload_at sample channels f g in
    let inside : g < channels / 2 = omega arith in
    elim (Bool-cases (c % 2 == 0)) [
      | inl even ↦ rw even (
          rw (at 3 inside (omega arith), at 0 inside (omega arith), at 1 inside (omega arith))
            (ap fraction (
              low_pair (sample f (g * 2)) (sample f (g * 2 + 1)) (h f (g * 2))
              ∙ ap (sample f) (ground arith))))
      | inr odd ↦ rw odd (
          rw (at 4 inside (omega arith), at 5 inside (omega arith), at 2 inside (omega arith))
            (ap fraction (
              high_pair (sample f (g * 2)) (sample f (g * 2 + 1)) (h f (g * 2 + 1))
              ∙ ap (sample f) (ground arith))))
    ]

-- Decoding a payload that a device sent gives back the samples that went in: for every supported
-- channel count, any number of frames whose byte count fits `size_t`, and any 24-bit samples, the
-- call returns OK and `outputs[c][f]` is the fraction `sample f c / 2^23`.
pub decode_samples-payload :
    (sample : ℕ → ℕ → ℤ) (channels frames : ℕ) (outs : Outputs)
    → ((f c : ℕ) → Fits24 (sample f c))
    → IsSupported channels
    → HasArrays outs channels
    → (after : Outputs) × (decode_samples
          (some (payload sample channels))
          (payload_bytes_for channels frames)
          channels
          frames
          (some outs)
        ≡ (ok, some after))
      × ((c f : ℕ)
          → c < channels
          → f < frames
          → cell after c f ≡ some (sample24_to_float (sample f c)))
decode_samples-payload sample channels frames outs h s arrays =
    let (after, call, done) =
      decode_samples_ok (payload sample channels) (payload_bytes_for channels frames) channels
        frames outs (payload-IsBytes sample channels) s refl arrays in
    (
      after,
      call,
      λ c f p q. done.inside c f p q ∙ ap some (wire_sample-payload sample channels c f h s p),
    )
