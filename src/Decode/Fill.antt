-- ===== src/Decode/Fill.antt =====
-- src/reac_decode.c: what the loops of `reac_decode_samples_to_channels` write, cell by cell.
use mathlib.Core.Option
use reac_jack.Common.{
  ℕ, zero, suc, ◌+◌, ◌-◌, ◌*◌, ◌/◌, ◌%◌, ◌<◌, ◌≡◌, refl, ◌∙◌, arith, ◌&&◌, Option, ltb, leb, ◌==◌,
  if◌then◌else◌, Buffer,
}
use reac_jack.Decode.{Float, Outputs, store, sample_1, sample_2, decode_pairs, decode_frames}

-- `outputs[c][f]`; a null pointer has no cells.
abbrev pub cell : Outputs → ℕ → ℕ → Option Float
cell outs c f = Option.map (λ (b : Buffer Float). b f) (outs c)

-- `v`, where channel `c` has an array.
abbrev pub filled : Outputs → ℕ → Float → Option Float
filled outs c v = Option.map (λ (b : Buffer Float). v) (outs c)

-- The sample of a pair at `at` that goes to channel `c`.
abbrev pub sample_of : Buffer ℕ → ℕ → ℕ → Float
sample_of bytes at c = if c % 2 == 0 then sample_1 bytes at else sample_2 bytes at

cell-store :
    (outs : Outputs) (ch frame : ℕ) (v : Float) (c f : ℕ)
    → cell (store outs ch frame v) c f
      ≡ (if c == ch && f == frame then filled outs c v else cell outs c f)
unfolding store
cell-store outs ch frame v c f = ground (arith, outs c)

filled-store :
    (outs : Outputs) (ch frame : ℕ) (v : Float) (c : ℕ) (w : Float)
    → filled (store outs ch frame v) c w ≡ filled outs c w
unfolding store
filled-store outs ch frame v c w = ground arith

pub decode_pairs-at :
    (bytes : Buffer ℕ) (frame left ch at : ℕ) (outs : Outputs)
    → (decode_pairs bytes frame left ch at outs).0 ≡ at + left * 6
unfolding decode_pairs
decode_pairs-at bytes frame zero ch at outs = omega arith
decode_pairs-at bytes frame (suc left) ch at outs =
    omega (arith, decode_pairs-at bytes frame left (ch + 2) (at + 6) _)

pub filled-decode_pairs :
    (bytes : Buffer ℕ) (frame left ch at : ℕ) (outs : Outputs) (c : ℕ) (w : Float)
    → filled (decode_pairs bytes frame left ch at outs).1 c w ≡ filled outs c w
unfolding decode_pairs
filled-decode_pairs bytes frame zero ch at outs c w = refl
filled-decode_pairs bytes frame (suc left) ch at outs c w =
    filled-decode_pairs bytes frame left (ch + 2) (at + 6) _ c w
    ∙ filled-store _ (ch + 1) frame (sample_2 bytes at) c w
    ∙ filled-store outs ch frame (sample_1 bytes at) c w

pub cell-decode_pairs :
    (bytes : Buffer ℕ) (frame left ch at : ℕ) (outs : Outputs) (c f : ℕ)
    → ch % 2 ≡ 0
    → cell (decode_pairs bytes frame left ch at outs).1 c f ≡ (
        if f == frame && (leb ch c && ltb c (ch + 2 * left))
        then filled outs c (sample_of bytes (at + (c - ch) / 2 * 6) c)
        else cell outs c f)
unfolding decode_pairs
cell-decode_pairs bytes frame zero ch at outs c f e = ground arith
cell-decode_pairs bytes frame (suc left) ch at outs c f e =
    let outs_1 = store outs ch frame (sample_1 bytes at) in
    let outs_2 = store outs_1 (ch + 1) frame (sample_2 bytes at) in
    ground (
      arith,
      cell-decode_pairs bytes frame left (ch + 2) (at + 6) outs_2 c f,
      cell-store outs_1 (ch + 1) frame (sample_2 bytes at) c f,
      cell-store outs ch frame (sample_1 bytes at) c f,
      filled-store outs_1 (ch + 1) frame (sample_2 bytes at) c
          (sample_of bytes (at + 6 + (c - (ch + 2)) / 2 * 6) c),
      filled-store outs ch frame (sample_1 bytes at) c
          (sample_of bytes (at + 6 + (c - (ch + 2)) / 2 * 6) c),
      filled-store outs ch frame (sample_1 bytes at) c (sample_2 bytes at),
    )

filled-decode_frames :
    (bytes : Buffer ℕ) (channels left frame at : ℕ) (outs : Outputs) (c : ℕ) (w : Float)
    → filled (decode_frames bytes channels left frame at outs) c w ≡ filled outs c w
unfolding decode_frames
filled-decode_frames bytes channels zero frame at outs c w = refl
filled-decode_frames bytes channels (suc left) frame at outs c w =
    filled-decode_frames bytes channels left (frame + 1) _ _ c w
    ∙ filled-decode_pairs bytes frame ((channels + 1) / 2) 0 at outs c w

next_row : (d k : ℕ) → 0 < d → d * k ≡ k + (d - 1) * k
next_row zero k h = elim h [ ]
next_row (suc d) k h = grind arith

-- Where the pair of channel `c` of the frame `f` starts, from the frame `frame` at `at` on.
abbrev pub pair_at : ℕ → ℕ → ℕ → ℕ → ℕ → ℕ
pair_at channels frame at c f = at + (f - frame) * ((channels + 1) / 2 * 6) + c / 2 * 6

pub cell-decode_frames :
    (bytes : Buffer ℕ) (channels left frame at : ℕ) (outs : Outputs) (c f : ℕ)
    → channels % 2 ≡ 0
    → cell (decode_frames bytes channels left frame at outs) c f ≡ (
        if ltb c channels && (leb frame f && ltb f (frame + left))
        then filled outs c (sample_of bytes (pair_at channels frame at c f) c)
        else cell outs c f)
unfolding decode_frames
cell-decode_frames bytes channels zero frame at outs c f even = ground arith
cell-decode_frames bytes channels (suc left) frame at outs c f even =
    let pairs = (channels + 1) / 2 in
    let row = decode_pairs bytes frame pairs 0 at outs in
    ground (
      arith,
      cell-decode_frames bytes channels left (frame + 1) row.0 row.1 c f,
      decode_pairs-at bytes frame pairs 0 at outs,
      cell-decode_pairs bytes frame pairs 0 at outs c f,
      filled-decode_pairs bytes frame pairs 0 at outs c
          (sample_of bytes (pair_at channels (frame + 1) row.0 c f) c),
      next_row (f - frame) (pairs * 6),
    )
