-- ===== src/Ring/Store.antt =====
-- src/shared_audio.c: which cells `shared_audio_write` fills, and with what.
use native.Mathlib.Decide.{ℕ_discrete}
use reac_jack.Common.{
  ℕ, zero, suc, ◌+◌, ◌-◌, ◌*◌, ◌^◌, ◌≤◌, ◌<◌, ◌≡◌, ◌≢◌, refl, ◌∙◌, arith, Bool, ltb, leb, ◌==◌,
  eq→==, ne→==, ◌&&◌, ◌||◌, if◌then◌else◌, Buffer, offset, memcpy, memcpy-at,
}
use reac_jack.Common.Modular.{rows_apart, row_end}
use reac_jack.Ring.{write_channel, write_channels, before_end}

-- Is the index `i` of a channel filled, and from which frame, if `frames` go to `index` and on?
abbrev pub covers : ℕ → ℕ → ℕ → ℕ → Bool
covers capacity index frames i =
    let first = before_end capacity index frames in
    (leb index i && ltb i (index + first)) || ltb i (frames - first)

abbrev pub source : ℕ → ℕ → ℕ → ℕ → ℕ
source capacity index frames i =
    if leb index i then i - index else before_end capacity index frames + i

module _ {A : Type 0} (capacity index frames : ℕ) (starts : index < capacity)
    (fits : capacity < 2 ^ 32) (room : frames ≤ capacity) where
  write_channel-at :
      (samples src : Buffer A) (base i : ℕ)
      → i < capacity
      → write_channel samples base index (before_end capacity index frames) src frames (base + i)
        ≡ (if covers capacity index frames i
            then src (source capacity index frames i)
            else samples (base + i))
  unfolding write_channel
  write_channel-at samples src base i h =
      let first = before_end capacity index frames in
      ground (
        arith,
        memcpy-at samples (base + index) src first (base + i),
        memcpy-at (memcpy samples (base + index) src first) base (offset src first) (frames - first)
            (base + i),
      )

  write_channel-outside :
      (samples src : Buffer A) (c d i : ℕ)
      → i < capacity
      → c ≢ d
      → write_channel samples
          (c * capacity)
          index
          (before_end capacity index frames)
          src
          frames
          (d * capacity + i)
        ≡ samples (d * capacity + i)
  unfolding write_channel
  write_channel-outside samples src c d i h ne =
      let first = before_end capacity index frames in
      ground (
        arith,
        rows_apart capacity c d i h ne,
        memcpy-at samples (c * capacity + index) src first (d * capacity + i),
        memcpy-at (memcpy samples (c * capacity + index) src first) (c * capacity)
            (offset src first) (frames - first) (d * capacity + i),
      )

  write_channel-cell :
      (samples src : Buffer A) (c d i : ℕ)
      → i < capacity
      → write_channel samples
          (c * capacity)
          index
          (before_end capacity index frames)
          src
          frames
          (d * capacity + i)
        ≡ (if c == d && covers capacity index frames i
            then src (source capacity index frames i)
            else samples (d * capacity + i))
  write_channel-cell samples src c d i h = elim (ℕ_discrete c d) [
    | yes same ↦ rw (same, eq→== d d refl) (write_channel-at samples src (d * capacity) i h)
    | no other ↦ rw (ne→== c d other) (write_channel-outside samples src c d i h other)
  ]

  -- Channel by channel: the loop fills the covered cells of its channels and no other cell.
  pub write_channels-at :
      (channels : Buffer (Buffer A)) (left ch : ℕ) (samples : Buffer A) (d i : ℕ)
      → i < capacity
      → write_channels capacity index
          (before_end capacity index frames)
          channels
          frames
          left
          ch
          samples
          (d * capacity + i)
        ≡ (if (leb ch d && ltb d (ch + left)) && covers capacity index frames i
            then channels d (source capacity index frames i)
            else samples (d * capacity + i))
  unfolding write_channels
  write_channels-at channels zero ch samples d i h = ground arith
  write_channels-at channels (suc left) ch samples d i h = ground (
    arith,
    write_channels-at channels left (ch + 1)
        (write_channel samples (ch * capacity) index (before_end capacity index frames)
          (channels ch) frames)
        d i,
    write_channel-cell samples (channels ch) ch d i,
  )

  -- No cell behind the rows of the channels is touched.
  pub write_channels-behind :
      (channels : Buffer (Buffer A)) (left ch : ℕ) (samples : Buffer A) (n i : ℕ)
      → ch + left ≤ n
      → n * capacity ≤ i
      → write_channels capacity index
          (before_end capacity index frames)
          channels
          frames
          left
          ch
          samples
          i
        ≡ samples i
  unfolding write_channels write_channel
  write_channels-behind channels zero ch samples n i p q = refl
  write_channels-behind channels (suc left) ch samples n i p q =
      let first = before_end capacity index frames in
      let base = ch * capacity in
      let row : base + capacity ≤ i = omega (arith, row_end capacity ch n (omega arith)) in
      write_channels-behind channels left (ch + 1) _ n i (omega arith) q
      ∙ ground (
        arith,
        memcpy-at samples (base + index) (channels ch) first i,
        memcpy-at (memcpy samples (base + index) (channels ch) first) base
            (offset (channels ch) first) (frames - first) i,
      )
