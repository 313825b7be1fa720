-- ===== src/Pipewire/Write.antt =====
-- src/reacjack-pw.c: `audio_ring_write` takes all frames or none, and appends them.
use native.Mathlib.Nat.{mod-lt}
use native.Mathlib.Decide.{dec_lt}
use reac_jack.Common.{
  Buffer, ap, arith, if◌then◌else◌, leb, ltb, lt→ltb, memcpy, none, offset, refl, some, suc, sym,
  u64, zero, ℕ, ◌%◌, ◌&&◌, ◌*◌, ◌+◌, ◌-◌, ◌<◌, ◌^◌, ◌↔◌, ◌∙◌, ◌≡◌, ◌≤◌,
}
use reac_jack.Common.Modular.{mod_step, round}
use reac_jack.Pipewire.{AudioRing, audio_ring_write, chunk, write_loop}
use reac_jack.Pipewire.Rows.{rows-memcpy}

-- How many steps row `j` stands behind the row `index`, round the array.
abbrev pub behind : ℕ → ℕ → ℕ → ℕ
behind capacity index j = if leb index j then j - index else j + capacity - index

-- A round of `todo` rows from `index` on, and the rounds after it, fill the rows that one move of
-- all that is left would.
pub rounds :
    {A : Type 0} (capacity index frames written j : ℕ) (g : ℕ → A) (s : A)
    → index < capacity
    → j < capacity
    → frames ≤ capacity
    → let left = frames - written in
      let todo = chunk left (capacity - index) in
      let d = behind capacity (round capacity index todo) j in
      (if ltb d (frames - (written + todo))
        then g (written + todo + d)
        else if leb index j && ltb j (index + todo)
        then g (written + (j - index))
        else s)
      ≡ (if ltb (behind capacity index j) left then g (written + behind capacity index j) else s)
rounds capacity index frames written j g s hi hj hl = ground arith

-- From the read index `s`, with `held` frames held: the rows that `frames` more go to.
behind-round :
    {A : Type 0} (capacity s held frames k : ℕ) (g : ℕ → A) (old : A)
    → s < capacity
    → held + frames ≤ capacity
    → k < held + frames
    → let d = behind capacity (round capacity s held) (round capacity s k) in
      (if ltb d (frames - 0) then g (0 + d) else old) ≡ (if ltb k held then old else g (k - held))
behind-round capacity s held frames k g old hs room hk = ground arith

module _ {A : Type 0} where
  write_loop-done :
      (fuel : ℕ) (ring : AudioRing A) (interleaved : Buffer A) (write_pos frames written : ℕ)
      (samples : Buffer A)
      → frames ≤ written
      → write_loop fuel ring interleaved write_pos frames (written, samples) ≡ (written, samples)
  unfolding write_loop
  write_loop-done zero ring interleaved write_pos frames written samples h = refl
  write_loop-done (suc fuel) ring interleaved write_pos frames written samples h = ground arith

  -- One round copies the rows from `written` on to where they belong.
  write_loop-at :
      (fuel : ℕ) (ring : AudioRing A) (interleaved : Buffer A) (write_pos frames written : ℕ)
      (samples : Buffer A) (j c : ℕ)
      → j < ring.capacity_frames
      → c < ring.channels
      → frames ≤ ring.capacity_frames
      → write_pos + frames < 2 ^ 64
      → written ≤ frames
      → frames ≤ written + fuel
      → let (n, samples') = write_loop fuel ring interleaved write_pos frames (written, samples) in
        let d = behind ring.capacity_frames ((write_pos + written) % ring.capacity_frames) j in
        (n ≡ frames)
        × (samples' (j * ring.channels + c) ≡ (
            if ltb d (frames - written)
            then interleaved ((written + d) * ring.channels + c)
            else samples (j * ring.channels + c)))
  unfolding write_loop
  write_loop-at zero ring interleaved write_pos frames written samples j c hj hc room fits h fuel =
      (omega arith, ground arith)
  write_loop-at (suc fuel) ring interleaved write_pos frames written samples j c hj hc room fits h
        enough =
      let capacity = ring.capacity_frames in
      let index = (write_pos + written) % capacity in
      let inside : index < capacity = mod-lt (write_pos + written) (omega arith) in
      let todo = chunk (frames - written) (capacity - index) in
      let copied =
        memcpy samples (index * ring.channels) (offset interleaved (written * ring.channels))
          (todo * ring.channels) in
      elim (dec_lt written frames) [
        | no p ↦ ground arith
        | yes p ↦
            let ih =
              write_loop-at fuel ring interleaved write_pos frames (written + todo) copied j c hj hc
                room fits (ground arith) (ground arith) in
            let next : (write_pos + (written + todo)) % capacity ≡ round capacity index todo =
              ap (λ (t : ℕ). t % capacity) (omega arith)
              ∙ mod_step capacity (write_pos + written) todo (omega arith) (ground arith) in
            let cell = rows-memcpy ring.channels samples interleaved index written todo j c hc in
            let same : u64 (write_pos + written) ≡ write_pos + written = omega arith in
            let g = λ (k : ℕ). interleaved (k * ring.channels + c) in
            rw (lt→ltb written frames p, same)
              (
                ih.0,
                ih.1
                    ∙ rw (next, cell)
                        (rounds capacity index frames written j g (samples (j * ring.channels + c))
                          inside hj room),
              )
      ]

  -- The sample of channel `c` in the frame at a position.
  abbrev pub frame_at : AudioRing A → ℕ → ℕ → A
  frame_at ring p c = ring.samples (p % ring.capacity_frames * ring.channels + c)

  -- The positions have not wrapped, and at most a capacity of frames is buffered.
  pub record IsValid (ring : AudioRing A) : Type 0 where
    pub has_room : 0 < ring.capacity_frames
    pub ordered : ring.read_pos ≤ ring.write_pos
    pub within : ring.write_pos ≤ ring.read_pos + ring.capacity_frames
    pub position_fits : ring.write_pos < 2 ^ 64
    pub capacity_fits : ring.capacity_frames < 2 ^ 64

  abbrev pub fill : AudioRing A → ℕ
  fill ring = ring.write_pos - ring.read_pos

  abbrev written_ring : AudioRing A → Buffer A → ℕ → AudioRing A
  written_ring ring interleaved frames = record ring {
    samples = (write_loop frames ring interleaved ring.write_pos frames (0, ring.samples)).1;
    write_pos = ring.write_pos + frames;
  }

  frame_at-written :
      (ring : AudioRing A) (interleaved : Buffer A) (frames k c : ℕ)
      → IsValid ring
      → c < ring.channels
      → fill ring + frames ≤ ring.capacity_frames
      → ring.write_pos + frames < 2 ^ 64
      → k < fill ring + frames
      → frame_at (written_ring ring interleaved frames) (ring.read_pos + k) c ≡ (
          if ltb k (fill ring)
          then frame_at ring (ring.read_pos + k) c
          else interleaved ((k - fill ring) * ring.channels + c))
  frame_at-written ring interleaved frames k c v hc room fits hk =
      let capacity = ring.capacity_frames in
      let s = ring.read_pos % capacity in
      let starts : s < capacity = mod-lt ring.read_pos v.has_room in
      let here : (ring.read_pos + k) % capacity ≡ round capacity s k =
        mod_step capacity ring.read_pos k v.has_room (omega arith) in
      let end : (ring.write_pos + 0) % capacity ≡ round capacity s (fill ring) =
        ap (λ (t : ℕ). t % capacity) (omega arith)
        ∙ mod_step capacity ring.read_pos (fill ring) v.has_room (omega arith) in
      let cell =
        write_loop-at frames ring interleaved ring.write_pos frames 0 ring.samples
          ((ring.read_pos + k) % capacity) c (mod-lt (ring.read_pos + k) v.has_room) hc
          (omega arith) fits (omega arith) (omega arith) in
      cell.1
      ∙ rw (end, here)
          (behind-round capacity s (fill ring) frames k
              (λ (i : ℕ). interleaved (i * ring.channels + c))
              (ring.samples (round capacity s k * ring.channels + c)) starts room hk
            ∙ ap
                (λ (t : A).
                  if ltb k (fill ring)
                  then t
                  else interleaved ((k - fill ring) * ring.channels + c))
                (ap (λ (j : ℕ). ring.samples (j * ring.channels + c)) (sym here)))

  -- If the frames fit a valid ring (its position is taken not to wrap), `audio_ring_write` returns
  -- 0 and appends them: the frames that the ring held stay, the new ones stand behind them in
  -- order, and the ring is valid.
  pub audio_ring_write_appends :
      (ring : AudioRing A) (interleaved : Buffer A) (frames : ℕ)
      → IsValid ring
      → fill ring + frames ≤ ring.capacity_frames
      → ring.write_pos + frames < 2 ^ 64
      → (after : AudioRing A) × (audio_ring_write ring interleaved frames ≡ some after)
        × (after.read_pos ≡ ring.read_pos)
        × (after.write_pos ≡ ring.write_pos + frames)
        × ((k c : ℕ)
            → c < ring.channels
            → k < fill ring + frames
            → frame_at after (ring.read_pos + k) c ≡ (
                if ltb k (fill ring)
                then frame_at ring (ring.read_pos + k) c
                else interleaved ((k - fill ring) * ring.channels + c)))
        × IsValid after
  unfolding audio_ring_write
  audio_ring_write_appends ring interleaved frames v room fits = (
    written_ring ring interleaved frames,
    ground arith,
    refl,
    refl,
    λ k c hc hk. frame_at-written ring interleaved frames k c v hc room fits hk,
    record {
      has_room = v.has_room;
      ordered = omega arith;
      within = omega arith;
      position_fits = fits;
      capacity_fits = v.capacity_fits;
    },
  )

  -- If they do not fit, it returns -1, and this is the only case in which it does.
  pub audio_ring_write_refuses_iff :
      (ring : AudioRing A) (interleaved : Buffer A) (frames : ℕ)
      → IsValid ring
      → (audio_ring_write ring interleaved frames ≡ none)
        ↔ (ring.capacity_frames < fill ring + frames)
  unfolding audio_ring_write
  audio_ring_write_refuses_iff ring interleaved frames v = ground arith
