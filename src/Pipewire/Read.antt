-- ===== src/Pipewire/Read.antt =====
-- src/reacjack-pw.c: `audio_ring_read` gives the oldest frames, then silence.
use native.Mathlib.Nat.{mod-lt}
use native.Mathlib.Decide.{dec_lt}
use reac_jack.Common.{
  Buffer, ap, arith, if◌then◌else◌, leb, ltb, lt→ltb, memcpy, min, offset, refl, suc, sym, u64,
  zero, ℕ, ◌%◌, ◌&&◌, ◌*◌, ◌+◌, ◌-◌, ◌<◌, ◌^◌, ◌∙◌, ◌≡◌, ◌≤◌,
}
use reac_jack.Pipewire.{AudioRing, audio_ring_read, chunk, read_loop, to_read_of}
use reac_jack.Common.Modular.{mod_step}
use reac_jack.Pipewire.Rows.{rows-memcpy, rows-memset}
use reac_jack.Pipewire.Write.{IsValid, fill, frame_at}

join_rows :
    {A : Type 0} (a m n j : ℕ) (x y z : A)
    → a + m ≤ n
    → (a ≤ j → j < a + m → y ≡ x)
    → (if leb (a + m) j && ltb j n then x else if leb a j && ltb j (a + m) then y else z)
      ≡ (if leb a j && ltb j n then x else z)
join_rows a m n j x y z h e = ground arith

module _ {A : Type 0} where
  -- From row `read_frames` on, the loop fills the rows of the output from the positions.
  read_loop-at :
      (fuel : ℕ) (ring : AudioRing A) (to_read read_frames : ℕ) (out : Buffer A) (j c : ℕ)
      → 0 < ring.capacity_frames
      → c < ring.channels
      → ring.read_pos + to_read < 2 ^ 64
      → read_frames ≤ to_read
      → to_read ≤ read_frames + fuel
      → let (n, out') = read_loop fuel ring to_read read_frames out in
        (n ≡ to_read)
        × (out' (j * ring.channels + c) ≡ (
            if leb read_frames j && ltb j to_read
            then frame_at ring (ring.read_pos + j) c
            else out (j * ring.channels + c)))
  unfolding read_loop
  read_loop-at zero ring to_read read_frames out j c hr hc fits h fuel = (omega arith, ground arith)
  read_loop-at (suc fuel) ring to_read read_frames out j c hr hc fits h enough =
      let capacity = ring.capacity_frames in
      let index = (ring.read_pos + read_frames) % capacity in
      let inside : index < capacity = mod-lt (ring.read_pos + read_frames) hr in
      let todo = chunk (to_read - read_frames) (capacity - index) in
      let copied =
        memcpy out (read_frames * ring.channels) (offset ring.samples (index * ring.channels))
          (todo * ring.channels) in
      elim (dec_lt read_frames to_read) [
        | no p ↦ ground arith
        | yes p ↦
            let ih =
              read_loop-at fuel ring to_read (read_frames + todo) copied j c hr hc fits
                (ground arith) (ground arith) in
            let cell = rows-memcpy ring.channels out ring.samples read_frames index todo j c hc in
            let same : u64 (ring.read_pos + read_frames) ≡ ring.read_pos + read_frames =
              omega arith in
            let step : read_frames ≤ j
                → j < read_frames + todo
                → index + (j - read_frames) ≡ (ring.read_pos + j) % capacity =
              λ low high. sym (
                ap (λ (t : ℕ). t % capacity) (omega arith)
                ∙ mod_step capacity (ring.read_pos + read_frames) (j - read_frames) hr
                    (ground arith)
                ∙ ground arith) in
            rw (lt→ltb read_frames to_read p, same)
              (
                ih.0,
                ih.1
                    ∙ rw cell (
                        join_rows read_frames todo to_read j _ _ _ (ground arith) (λ low high.
                          ap (λ (i : ℕ). ring.samples (i * ring.channels + c)) (step low high))),
              )
      ]

  -- From a valid ring `audio_ring_read` returns the smaller of the fill and what is asked for; so
  -- many of the oldest frames stand in the output, in order, silence stands in the rest of the
  -- frames asked for, and no other row changes; the frames read have left the ring, which stays
  -- valid.
  pub audio_ring_read_lem :
      (silence : A) (ring : AudioRing A) (out : Buffer A) (frames : ℕ)
      → IsValid ring
      → let (n, out', after) = audio_ring_read silence ring out frames in
        (n ≡ min (fill ring) frames)
        × ((j c : ℕ)
            → c < ring.channels
            → out' (j * ring.channels + c) ≡ (
                if ltb j n
                then frame_at ring (ring.read_pos + j) c
                else if ltb j frames
                then silence
                else out (j * ring.channels + c)))
        × (after ≡ record ring { read_pos = ring.read_pos + n })
        × IsValid after
  unfolding audio_ring_read
  audio_ring_read_lem silence ring out frames v =
      let n = min (fill ring) frames in
      let count : to_read_of ring frames ≡ n = ground arith in
      let same : u64 (ring.read_pos + n) ≡ ring.read_pos + n = omega arith in
      rw (count, same)
        (
          refl,
          λ j c hc. ground (
            arith,
            read_loop-at n ring n 0 out j c v.has_room hc (omega arith) (omega arith) (omega arith),
            rows-memset ring.channels ((read_loop n ring n 0 out).1) silence n (frames - n) j c hc,
          ),
          refl,
          record {
            has_room = v.has_room;
            ordered = omega arith;
            within = omega arith;
            position_fits = v.position_fits;
            capacity_fits = v.capacity_fits;
          },
        )
