-- ===== src/Ring/Write.antt =====
-- src/shared_audio.c: `shared_audio_write` takes all frames or none, and appends them.
use reac_jack.Common.{
  ℕ, ◌+◌, ◌-◌, ◌*◌, ◌%◌, ◌^◌, ◌≤◌, ◌<◌, ◌≡◌, refl, ap, ◌∙◌, arith, ◌++◌, Buffer, tabulate, ltb, not,
  Bool-cases, inl, inr, lt→ltb, ltb→le, le→ltb, ap₂, u32, if◌then◌else◌, u64, tabulate_ext,
  tabulate-add,
}
use reac_jack.Common.Modular.{round, mod_step}
use native.Mathlib.Nat.{mod-lt, mod-eq_of_lt}
use reac_jack.Ring.{Ring, done, failed, writable_frames, write_channels, before_end, write}
use reac_jack.Ring.Valid.{IsValid, fill, sample_at, contents, writable_frames_lem}
use reac_jack.Ring.Store.{covers, source, write_channels-at, write_channels-behind}

-- From the read index `s`, with `fill` frames held: the cells that `frames` more go to are those
-- of the next steps, in order.
covers-round :
    (capacity s fill frames k : ℕ)
    → s < capacity
    → capacity < 2 ^ 32
    → fill + frames ≤ capacity
    → k < fill + frames
    → (covers capacity (round capacity s fill) frames (round capacity s k) ≡ not (ltb k fill))
      × (fill ≤ k → source capacity (round capacity s fill) frames (round capacity s k) ≡ k - fill)
covers-round capacity s fill frames k hs small room hk = (ground arith, λ h. ground arith)

module _ {A : Type 0} where
  -- The ring after frames that fit.
  abbrev written : Ring A → Buffer (Buffer A) → ℕ → Ring A
  written r channels frames =
      let index = r.write_pos % r.capacity_frames in
      record r {
        header = record r.header { write_pos = r.write_pos + frames };
        samples =
            write_channels r.capacity_frames index (before_end r.capacity_frames index frames)
              channels frames r.channels 0 r.samples;
      }

  -- Before the old write position nothing changes, and from it on stand the new frames.
  sample_at-written :
      (r : Ring A) (channels : Buffer (Buffer A)) (frames ch k : ℕ)
      → IsValid r
      → fill r + frames ≤ r.capacity_frames
      → ch < r.channels
      → k < fill r + frames
      → sample_at (written r channels frames) ch (r.read_pos + k)
        ≡ (if ltb k (fill r) then sample_at r ch (r.read_pos + k) else channels ch (k - fill r))
  sample_at-written r channels frames ch k v room p q =
      let capacity = r.capacity_frames in
      let s = r.read_pos % capacity in
      let starts : s < capacity = mod-lt r.read_pos v.has_room in
      let here : (r.read_pos + k) % capacity ≡ round capacity s k =
        mod_step capacity r.read_pos k v.has_room (omega arith) in
      let end : r.write_pos % capacity ≡ round capacity s (fill r) =
        ap (λ (t : ℕ). t % capacity) (omega arith)
        ∙ mod_step capacity r.read_pos (fill r) v.has_room (omega arith) in
      let (covered, from) =
        covers-round capacity s (fill r) frames k starts v.capacity_fits room q in
      rw here (
        write_channels-at capacity (r.write_pos % capacity) frames (mod-lt r.write_pos v.has_room)
          v.capacity_fits (omega arith) channels r.channels 0 r.samples ch (round capacity s k)
          (ground arith)
        ∙ rw end (ground (arith, covered, from)))

  write-written :
      (r : Ring A) (channels : Buffer (Buffer A)) (frames : ℕ)
      → IsValid r
      → fill r + frames ≤ r.capacity_frames
      → r.write_pos + frames < 2 ^ 64
      → write r channels frames ≡ (done, written r channels frames)
  unfolding write
  write-written r channels frames v room no_wrap =
      let start : u32 (r.write_pos % r.capacity_frames) ≡ r.write_pos % r.capacity_frames =
        ground (arith, mod-lt r.write_pos v.has_room) in
      let end : u64 (r.write_pos + frames) ≡ r.write_pos + frames = mod-eq_of_lt no_wrap in
      rw (le→ltb (writable_frames r) frames (omega (arith, writable_frames_lem r v)), start, end)

  contents-written :
      (r : Ring A) (channels : Buffer (Buffer A)) (frames ch : ℕ)
      → IsValid r
      → fill r + frames ≤ r.capacity_frames
      → ch < r.channels
      → contents (written r channels frames) ch ≡ contents r ch ++ tabulate frames (channels ch)
  contents-written r channels frames ch v room p =
      let here : r.write_pos + frames - r.read_pos ≡ fill r + frames = omega arith in
      let at = sample_at-written r channels frames ch in
      ap (λ (n : ℕ). tabulate n (λ k. sample_at (written r channels frames) ch (r.read_pos + k)))
        here
      ∙ tabulate-add (fill r) frames _
      ∙ ap₂ ◌++◌ (tabulate_ext (fill r) _ _ (λ k q. at k v room p (omega arith) ∙ ground arith))
          (tabulate_ext frames _ _ (λ k q. at (fill r + k) v room p (omega arith) ∙ ground arith))

  -- If the frames fit, `shared_audio_write` returns 0, appends them in order to what every channel
  -- of the ring holds, and leaves a valid ring whose read position and counters are as before.
  pub write_appends :
      (r : Ring A) (channels : Buffer (Buffer A)) (frames : ℕ)
      → IsValid r
      → fill r + frames ≤ r.capacity_frames
      → r.write_pos + frames < 2 ^ 64
      → let (status, r') = write r channels frames in
        (status ≡ done)
        × ((ch : ℕ)
            → ch < r.channels
            → contents r' ch ≡ contents r ch ++ tabulate frames (channels ch))
        × (r'.header ≡ record r.header { write_pos = r.write_pos + frames })
        × IsValid r'
  write_appends r channels frames v room no_wrap =
      rw (write-written r channels frames v room no_wrap) (
        refl,
        λ ch p. contents-written r channels frames ch v room p,
        refl,
        record {
          has_room = v.has_room;
          capacity_fits = v.capacity_fits;
          ordered = omega arith;
          within = omega arith;
          position_fits = no_wrap;
        },
      )

  -- If they do not fit, it returns nonzero, counts one overrun, and neither the samples nor any
  -- other field of the header changes.
  pub write_overruns :
      (r : Ring A) (channels : Buffer (Buffer A)) (frames : ℕ)
      → IsValid r
      → r.capacity_frames < fill r + frames
      → write r channels frames
        ≡ (failed, record r { header = record r.header { overruns = (r.overruns + 1) % 2 ^ 64 } })
  unfolding write
  write_overruns r channels frames v full =
      rw (lt→ltb (writable_frames r) frames (omega (arith, writable_frames_lem r v)))

  -- Whatever fits or not, `shared_audio_write` stays inside the mapped array: a cell behind the
  -- rows of the ring's channels keeps its value.
  pub write_in_bounds :
      (r : Ring A) (channels : Buffer (Buffer A)) (frames i : ℕ)
      → IsValid r
      → r.channels * r.capacity_frames ≤ i
      → (write r channels frames).1.samples i ≡ r.samples i
  unfolding write
  write_in_bounds r channels frames i v p = elim (Bool-cases (ltb (writable_frames r) frames)) [
    | inl full ↦ rw full
    | inr room ↦ rw room (
        write_channels-behind r.capacity_frames (u32 (r.write_pos % r.capacity_frames)) frames
          (omega (arith, mod-lt r.write_pos {m = r.capacity_frames} v.has_room)) v.capacity_fits
          (omega (arith, ltb→le (writable_frames r) frames room, writable_frames_lem r v)) channels
          r.channels 0 r.samples r.channels i (omega arith) p)
  ]
