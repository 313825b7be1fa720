-- ===== src/Ring/Interleaved.antt =====
-- src/shared_audio.c: `shared_audio_read_interleaved`, frame by frame and channel by channel.
use native.Mathlib.Nat.{mod-lt, mod-eq_of_lt}
use native.Mathlib.Decide.{dec_lt}
use reac_jack.Common.{
  ℕ, zero, suc, ◌+◌, ◌*◌, ◌%◌, ◌≤◌, ◌<◌, ◌≡◌, ◌∙◌, arith, min, ◌++◌, ◌&&◌, Buffer, tabulate, ltb,
  leb, ◌==◌, if◌then◌else◌, u32, u64, update, memset, memset-at,
}
use reac_jack.Common.Modular.{cell_injective, row-lt}
use reac_jack.Ring.{Ring, readable_of, copy_frames, copy_channels, read_interleaved}
use reac_jack.Ring.Consume.{
  readable_of_lem, after_read-header, after_read-IsValid, after_read-contents,
}
use reac_jack.Ring.Valid.{IsValid, fill, sample_at, contents}

module _ {A : Type 0} where
  -- The sample that the loops read for a channel and a frame.
  abbrev pub looked_up : Buffer A → ℕ → ℕ → ℕ → ℕ → A
  looked_up samples capacity read_pos ch frame =
      samples (ch * capacity + u32 (u64 (read_pos + frame) % capacity))

  update-cell :
      (out : Buffer A) (oc f g c d : ℕ) (a : A)
      → c < oc
      → d < oc
      → update out (f * oc + c) a (g * oc + d) ≡ (if g == f && d == c then a else out (g * oc + d))
  update-cell out oc f g c d a hc hd = ground (arith, cell_injective oc g f d c hd hc)

  copy_frames-at :
      (samples : Buffer A) (capacity rp oc ch left frame : ℕ) (out : Buffer A) (f c : ℕ)
      → ch < oc
      → c < oc
      → copy_frames samples capacity rp oc ch (ch * capacity) left frame out (f * oc + c) ≡ (
          if c == ch && (leb frame f && ltb f (frame + left))
          then looked_up samples capacity rp ch f
          else out (f * oc + c))
  unfolding copy_frames
  copy_frames-at samples capacity rp oc ch zero frame out f c h hc = ground arith
  copy_frames-at samples capacity rp oc ch (suc left) frame out f c h hc = ground (
    arith,
    copy_frames-at samples capacity rp oc ch left (frame + 1)
        (update out (frame * oc + ch) (looked_up samples capacity rp ch frame)) f c,
    update-cell out oc frame f ch c (looked_up samples capacity rp ch frame),
  )

  copy_channels-at :
      (samples : Buffer A) (capacity rp oc n left ch : ℕ) (out : Buffer A) (f c : ℕ)
      → ch + left ≤ oc
      → c < oc
      → copy_channels samples capacity rp oc n left ch out (f * oc + c) ≡ (
          if ltb f n && (leb ch c && ltb c (ch + left))
          then looked_up samples capacity rp c f
          else out (f * oc + c))
  unfolding copy_channels
  copy_channels-at samples capacity rp oc n zero ch out f c h hc = ground arith
  copy_channels-at samples capacity rp oc n (suc left) ch out f c h hc = ground (
    arith,
    copy_channels-at samples capacity rp oc n left (ch + 1)
        (copy_frames samples capacity rp oc ch (ch * capacity) n 0 out) f c,
    copy_frames-at samples capacity rp oc ch n 0 out f c,
  )

  -- Below the write position the lookup is that of the ring.
  looked_up-sample_at :
      (r : Ring A) (ch f : ℕ)
      → IsValid r
      → f < fill r
      → looked_up r.samples r.capacity_frames r.read_pos ch f ≡ sample_at r ch (r.read_pos + f)
  looked_up-sample_at r ch f v h =
      let near : u64 (r.read_pos + f) ≡ r.read_pos + f = mod-eq_of_lt (omega arith) in
      let small : u32 ((r.read_pos + f) % r.capacity_frames)
          ≡ (r.read_pos + f) % r.capacity_frames =
        ground (arith, mod-lt (r.read_pos + f) v.has_room) in
      rw (near, small)

module _ {A : Type 0} (silence : A) where
  -- What a read of `n` of `frames` frames puts at frame `f`, channel `c`.
  abbrev pub frame_out : Ring A → Buffer A → ℕ → ℕ → ℕ → ℕ → ℕ → A
  frame_out r out oc n frames f c =
      if ltb f n && ltb c r.channels
      then sample_at r c (r.read_pos + f)
      else if ltb f frames
      then silence
      else out (f * oc + c)

  memset-cell :
      (out : Buffer A) (oc frames f c : ℕ)
      → c < oc
      → memset out 0 silence (frames * oc) (f * oc + c)
        ≡ (if ltb f frames then silence else out (f * oc + c))
  memset-cell out oc frames f c h = elim (dec_lt f frames) [
    | yes p ↦
        ground
          (arith, memset-at out 0 silence (frames * oc) (f * oc + c), row-lt oc f frames c 0 h p)
    | no p ↦
        let behind : frames * oc ≤ f * oc = grind arith in
        ground (arith, memset-at out 0 silence (frames * oc) (f * oc + c))
  ]

  interleaved-out :
      (r : Ring A) (out : Buffer A) (oc frames f c : ℕ)
      → IsValid r
      → c < oc
      → (read_interleaved silence r out oc frames).1 (f * oc + c)
        ≡ frame_out r out oc (min (fill r) frames) frames f c
  unfolding read_interleaved
  interleaved-out r out oc frames f c v h =
      let n = readable_of r frames in
      let amount = readable_of_lem r frames v in
      let copy = if ltb r.channels oc then r.channels else oc in
      let silent = memset out 0 silence (frames * oc) in
      ground (
        arith,
        copy_channels-at r.samples r.capacity_frames r.read_pos oc n copy 0 silent f c,
        memset-cell out oc frames f c,
        looked_up-sample_at r c f v,
      )

  -- `shared_audio_read_interleaved` returns the smaller of the fill and the request. Frame `f` of
  -- the output holds the samples of the `f`-th oldest frame, for the channels that the ring has;
  -- other channels and missing frames are silence, and nothing behind the request is written. Just
  -- the frames returned leave the ring, a short read counts one underrun, and the ring stays valid.
  pub read_interleaved_lem :
      (r : Ring A) (out : Buffer A) (oc frames : ℕ)
      → IsValid r
      → let (n, out', r') = read_interleaved silence r out oc frames in
        (n ≡ min (fill r) frames)
        × ((f c : ℕ) → c < oc → out' (f * oc + c) ≡ frame_out r out oc n frames f c)
        × ((ch : ℕ)
            → contents r ch ≡ tabulate n (λ i. sample_at r ch (r.read_pos + i)) ++ contents r' ch)
        × (r'.header ≡ record r.header {
          underruns = if ltb n frames then u64 (r.underruns + 1) else r.underruns;
          read_pos = r.read_pos + n;
        })
        × IsValid r'
  unfolding read_interleaved
  read_interleaved_lem r out oc frames v =
      let n = readable_of r frames in
      let amount = readable_of_lem r frames v in
      let held : n ≤ fill r = omega arith in
      (
        amount,
        λ f c h. interleaved-out r out oc frames f c v h ∙ ground arith,
        λ ch. after_read-contents r n frames ch v held,
        after_read-header r n frames v held,
        after_read-IsValid r n frames v held,
      )
