-- ===== src/Ring/Read.antt =====
-- src/shared_audio.c: `shared_audio_read` takes the oldest frames off every channel, and silence
-- stands for those that are missing.
use native.Mathlib.Nat.{mod-lt}
use reac_jack.Common.{
  ℕ, zero, suc, ◌+◌, ◌-◌, ◌*◌, ◌%◌, ◌^◌, ◌≤◌, ◌<◌, ◌≡◌, sym, ap, ◌∙◌, arith, min, ◌++◌, ◌&&◌,
  Buffer, tabulate, ltb, leb, if◌then◌else◌, u32, u64, tabulate_ext, offset, update, memcpy,
  memcpy-at, memset-at,
}
use reac_jack.Common.Modular.{round, mod_step}
use reac_jack.Ring.{Ring, before_end, readable_of, read_channel, read_channels, read}
use reac_jack.Ring.Consume.{
  readable_of_lem, after_read, after_read-header, after_read-IsValid, after_read-contents,
}
use reac_jack.Ring.Valid.{IsValid, fill, sample_at, contents}

module _ {A : Type 0} (silence : A) where
  -- One channel's array: `n` frames from the index `s` on, then silence up to `frames`.
  abbrev channel_out : Buffer A → ℕ → ℕ → ℕ → ℕ → ℕ → Buffer A → Buffer A
  channel_out samples base capacity s n frames out i =
      if ltb i n
      then samples (base + round capacity s i)
      else if ltb i frames
      then silence
      else out i

  read_channel-at :
      (samples : Buffer A) (base capacity s n frames : ℕ) (out : Buffer A) (i : ℕ)
      → s < capacity
      → capacity < 2 ^ 32
      → n ≤ capacity
      → n ≤ frames
      → read_channel silence samples base s (before_end capacity s n) n frames out i
        ≡ channel_out samples base capacity s n frames out i
  unfolding read_channel
  read_channel-at samples base capacity s n frames out i hs small hn hf =
      let first = before_end capacity s n in
      let copied = memcpy out 0 (offset samples (base + s)) first in
      let wrapped = memcpy copied first (offset samples base) (n - first) in
      ground (
        arith,
        memcpy-at out 0 (offset samples (base + s)) first i,
        memcpy-at copied first (offset samples base) (n - first) i,
        memset-at wrapped n silence (frames - n) i,
        memset-at copied n silence (frames - n) i,
      )

  read_channels-at :
      (samples : Buffer A) (capacity s n frames left ch : ℕ) (outs : Buffer (Buffer A)) (c i : ℕ)
      → s < capacity
      → capacity < 2 ^ 32
      → n ≤ capacity
      → n ≤ frames
      → read_channels silence samples capacity s (before_end capacity s n) n frames left ch outs c i
        ≡ (if leb ch c && ltb c (ch + left)
            then channel_out samples (c * capacity) capacity s n frames (outs c) i
            else outs c i)
  unfolding read_channels
  read_channels-at samples capacity s n frames zero ch outs c i hs small hn hf = ground arith
  read_channels-at samples capacity s n frames (suc left) ch outs c i hs small hn hf =
      let row =
        read_channel silence samples (ch * capacity) s (before_end capacity s n) n frames
          (outs ch) in
      ground (
        arith,
        read_channels-at samples capacity s n frames left (ch + 1) (update outs ch row) c i,
        read_channel-at samples (ch * capacity) capacity s n frames (outs ch) i,
      )

  read-out :
      (r : Ring A) (outs : Buffer (Buffer A)) (frames ch i : ℕ)
      → IsValid r
      → ch < r.channels
      → (read silence r outs frames).1 ch i ≡ (
          if ltb i (min (fill r) frames)
          then sample_at r ch (r.read_pos + i)
          else if ltb i frames
          then silence
          else outs ch i)
  unfolding read
  read-out r outs frames ch i v p =
      let capacity = r.capacity_frames in
      let s = r.read_pos % capacity in
      let n = readable_of r frames in
      let amount = readable_of_lem r frames v in
      let starts : s < capacity = mod-lt r.read_pos v.has_room in
      let start : u32 s ≡ s = ground arith in
      rw start (
        read_channels-at r.samples capacity s n frames r.channels 0 outs ch i starts v.capacity_fits
          (omega arith) (omega arith)
        ∙ ground (arith, mod_step capacity r.read_pos i v.has_room))

  -- `shared_audio_read` returns the smaller of the fill and the request. Each channel's array gets
  -- that many of the oldest frames of the channel, then silence up to the request, and nothing
  -- behind it. Just these frames leave the ring, a short read counts one underrun, and the ring
  -- stays valid.
  pub read_lem :
      (r : Ring A) (outs : Buffer (Buffer A)) (frames : ℕ)
      → IsValid r
      → let (n, outs', r') = read silence r outs frames in
        (n ≡ min (fill r) frames)
        × ((ch : ℕ) → ch < r.channels → contents r ch ≡ tabulate n (outs' ch) ++ contents r' ch)
        × ((ch i : ℕ) → ch < r.channels → n ≤ i → i < frames → outs' ch i ≡ silence)
        × ((ch i : ℕ) → ch < r.channels → n ≤ i → frames ≤ i → outs' ch i ≡ outs ch i)
        × (r'.header ≡ record r.header {
          underruns = if ltb n frames then u64 (r.underruns + 1) else r.underruns;
          read_pos = r.read_pos + n;
        })
        × IsValid r'
  unfolding read
  read_lem r outs frames v =
      let n = readable_of r frames in
      let amount = readable_of_lem r frames v in
      let held : n ≤ fill r = omega arith in
      (
        amount,
        λ ch p.
            after_read-contents r n frames ch v held
            ∙ ap (λ l. l ++ contents (after_read r n frames) ch)
                (tabulate_ext n _ _ (λ i q. sym (read-out r outs frames ch i v p ∙ ground arith))),
        λ ch i p q h. read-out r outs frames ch i v p ∙ ground arith,
        λ ch i p q h. read-out r outs frames ch i v p ∙ ground arith,
        after_read-header r n frames v held,
        after_read-IsValid r n frames v held,
      )
