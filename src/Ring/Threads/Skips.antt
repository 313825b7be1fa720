-- ===== src/Ring/Threads/Skips.antt =====
-- src/shared_audio.c: the heads of a drop and of a seek decide on a position within the ring.
use reac_jack.Common.{Bool-cases, arith, inl, inr, ltb, sub64, u32, u64, ℕ, ◌+◌, ◌≡◌}
use reac_jack.Ring.Threads.{
  Reader, System, drop_frames, load_drop, load_seek, returned, seek, waiting,
}
use reac_jack.Ring.Threads.Shared.{Stored}
use reac_jack.Ring.Threads.Reads.{ReadKept, own-ReadKept, rest-ReadKept}
use reac_jack.Ring.Threads.Output.{ReaderInv}

module _ {A : Type 0} (silence : A) (s : System A) (inv : Stored s.ring s.put) where
  load_drop-ReaderInv :
      (target_fill tolerance : ℕ)
      → ReaderInv silence s.ring s.put (load_drop s.ring target_fill tolerance)
  unfolding load_drop
  load_drop-ReaderInv target_fill tolerance =
      let r = s.ring in
      let v = inv.valid in
      let ordered = v.ordered in
      let within = v.within in
      let fits = v.position_fits in
      let capacity_fits = v.capacity_fits in
      elim (Bool-cases
        (ltb (u64 (u32 target_fill + u32 tolerance)) (sub64 r.write_pos r.read_pos))) [
          | inl full ↦ rw full (ground arith)
          | inr fine ↦ rw fine tt
        ]

  load_seek-ReaderInv :
      (target_fill : ℕ) → ReaderInv silence s.ring s.put (load_seek s.ring target_fill)
  unfolding load_seek
  load_seek-ReaderInv target_fill =
      let v = inv.valid in
      let ordered = v.ordered in
      let within = v.within in
      let fits = v.position_fits in
      let capacity_fits = v.capacity_fits in (ground arith, ground arith)

  pub drop_frames-ReadKept :
      (reader : Reader A) (target_fill tolerance : ℕ)
      → s.reader ≡ reader
      → ReaderInv silence s.ring s.put reader
      → ReadKept silence s (drop_frames s reader target_fill tolerance)
  unfolding drop_frames
  drop_frames-ReadKept waiting target_fill tolerance e t =
      own-ReadKept silence s inv _ (load_drop-ReaderInv target_fill tolerance)
  drop_frames-ReadKept (returned out out_channels frames n at) target_fill tolerance e t =
      own-ReadKept silence s inv _ (load_drop-ReaderInv target_fill tolerance)
  drop_frames-ReadKept reader target_fill tolerance e t = rest-ReadKept silence s inv (rw e t)

  pub seek-ReadKept :
      (reader : Reader A) (target_fill : ℕ)
      → s.reader ≡ reader
      → ReaderInv silence s.ring s.put reader
      → ReadKept silence s (seek s reader target_fill)
  unfolding seek
  seek-ReadKept waiting target_fill e t =
      own-ReadKept silence s inv _ (load_seek-ReaderInv target_fill)
  seek-ReadKept (returned out out_channels frames n at) target_fill e t =
      own-ReadKept silence s inv _ (load_seek-ReaderInv target_fill)
  seek-ReadKept reader target_fill e t = rest-ReadKept silence s inv (rw e t)
