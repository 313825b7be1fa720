-- ===== src/Ring/Open.antt =====
-- src/shared_audio.c: what can be opened, and that it is safe to use.
use reac_jack.Common.Modular.{cell-lt}
use Prim.Native.String.{String}
use text.Mathlib.TextPositions.{eq_refl}
use reac_jack.Common.{Bool, Option, arith, none, refl, some, true, ℕ, ◌*◌, ◌+◌, ◌<◌, ◌^◌, ◌≡◌, ◌≤◌}
use reac_jack.Ring.{Ring}
use reac_jack.Ring.Valid.{IsValid, fill}
use reac_jack.Ring.Handle.{
  Objects, Segment, create, mapping_bytes, open_ring, open_segment, samples_offset,
}

module _ {A : Type 0} where
  -- A ring that `shared_audio_create` makes can be opened under its name, is the one that is
  -- opened, is valid and holds nothing. (Its size in bytes is taken to fit `size_t`.)
  pub open_ring-create :
      (silence : A) (objects : Objects A) (name : String) (rate channels capacity : ℕ)
      (opens sized maps : Bool) (r : Ring A)
      → capacity < 2 ^ 32
      → samples_offset + channels * capacity * 4 < 2 ^ 64
      → (create silence objects (some name) rate channels capacity opens sized maps).0 ≡ some r
      → let objects' =
          (create silence objects (some name) rate channels capacity opens sized maps).1 in
        (open_ring objects' (some name) true ≡ some r) × IsValid r × (fill r ≡ 0)
  unfolding create open_ring
  open_ring-create silence objects name rate channels capacity opens sized maps r small fits made =
      ground (arith, eq_refl name)

  open_segment_fits :
      (s : Segment A) (maps : Bool) (r : Ring A)
      → open_segment (some s) maps ≡ some r
      → mapping_bytes r.channels r.capacity_frames ≤ s.bytes
  open_segment_fits s maps r opened = ground arith

  open_segment_safe :
      (segment : Option (Segment A)) (maps : Bool) (r : Ring A) (c i : ℕ)
      → open_segment segment maps ≡ some r
      → samples_offset + r.channels * r.capacity_frames * 4 < 2 ^ 64
      → c < r.channels
      → i < r.capacity_frames
      → (s : Segment A) × (segment ≡ some s)
        × (samples_offset + (c * r.capacity_frames + i) * 4 + 4 ≤ s.bytes)
  open_segment_safe none maps r c i opened fits hc hi = absurd (ground arith)
  open_segment_safe (some s) maps r c i opened fits hc hi =
      let fit = open_segment_fits s maps r opened in
      let below = cell-lt r.capacity_frames c r.channels i hi hc in (s, refl, omega arith)

  -- Every sample of every channel of a ring that `shared_audio_open` gives lies inside the object
  -- that is mapped. (The header is taken to describe an array whose size fits `size_t`.)
  pub open_ring_safe :
      (objects : Objects A) (name : String) (maps : Bool) (r : Ring A) (c i : ℕ)
      → open_ring objects (some name) maps ≡ some r
      → samples_offset + r.channels * r.capacity_frames * 4 < 2 ^ 64
      → c < r.channels
      → i < r.capacity_frames
      → (s : Segment A) × (objects name ≡ some s)
        × (samples_offset + (c * r.capacity_frames + i) * 4 + 4 ≤ s.bytes)
  unfolding open_ring
  open_ring_safe objects name maps r c i opened fits hc hi =
      open_segment_safe (objects name) maps r c i (ground arith) fits hc hi
