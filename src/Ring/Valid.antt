-- ===== src/Ring/Valid.antt =====
-- src/shared_audio.c: when the positions of a ring make sense, and what it holds then.
use reac_jack.Common.{ℕ, ◌+◌, ◌-◌, ◌*◌, ◌%◌, ◌^◌, ◌≤◌, ◌<◌, ◌≡◌, arith, List, tabulate}
use reac_jack.Ring.{Ring, writable_frames, readable_frames}

module _ {A : Type 0} where
  -- The 64-bit positions have not wrapped, and at most a capacity of frames is buffered.
  pub record IsValid (r : Ring A) : Type 0 where
    pub has_room : 0 < r.capacity_frames
    pub capacity_fits : r.capacity_frames < 2 ^ 32
    pub ordered : r.read_pos ≤ r.write_pos
    pub within : r.write_pos ≤ r.read_pos + r.capacity_frames
    pub position_fits : r.write_pos < 2 ^ 64

  -- Frames that are written and not yet read.
  abbrev pub fill : Ring A → ℕ
  fill r = r.write_pos - r.read_pos

  -- The sample of channel `ch` at a position.
  abbrev pub sample_at : Ring A → ℕ → ℕ → A
  sample_at r ch p = r.samples (ch * r.capacity_frames + p % r.capacity_frames)

  -- What channel `ch` holds, oldest first.
  abbrev pub contents : Ring A → ℕ → List A
  contents r ch = tabulate (fill r) (λ k. sample_at r ch (r.read_pos + k))

  -- In a valid ring the unsigned differences are the true ones: what can be read and what can be
  -- written make up the capacity.
  pub readable_frames_lem : (r : Ring A) → IsValid r → readable_frames r ≡ fill r
  unfolding readable_frames
  readable_frames_lem r v = omega arith

  pub writable_frames_lem :
      (r : Ring A) → IsValid r → writable_frames r ≡ r.capacity_frames - fill r
  unfolding writable_frames
  writable_frames_lem r v = omega arith
