-- ===== src/Ring/Threads/Shared.antt =====
-- src/shared_audio.c: what holds of the ring and of both threads between any two steps, and
-- that every step of the writer keeps it.
use native.Mathlib.Decide.{dec_lt}
use native.Mathlib.Nat.{mod-lt}
use reac_jack.Common.{
  Bool, Buffer, ap, arith, eq→==, inl, inr, ltb, ne→==, refl, sym, true, update, ℕ, ◌%◌, ◌&&◌, ◌*◌,
  ◌+◌, ◌-◌, ◌<◌, ◌==◌, ◌^◌, ◌||◌, ◌∙◌, ◌≡◌, ◌≢◌, ◌≤◌, ◌⊎◌,
}
use reac_jack.Common.Modular.{cell_injective, mod_injective, mod_step}
use reac_jack.Ring.{Ring}
use reac_jack.Ring.Valid.{IsValid, sample_at}
use reac_jack.Ring.Threads.{Writer, place, resting, writing}

-- Is frame `i` of channel `c` copied, when frame `j` of channel `ch` is next?
abbrev pub is_copied : ℕ → ℕ → ℕ → ℕ → Bool
is_copied c i ch j = ltb c ch || (c == ch && ltb i j)

module _ {A : Type 0} where
  -- A call that writes: its frames go behind those of the ring, and have room.
  pub record Writing (r : Ring A) (put channels : Buffer (Buffer A)) (frames at ch j left : ℕ)
      : Type 0 where
    pub here : at ≡ r.write_pos
    pub channel : ch ≤ r.channels
    pub frame : j ≤ frames
    pub room : r.write_pos + frames ≤ r.read_pos + r.capacity_frames
    pub small : r.write_pos + frames + left < 2 ^ 64
    pub given : (c i : ℕ) → i < frames → put c (r.write_pos + i) ≡ channels c i
    pub copied :
        (c i : ℕ)
        → c < r.channels
        → i < frames
        → is_copied c i ch j ≡ true
        → sample_at r c (r.write_pos + i) ≡ put c (r.write_pos + i)

  abbrev pub WriterInv : Ring A → Buffer (Buffer A) → ℕ → Writer A → Type 0
  WriterInv r put left resting = r.write_pos + left < 2 ^ 64
  WriterInv r put left (writing channels frames at ch j) =
      Writing r put channels frames at ch j left

  -- The ring's frames are those that the writer was given for their positions.
  pub record Stored (r : Ring A) (put : Buffer (Buffer A)) : Type 0 where
    pub valid : IsValid r
    pub stored :
        (c p : ℕ) → c < r.channels → r.read_pos ≤ p → p < r.write_pos → sample_at r c p ≡ put c p

  -- Where the writer puts its next sample.
  pub place_lem :
      (r : Ring A) (frames j : ℕ)
      → IsValid r
      → r.write_pos + frames ≤ r.read_pos + r.capacity_frames
      → j < frames
      → place r.capacity_frames r.write_pos frames j ≡ (r.write_pos + j) % r.capacity_frames
  place_lem r frames j v room h =
      let starts = mod-lt r.write_pos {m = r.capacity_frames} v.has_room in
      ground (arith, mod_step r.capacity_frames r.write_pos j v.has_room (omega arith))

  -- Positions less than a lap apart stand in different cells of a channel.
  cells_apart :
      (r : Ring A) (c d p q : ℕ)
      → IsValid r
      → p < q
      → q < p + r.capacity_frames
      → c * r.capacity_frames + p % r.capacity_frames
        ≢ d * r.capacity_frames + q % r.capacity_frames
  cells_apart r c d p q v lt near e =
      let same =
        cell_injective r.capacity_frames c d _ _ (mod-lt p v.has_room) (mod-lt q v.has_room) e in
      let far : q - p ≡ 0 = sym (
        mod_injective r.capacity_frames p 0 (q - p) v.has_room v.has_room (omega arith) (
          ap (λ (t : ℕ). t % r.capacity_frames) (omega arith)
          ∙ same.1
          ∙ ap (λ (t : ℕ). t % r.capacity_frames) (omega arith))) in
      omega arith

  -- The ring after the copy of one sample to a position.
  abbrev pub with_sample : Ring A → ℕ → ℕ → A → Ring A
  with_sample r ch q a = record r {
    samples = update r.samples (ch * r.capacity_frames + q % r.capacity_frames) a;
  }

  -- The copy changes no sample of another position of the same lap.
  pub sample_at-with_sample :
      (r : Ring A) (ch c p q : ℕ) (a : A)
      → IsValid r
      → r.read_pos ≤ p
      → p < r.read_pos + r.capacity_frames
      → r.read_pos ≤ q
      → q < r.read_pos + r.capacity_frames
      → c ≢ ch ⊎ p ≢ q
      → sample_at (with_sample r ch q a) c p ≡ sample_at r c p
  sample_at-with_sample r ch c p q a v lp hp lq hq (inl ne) =
      let apart : c * r.capacity_frames + p % r.capacity_frames
          ≢ ch * r.capacity_frames + q % r.capacity_frames =
        λ e. ne (
          (cell_injective r.capacity_frames c ch _ _ (mod-lt p v.has_room) (mod-lt q v.has_room)
            e).0) in
      rw (ne→== _ _ apart)
  sample_at-with_sample r ch c p q a v lp hp lq hq (inr ne) = elim (dec_lt p q) [
    | yes lt ↦ rw (ne→== _ _ (cells_apart r c ch p q v lt (omega arith)))
    | no ge ↦
        let apart = cells_apart r ch c q p v (omega arith) (omega arith) in
        rw (ne→== _ _ (λ e. apart (sym e)))
  ]

  pub sample_at-with_sample_self :
      (r : Ring A) (ch q : ℕ) (a : A) → sample_at (with_sample r ch q a) ch q ≡ a
  sample_at-with_sample_self r ch q a = rw (eq→== _ _ refl)

  pub with_sample-IsValid :
      (r : Ring A) (ch q : ℕ) (a : A) → IsValid r → IsValid (with_sample r ch q a)
  with_sample-IsValid r ch q a v = record {
    has_room = v.has_room;
    capacity_fits = v.capacity_fits;
    ordered = v.ordered;
    within = v.within;
    position_fits = v.position_fits;
  }
