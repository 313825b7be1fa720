-- ===== src/Ring/Regulate.antt =====
-- src/shared_audio.c: how `shared_audio_read_interleaved_regulated` corrects the fill.
use reac_jack.Common.{
  ℕ, ◌+◌, ◌-◌, ◌*◌, ◌^◌, ◌≤◌, ◌<◌, ◌≡◌, ap, ◌∙◌, arith, min, ◌&&◌, Buffer, ltb, ltb→lt, leb,
  if◌then◌else◌, u32, u64, sub64, Bool-cases, true, false, inl, inr, ◌⊎◌, ◌||◌,
}
use reac_jack.Ring.{
  Ring, Header, max_correction, read_interleaved, read_dropping, read_inserting, read_regulated,
  at_most,
}
use reac_jack.Ring.Interleaved.{frame_out, read_interleaved_lem}
use reac_jack.Ring.Repeat.{stretch_last, stretch_silence}
use reac_jack.Ring.Valid.{IsValid, fill}

module _ {A : Type 0} where
  -- The corrections, in frames.
  abbrev pub drop_of : Ring A → ℕ → ℕ
  drop_of r target = min (fill r - target) 8

  abbrev pub insert_of : Ring A → ℕ → ℕ → ℕ
  insert_of r target frames = min (min (target - fill r) 8) frames

  abbrev pub dropped : Ring A → ℕ → Ring A
  dropped r drop = record r {
    header = record r.header {
      read_pos = r.read_pos + drop;
      dropped_frames = u64 (r.dropped_frames + drop);
    };
  }

module _ {A : Type 0} (silence : A) where
  read_dropping-dropped :
      (r : Ring A) (out : Buffer A) (oc frames target : ℕ)
      → IsValid r
      → target < fill r
      → read_dropping silence r out oc frames target
        ≡ read_interleaved silence (dropped r (drop_of r target)) out oc frames
  unfolding read_dropping
  read_dropping-dropped r out oc frames target v h =
      let amount : at_most (u32 (sub64 (sub64 r.write_pos r.read_pos) target)) max_correction
          ≡ drop_of r target =
        ground arith in
      let position : u64 (r.read_pos + drop_of r target) ≡ r.read_pos + drop_of r target =
        omega arith in
      rw (amount, position)

  -- The output of a read that inserts: `n` frames are read, and from `frames - insert` on the output
  -- repeats the last of them, or is silent if there is none.
  abbrev pub stretched : Ring A → Buffer A → ℕ → ℕ → ℕ → ℕ → ℕ → ℕ → A
  stretched r out oc insert n frames f c =
      if ltb f (frames - insert) || leb frames f
      then frame_out silence r out oc n (frames - insert) f c
      else if ltb 0 n
      then frame_out silence r out oc n (frames - insert) (n - 1) c
      else silence

  pub record Inserted (r : Ring A) (out : Buffer A) (oc frames target : ℕ)
      (result : ℕ × Buffer A × Ring A) : Type 0 where
    pub count : result.0 ≡ min (fill r) (frames - insert_of r target frames)
    pub output :
        (f c : ℕ)
        → c < oc
        → result.1 (f * oc + c) ≡ stretched r out oc (insert_of r target frames) result.0 frames f c
    pub inserted : result.2.inserted_frames ≡ (
        if ltb 0 result.0
        then u64 (r.inserted_frames + insert_of r target frames)
        else r.inserted_frames)
    pub position : result.2.read_pos ≡ r.read_pos + result.0
    pub kept : result.2.dropped_frames ≡ r.dropped_frames
    pub valid : IsValid result.2

  read_inserting-Inserted :
      (r : Ring A) (out : Buffer A) (oc frames target : ℕ)
      → IsValid r
      → fill r < target
      → target < 2 ^ 32
      → Inserted r out oc frames target (read_inserting silence r out oc frames target)
  unfolding read_inserting
  read_inserting-Inserted r out oc frames target v h small =
      let insert = insert_of r target frames in
      let t = frames - insert in
      let correction = at_most (u32 (sub64 target (sub64 r.write_pos r.read_pos))) max_correction in
      let amount : (if ltb frames correction then frames else correction) ≡ insert = ground arith in
      let facts = read_interleaved_lem silence r out oc t v in
      let n = (read_interleaved silence r out oc t).0 in
      let out' = (read_interleaved silence r out oc t).1 in
      let shown = frame_out silence r out oc n t in
      let whole : t + insert ≡ frames = omega arith in
      rw amount (elim (Bool-cases (ltb 0 n)) [
        | inl some_frames ↦ rw some_frames (record {
          count = facts.0;
          output = λ f c hc.
              stretch_last oc out' shown facts.1 t insert n f c (ltb→lt 0 n some_frames)
                (omega (arith, facts.0)) hc
              ∙ rw (some_frames, whole);
          inserted = ap (λ (h : Header). u64 (h.inserted_frames + insert)) facts.3 ∙ rw some_frames;
          position = ap (λ (h : Header). h.read_pos) facts.3;
          kept = ap (λ (h : Header). h.dropped_frames) facts.3;
          valid = let valid = facts.4 in omega arith;
        })
        | inr no_frames ↦ rw no_frames (record {
          count = facts.0;
          output = λ f c hc.
              stretch_silence oc out' shown facts.1 t insert silence f c hc ∙ rw (no_frames, whole);
          inserted = ap (λ (h : Header). h.inserted_frames) facts.3 ∙ rw no_frames;
          position = ap (λ (h : Header). h.read_pos) facts.3;
          kept = ap (λ (h : Header). h.dropped_frames) facts.3;
          valid = facts.4;
        })
      ])

  -- Above `target + tolerance` the call reads as if the oldest frames were gone, 8 at most and none
  -- below the target: that ring is valid, has counted them in `dropped_frames`, and still holds at
  -- least the target.
  pub read_regulated_drops :
      (r : Ring A) (out : Buffer A) (oc frames target tolerance : ℕ)
      → IsValid r
      → target < 2 ^ 32
      → tolerance < 2 ^ 32
      → target + tolerance < fill r
      → let after = dropped r (drop_of r target) in
        (read_regulated silence r out oc frames target tolerance
          ≡ read_interleaved silence after out oc frames)
        × IsValid after
        × (target ≤ fill after)
        × (fill after + drop_of r target ≡ fill r)
  unfolding read_regulated
  read_regulated_drops r out oc frames target tolerance v ht hl h =
      let above : ltb (u64 (target + tolerance)) (sub64 r.write_pos r.read_pos) ≡ true =
        ground arith in
      (
        rw above (read_dropping-dropped r out oc frames target v (omega arith)),
        omega arith,
        omega arith,
        omega arith,
      )

  -- Below `target - tolerance`, the call fills up the output with at most 8 copies of the last
  -- frame that it read, as many as the target lacks and the request has, and counts them in
  -- `inserted_frames`; with nothing to read it gives silence and counts none.
  pub read_regulated_inserts :
      (r : Ring A) (out : Buffer A) (oc frames target tolerance : ℕ)
      → IsValid r
      → target < 2 ^ 32
      → tolerance < 2 ^ 32
      → fill r + tolerance < target
      → 0 < frames
      → Inserted r out oc frames target (read_regulated silence r out oc frames target tolerance)
  unfolding read_regulated
  read_regulated_inserts r out oc frames target tolerance v ht hl h hf =
      let not_above : ltb (u64 (target + tolerance)) (sub64 r.write_pos r.read_pos) ≡ false =
        ground arith in
      let below : (ltb (u64 (sub64 r.write_pos r.read_pos + tolerance)) target && ltb 0 frames)
          ≡ true =
        ground arith in
      rw (not_above, below) (read_inserting-Inserted r out oc frames target v (omega arith) ht)

  -- Within the tolerance, and for an empty request that is not above it, the call is
  -- `shared_audio_read_interleaved`.
  pub read_regulated_within :
      (r : Ring A) (out : Buffer A) (oc frames target tolerance : ℕ)
      → IsValid r
      → target < 2 ^ 32
      → tolerance < 2 ^ 32
      → fill r ≤ target + tolerance
      → (target ≤ fill r + tolerance) ⊎ (frames ≡ 0)
      → read_regulated silence r out oc frames target tolerance
        ≡ read_interleaved silence r out oc frames
  unfolding read_regulated
  read_regulated_within r out oc frames target tolerance v ht hl h k =
      let not_above : ltb (u64 (target + tolerance)) (sub64 r.write_pos r.read_pos) ≡ false =
        ground arith in
      let not_below : (ltb (u64 (sub64 r.write_pos r.read_pos + tolerance)) target && ltb 0 frames)
          ≡ false =
        ground arith in
      rw (not_above, not_below)
