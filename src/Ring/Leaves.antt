-- ===== src/Ring/Leaves.antt =====
-- src/shared_audio.c: what the reader's calls leave of the ring to the writer.
use reac_jack.Common.{
  Buffer, ap, arith, false, inl, inr, ltb, sub64, sym, true, u64, ℕ, ◌&&◌, ◌+◌, ◌<◌, ◌^◌, ◌≡◌,
}
use reac_jack.Ring.{Header, Ring, read_inserting, read_interleaved, read_regulated, seek_to_fill}
use reac_jack.Ring.Valid.{IsValid, fill}
use reac_jack.Ring.Interleaved.{read_interleaved_lem}
use reac_jack.Ring.Regulate.{
  drop_of, dropped, read_regulated_drops, read_regulated_inserts, read_regulated_within,
}
use native.Mathlib.Decide.{dec_lt}
use mathlib.Core.Path.{subst}
use reac_jack.Ring.Seek.{seek_to_fill_lem}

module _ {A : Type 0} where
  -- A valid ring, with its width, the writer's position and the clock's number as they were.
  pub record Leaves (r r' : Ring A) : Type 0 where
    pub valid : IsValid r'
    pub rows : r'.channels ≡ r.channels
    pub position : r'.write_pos ≡ r.write_pos
    pub sequence : r'.clock_seq ≡ r.clock_seq

module _ {A : Type 0} (silence : A) where
  read_interleaved-Leaves :
      (r : Ring A) (out : Buffer A) (oc frames : ℕ)
      → IsValid r
      → Leaves r (read_interleaved silence r out oc frames).2
  read_interleaved-Leaves r out oc frames v =
      let facts = read_interleaved_lem silence r out oc frames v in
      record {
        valid = facts.4;
        rows = ap (λ (h : Header). h.channels) facts.3;
        position = ap (λ (h : Header). h.write_pos) facts.3;
        sequence = ap (λ (h : Header). h.clock_seq) facts.3;
      }

  read_inserting_header :
      (r : Ring A) (out : Buffer A) (oc frames target : ℕ)
      → let (n, out', r') = read_inserting silence r out oc frames target in
        (r'.channels ≡ r.channels) × (r'.write_pos ≡ r.write_pos) × (r'.clock_seq ≡ r.clock_seq)
  unfolding read_inserting read_interleaved
  read_inserting_header r out oc frames target = ground arith

  read_dropping-Leaves :
      (r : Ring A) (out : Buffer A) (oc frames target : ℕ)
      → IsValid (dropped r (drop_of r target))
      → Leaves r (read_interleaved silence (dropped r (drop_of r target)) out oc frames).2
  read_dropping-Leaves r out oc frames target v =
      let t = read_interleaved-Leaves (dropped r (drop_of r target)) out oc frames v in
      record { valid = t.valid; rows = t.rows; position = t.position; sequence = t.sequence }

  pub read_regulated-Leaves :
      (r : Ring A) (out : Buffer A) (oc frames target tolerance : ℕ)
      → IsValid r
      → target < 2 ^ 32
      → tolerance < 2 ^ 32
      → Leaves r (read_regulated silence r out oc frames target tolerance).2
  unfolding read_regulated
  read_regulated-Leaves r out oc frames target tolerance v ht hl =
      elim (dec_lt (target + tolerance) (fill r)) [
        | yes above ↦
            let drops =
              read_regulated_drops silence r out oc frames target tolerance v ht hl above in
            subst (λ (x : ℕ × Buffer A × Ring A). Leaves r x.2) (sym drops.0)
              (read_dropping-Leaves r out oc frames target drops.1)
        | no not_above ↦ elim (dec_lt (fill r + tolerance) target) [
          | yes below ↦ elim (dec_lt 0 frames) [
            | yes asked ↦
                let t =
                  read_regulated_inserts silence r out oc frames target tolerance v ht hl below
                    asked in
                let (rows, position, sequence) = read_inserting_header r out oc frames target in
                let not_over : ltb (u64 (target + tolerance)) (sub64 r.write_pos r.read_pos)
                    ≡ false =
                  ground arith in
                let under : (ltb (u64 (sub64 r.write_pos r.read_pos + tolerance)) target
                      && ltb 0 frames)
                    ≡ true =
                  ground arith in
                record {
                  valid = t.valid;
                  rows = rw (not_over, under) rows;
                  position = rw (not_over, under) position;
                  sequence = rw (not_over, under) sequence;
                }
            | no empty ↦
                subst (λ (x : ℕ × Buffer A × Ring A). Leaves r x.2)
                  (sym (
                    read_regulated_within silence r out oc frames target tolerance v ht hl
                      (omega arith) (inr (omega arith))))
                  (read_interleaved-Leaves r out oc frames v)
          ]
          | no not_below ↦
              subst (λ (x : ℕ × Buffer A × Ring A). Leaves r x.2)
                (sym (
                  read_regulated_within silence r out oc frames target tolerance v ht hl
                    (omega arith) (inl (omega arith))))
                (read_interleaved-Leaves r out oc frames v)
        ]
      ]

module _ {A : Type 0} where
  pub seek_to_fill-Leaves :
      (r : Ring A) (target : ℕ) → IsValid r → Leaves r (seek_to_fill r target).1
  seek_to_fill-Leaves r target v =
      let facts = seek_to_fill_lem r target v in
      record {
        valid = facts.4;
        rows = ap (λ (h : Header). h.channels) facts.3;
        position = ap (λ (h : Header). h.write_pos) facts.3;
        sequence = ap (λ (h : Header). h.clock_seq) facts.3;
      }
