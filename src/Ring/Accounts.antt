-- ===== src/Ring/Accounts.antt =====
-- src/shared_audio.c: where the frames of a regulated read go.
use native.Mathlib.Nat.{mod-eq_of_lt}
use native.Mathlib.Decide.{dec_lt}
use reac_jack.Common.{ℕ, ◌+◌, ◌^◌, ◌≤◌, ◌<◌, ◌≡◌, ap, ◌∙◌, arith, Buffer, inl, inr}
use reac_jack.Ring.{Ring, Header, max_correction, read_interleaved, read_regulated}
use reac_jack.Ring.Interleaved.{read_interleaved_lem}
use reac_jack.Ring.Valid.{IsValid, fill}
use reac_jack.Ring.Regulate.{
  drop_of, dropped, Inserted, read_regulated_drops, read_regulated_inserts, read_regulated_within,
}

module _ {A : Type 0} where
  -- How the frames of one call are accounted for.
  pub record Accounts (r : Ring A) (frames : ℕ) (result : ℕ × Buffer A × Ring A) : Type 0 where
    pub valid : IsValid result.2
    pub returned : result.0 ≤ frames
    pub conserved :
        result.2.read_pos + r.dropped_frames ≡ r.read_pos + result.0 + result.2.dropped_frames
    pub corrected : result.2.dropped_frames ≤ r.dropped_frames + max_correction

module _ {A : Type 0} (silence : A) where
  interleaved-Accounts :
      (r : Ring A) (out : Buffer A) (oc frames : ℕ)
      → IsValid r
      → Accounts r frames (read_interleaved silence r out oc frames)
  interleaved-Accounts r out oc frames v =
      let facts = read_interleaved_lem silence r out oc frames v in
      let count = facts.0 in
      let position : (read_interleaved silence r out oc frames).2.read_pos
          ≡ r.read_pos + (read_interleaved silence r out oc frames).0 =
        ap (λ (h : Header). h.read_pos) facts.3 in
      let same : (read_interleaved silence r out oc frames).2.dropped_frames ≡ r.dropped_frames =
        ap (λ (h : Header). h.dropped_frames) facts.3 in
      record {
        valid = facts.4;
        returned = omega arith;
        conserved = omega arith;
        corrected = omega arith;
      }

  Inserted-Accounts :
      (r : Ring A) (out : Buffer A) (oc frames target : ℕ) (result : ℕ × Buffer A × Ring A)
      → Inserted silence r out oc frames target result
      → Accounts r frames result
  Inserted-Accounts r out oc frames target result h = record {
    valid = h.valid;
    returned = let count = h.count in omega arith;
    conserved = let position = h.position in let kept = h.kept in omega arith;
    corrected = let kept = h.kept in omega arith;
  }

  -- On every branch the ring stays valid, and each frame that leaves it is returned or counted in
  -- `dropped_frames`, which grows by at most 8 a call. (The counter is taken not to wrap.)
  pub read_regulated-Accounts :
      (r : Ring A) (out : Buffer A) (oc frames target tolerance : ℕ)
      → IsValid r
      → target < 2 ^ 32
      → tolerance < 2 ^ 32
      → r.dropped_frames + max_correction < 2 ^ 64
      → Accounts r frames (read_regulated silence r out oc frames target tolerance)
  read_regulated-Accounts r out oc frames target tolerance v ht hl hd =
      elim (dec_lt (target + tolerance) (fill r)) [
        | yes above ↦
            let drops =
              read_regulated_drops silence r out oc frames target tolerance v ht hl above in
            let rest = interleaved-Accounts (dropped r (drop_of r target)) out oc frames drops.1 in
            let kept : (read_interleaved silence (dropped r (drop_of r target)) out oc
                  frames).2.dropped_frames
                ≡ r.dropped_frames + drop_of r target =
              ap (λ (h : Header). h.dropped_frames)
                (read_interleaved_lem silence (dropped r (drop_of r target)) out oc frames
                  drops.1).3
              ∙ mod-eq_of_lt (omega arith) in
            rw drops.0 (record {
              valid = rest.valid;
              returned = rest.returned;
              conserved = omega (arith, rest.conserved);
              corrected = omega (arith, kept);
            })
        | no not_above ↦ elim (dec_lt (fill r + tolerance) target) [
          | yes below ↦ elim (dec_lt 0 frames) [
            | yes asked ↦ Inserted-Accounts r out oc frames target _ (
                read_regulated_inserts silence r out oc frames target tolerance v ht hl below asked)
            | no empty ↦
                rw
                  (read_regulated_within silence r out oc frames target tolerance v ht hl
                    (omega arith) (inr (omega arith)))
                  (interleaved-Accounts r out oc frames v)
          ]
          | no not_below ↦
              rw
                (read_regulated_within silence r out oc frames target tolerance v ht hl
                  (omega arith) (inl (omega arith)))
                (interleaved-Accounts r out oc frames v)
        ]
      ]
