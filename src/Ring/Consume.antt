-- ===== src/Ring/Consume.antt =====
-- src/shared_audio.c: what every read leaves in the header, and what then is off the ring.
use reac_jack.Common.{
  ℕ, ◌+◌, ◌≤◌, ◌≡◌, ap, ◌∙◌, arith, min, ◌++◌, tabulate, ltb, if◌then◌else◌, u64, tabulate_ext,
  tabulate-add,
}
use reac_jack.Ring.{Ring, readable_of, consumed}
use reac_jack.Ring.Valid.{IsValid, fill, sample_at, contents}

module _ {A : Type 0} where
  -- What can be read of `frames`.
  pub readable_of_lem :
      (r : Ring A) (frames : ℕ) → IsValid r → readable_of r frames ≡ min (fill r) frames
  readable_of_lem r frames v = ground arith

  -- The ring after a read of `n` of `frames` frames.
  abbrev pub after_read : Ring A → ℕ → ℕ → Ring A
  after_read r n frames = record r { header = consumed r.header n frames }

  -- The read position goes on by the frames read, the underruns by one if frames were missing, and
  -- nothing else changes.
  pub after_read-header :
      (r : Ring A) (n frames : ℕ)
      → IsValid r
      → n ≤ fill r
      → consumed r.header n frames ≡ record r.header {
        underruns = if ltb n frames then u64 (r.underruns + 1) else r.underruns;
        read_pos = r.read_pos + n;
      }
  after_read-header r n frames v h = ground arith

  pub after_read-IsValid :
      (r : Ring A) (n frames : ℕ) → IsValid r → n ≤ fill r → IsValid (after_read r n frames)
  after_read-IsValid r n frames v h = omega arith

  -- Those frames are the oldest ones of each channel.
  pub after_read-contents :
      (r : Ring A) (n frames ch : ℕ)
      → IsValid r
      → n ≤ fill r
      → contents r ch
        ≡ tabulate n (λ i. sample_at r ch (r.read_pos + i)) ++ contents (after_read r n frames) ch
  after_read-contents r n frames ch v h =
      let total : fill r ≡ n + fill (after_read r n frames) = omega arith in
      ap (λ (k : ℕ). tabulate k (λ i. sample_at r ch (r.read_pos + i))) total
      ∙ tabulate-add n (fill (after_read r n frames)) _
      ∙ ap (λ l. tabulate n (λ i. sample_at r ch (r.read_pos + i)) ++ l)
          (tabulate_ext _ _ _ (λ i p. ap (sample_at r ch) (omega arith)))
