-- ===== src/Ring/Seek.antt =====
-- src/shared_audio.c: `shared_audio_seek_to_fill` aligns the fill.
use reac_jack.Common.{
  ℕ, ◌+◌, ◌-◌, ◌≡◌, refl, ap, ◌∙◌, arith, min, ◌++◌, tabulate, u64, tabulate_ext, tabulate-add,
}
use reac_jack.Ring.{Ring, seek_to_fill}
use reac_jack.Ring.Valid.{IsValid, fill, sample_at, contents}

module _ {A : Type 0} where
  abbrev sought : Ring A → ℕ → Ring A
  sought r n = record r {
    header = record r.header { read_pos = r.write_pos - n; resets = u64 (r.resets + 1) };
  }

  seek_to_fill-sought :
      (r : Ring A) (target : ℕ)
      → IsValid r
      → seek_to_fill r target ≡ (min (fill r) target, sought r (min (fill r) target))
  unfolding seek_to_fill
  seek_to_fill-sought r target v = ground arith

  -- `shared_audio_seek_to_fill` leaves the smaller of the fill and the target, and returns it. The
  -- oldest frames go, the newest stay, one reset is counted, and the ring stays valid.
  pub seek_to_fill_lem :
      (r : Ring A) (target : ℕ)
      → IsValid r
      → let (n, r') = seek_to_fill r target in
        (n ≡ min (fill r) target)
        × (fill r' ≡ n)
        × ((ch : ℕ)
            → contents r ch
              ≡ tabulate (fill r - n) (λ i. sample_at r ch (r.read_pos + i)) ++ contents r' ch)
        × (r'.header ≡ record r.header { read_pos = r.write_pos - n; resets = u64 (r.resets + 1) })
        × IsValid r'
  seek_to_fill_lem r target v =
      let n = min (fill r) target in
      let gone = fill r - n in
      let total : fill r ≡ gone + fill (sought r n) = omega arith in
      rw (seek_to_fill-sought r target v) (
        refl,
        omega arith,
        λ ch.
            ap (λ (k : ℕ). tabulate k (λ i. sample_at r ch (r.read_pos + i))) total
            ∙ tabulate-add gone (fill (sought r n)) _
            ∙ ap (λ l. tabulate gone (λ i. sample_at r ch (r.read_pos + i)) ++ l)
                (tabulate_ext _ _ _ (λ i p. ap (sample_at r ch) (omega arith))),
        refl,
        omega arith,
      )
