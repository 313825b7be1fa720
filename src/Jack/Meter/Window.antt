-- ===== src/Jack/Meter/Window.antt =====
-- src/reacjack.c: the peak that the display shows is that of the last 400 periods.
use reac_jack.Common.{
  Bool-cases, Buffer, ap, arith, false, if◌then◌else◌, inl, inr, refl, suc, sym, true, zero, ℕ, ◌%◌,
  ◌*◌, ◌+◌, ◌<◌, ◌==◌, ◌∙◌, ◌≡◌, ◌≢◌, ◌≤◌, ◌⊎◌,
}
use reac_jack.Jack.Meter.{Double, Meter, first_meter, measure}
use reac_jack.Jack.Meter.Peak.{
  IsOrdered, greatest, greatest-IsFound, greatest_attains, greatest_bounds, not_below_trans,
}
use reac_jack.Jack.Meter.Peak.Periods.{Period, level, measure-Measured, sample_level}

module _ (D : Double) where
  -- The meter after `k` callbacks, each with so many channels.
  unfoldable pub measures : ℕ → (ℕ → Period) → ℕ → Meter D
  measures channels periods zero = first_meter D
  measures channels periods (suc k) =
      measure D true (periods k).out channels (periods k).nframes (measures channels periods k)

  -- An entry of the kept peaks after `k` callbacks: of one of the last 400, or not yet written.
  abbrev IsKept : (ℕ → Period) → ℕ → ℕ → ℕ → D.W → Type 0
  IsKept periods k c v entry =
      ((k ≤ v) × (entry ≡ D.nought))
      ⊎ ((j : ℕ) × (j < k) × (k ≤ j + 400) × (j % 400 ≡ v) × (entry ≡ level D (periods j) c))

  record Kept (channels : ℕ) (periods : ℕ → Period) (k : ℕ) (m : Meter D) : Type 0 where
    turn : m.meter_iteration ≡ k % 400
    entries : (c v : ℕ) → c < channels → v < 400 → IsKept periods k c v (m.meter_peak (c * 400 + v))

  IsKept-step :
      (periods : ℕ → Period) (k c v : ℕ) (old entry : D.W)
      → v < 400
      → IsKept periods k c v old
      → entry ≡ (if v == k % 400 then level D (periods k) c else old)
      → IsKept periods (suc k) c v entry
  IsKept-step periods k c v old entry small h e = elim (Bool-cases (v == k % 400)) [
    | inl now ↦ inr (k, omega arith, omega arith, ground arith, e ∙ rw now refl)
    | inr other ↦
        let same : entry ≡ old = e ∙ rw other refl in
        let apart : v ≢ k % 400 = ground arith in
        elim h [
          | inl (early, nil) ↦ inl (grind arith, same ∙ nil)
          | inr (j, before, near, slot, found) ↦
              inr (j, omega arith, grind arith, slot, same ∙ found)
        ]
  ]

  measures-Kept :
      (channels : ℕ) (periods : ℕ → Period) (k : ℕ)
      → Kept channels periods k (measures channels periods k)
  unfolding measures
  measures-Kept channels periods zero = record {
    turn = refl;
    entries = λ c v inside small. inl (omega arith, refl);
  }
  measures-Kept channels periods (suc k) =
      let before = measures channels periods k in
      let t = measures-Kept channels periods k in
      let turn = t.turn in
      let next = measure-Measured D (periods k) channels before (omega arith) in
      record {
        turn = next.iteration ∙ omega arith;
        entries = λ c v inside small.
            IsKept-step periods k c v (before.meter_peak (c * 400 + v)) _ small
              (t.entries c v inside small)
              (next.entry c v inside small
                ∙ ap
                    (λ (n : ℕ).
                      if v == n then level D (periods k) c else before.meter_peak (c * 400 + v))
                    turn);
      }

  recent_entry :
      (periods : ℕ → Period) (k c j : ℕ) (entry : D.W)
      → j < k
      → k ≤ j + 400
      → IsKept periods k c (j % 400) entry
      → entry ≡ level D (periods j) c
  recent_entry periods k c j entry past near (inl (early, nil)) = absurd (omega arith)
  recent_entry periods k c j entry past near (inr (i, before, close, slot, found)) =
      let same : i ≡ j = omega arith in found ∙ ap (λ (n : ℕ). level D (periods n) c) same

  -- After some callbacks, each with the same number of channels and any number of frames, what the
  -- metering shows as a channel's peak is, rounded to a float, a value that no sample of the channel
  -- in the last 400 callbacks is above in magnitude, and which is 0 or the magnitude of such a
  -- sample: an older one is forgotten. Comparisons of doubles are taken to be as in `IsOrdered`.
  pub measures_peak :
      (channels : ℕ) (periods : ℕ → Period) (k c : ℕ)
      → IsOrdered D
      → 0 < k
      → c < channels
      → (peak : D.W) × ((measures channels periods k).channel_peak c ≡ D.narrow peak)
        × ((j frame : ℕ)
            → j < k
            → k ≤ j + 400
            → frame < (periods j).nframes
            → D.lt peak (sample_level D (periods j) c frame) ≡ false)
        × ((peak ≡ D.nought)
            ⊎ ((j : ℕ) × (frame : ℕ) × (j < k)
                × (k ≤ j + 400)
                × (frame < (periods j).nframes)
                × (peak ≡ sample_level D (periods j) c frame)))
  unfolding measures
  measures_peak channels periods zero c o some_period inside = absurd (omega arith)
  measures_peak channels periods (suc n) c o some_period inside =
      let after = measures channels periods (suc n) in
      let t = measures-Kept channels periods (suc n) in
      let before = measures-Kept channels periods n in
      let turn = before.turn in
      let next =
        measure-Measured D (periods n) channels (measures channels periods n) (omega arith) in
      let kept : Buffer D.W = λ v. after.meter_peak (c * 400 + v) in
      (
        greatest D D.nought kept 0 400,
        next.shown c inside,
        λ j frame past near there.
            let v = j % 400 in
            let e =
              recent_entry periods (suc n) c j (kept v) past near
                (t.entries c v inside (omega arith)) in
            not_below_trans D (sample_level D (periods j) c frame) (level D (periods j) c)
              (greatest D D.nought kept 0 400) o
              (greatest-IsFound D D.nought (sample_level D (periods j) c) 0 (periods j).nframes
                (inl refl))
              (greatest_bounds D D.nought (sample_level D (periods j) c) 0 (periods j).nframes frame
                o (omega arith) (omega arith))
              (ap (λ w. D.lt (greatest D D.nought kept 0 400) w) (sym e)
                ∙ greatest_bounds D D.nought kept 0 400 v o (omega arith) (omega arith)),
        elim (greatest_attains D D.nought kept 0 400) [
          | inl nil ↦ inl nil
          | inr (v, low, high, same) ↦ elim (t.entries c v inside high) [
            | inl (early, nil) ↦ inl (same ∙ nil)
            | inr (j, past, near, slot, found) ↦
                elim (greatest_attains D D.nought (sample_level D (periods j) c) 0
                  (periods j).nframes) [
                    | inl nil ↦ inl (same ∙ found ∙ nil)
                    | inr (frame, first, there, e) ↦
                        inr (j, frame, past, near, omega arith, same ∙ found ∙ e)
                  ]
          ]
        ],
      )
