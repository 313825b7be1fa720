-- ===== src/Jack/Meter/Peak.antt =====
-- src/reacjack.c: the greatest of values that are met in turn, as the metering finds it.
pub mod Periods
use native.Mathlib.Decide.{dec_lt}
use reac_jack.Common.{
  Bool-cases, Buffer, [], ap, arith, false, inl, inr, refl, suc, sym, true, zero, ℕ, ◌+◌, ◌<◌, ◌∙◌,
  ◌≡◌, ◌≤◌, ◌⊎◌,
}
use reac_jack.Jack.Meter.{Double, raise}

-- What the IEEE comparison gives, NaN included: a value is not below itself; what is above another
-- is not below what that one is not below; and a value that was found above some other, or is 0,
-- passes on what it is not below to what is not below it.
pub record IsOrdered (D : Double) : Type 0 where
  pub irreflexive : (x : D.W) → D.lt x x ≡ false
  pub rises : (x p s : D.W) → D.lt p x ≡ false → D.lt p s ≡ true → D.lt s x ≡ false
  pub above :
      (x y z p : D.W) → D.lt p y ≡ true → D.lt y x ≡ false → D.lt z y ≡ false → D.lt z x ≡ false
  pub above_nought :
      (x z : D.W) → D.lt D.nought x ≡ false → D.lt z D.nought ≡ false → D.lt z x ≡ false

module _ (D : Double) where
  -- The greatest of `p` and the `n` values from `v` on.
  pub greatest : D.W → Buffer D.W → ℕ → ℕ → D.W
  greatest p values v zero = p
  greatest p values v (suc n) = greatest (raise D p (values v)) values (v + 1) n

  abbrev pub IsFound : D.W → Type 0
  IsFound y = (y ≡ D.nought) ⊎ ((p : D.W) × (D.lt p y ≡ true))

  pub not_below_trans :
      (x y z : D.W)
      → IsOrdered D
      → IsFound y
      → D.lt y x ≡ false
      → D.lt z y ≡ false
      → D.lt z x ≡ false
  not_below_trans x y z o (inl nil) h k =
      o.above_nought x z (ap (λ w. D.lt w x) (sym nil) ∙ h) (ap (λ w. D.lt z w) (sym nil) ∙ k)
  not_below_trans x y z o (inr (p, found)) h k = o.above x y z p found h k

  raise_here : (p x : D.W) → IsOrdered D → D.lt (raise D p x) x ≡ false
  raise_here p x o = elim (Bool-cases (D.lt p x)) [
    | inl e ↦ rw e (o.irreflexive x)
    | inr e ↦ rw e e
  ]

  raise_kept : (p x y : D.W) → IsOrdered D → D.lt p x ≡ false → D.lt (raise D p y) x ≡ false
  raise_kept p x y o h = elim (Bool-cases (D.lt p y)) [
    | inl e ↦ rw e (o.rises x p y h e)
    | inr e ↦ rw e h
  ]

  greatest_kept :
      (p x : D.W) (values : Buffer D.W) (v n : ℕ)
      → IsOrdered D
      → D.lt p x ≡ false
      → D.lt (greatest p values v n) x ≡ false
  unfolding greatest
  greatest_kept p x values v zero o h = h
  greatest_kept p x values v (suc n) o h =
      greatest_kept (raise D p (values v)) x values (v + 1) n o (raise_kept p x (values v) o h)

  pub greatest_bounds :
      (p : D.W) (values : Buffer D.W) (v n i : ℕ)
      → IsOrdered D
      → v ≤ i
      → i < v + n
      → D.lt (greatest p values v n) (values i) ≡ false
  unfolding greatest
  greatest_bounds p values v zero i o low high = absurd (omega arith)
  greatest_bounds p values v (suc n) i o low high = elim (dec_lt v i) [
    | yes later ↦
        greatest_bounds (raise D p (values v)) values (v + 1) n i o (omega arith) (omega arith)
    | no here ↦
        let same : v ≡ i = omega arith in
        greatest_kept (raise D p (values v)) (values i) values (v + 1) n o
          (rw (sym same) (raise_here p (values v) o))
  ]

  pub greatest_attains :
      (p : D.W) (values : Buffer D.W) (v n : ℕ)
      → (greatest p values v n ≡ p)
        ⊎ ((i : ℕ) × (v ≤ i) × (i < v + n) × (greatest p values v n ≡ values i))
  unfolding greatest
  greatest_attains p values v zero = inl refl
  greatest_attains p values v (suc n) =
      elim (greatest_attains (raise D p (values v)) values (v + 1) n) [
        | inl kept ↦ elim (Bool-cases (D.lt p (values v))) [
          | inl e ↦ inr (v, omega arith, omega arith, kept ∙ rw e refl)
          | inr e ↦ inl (kept ∙ rw e refl)
        ]
        | inr (i, low, high, same) ↦ inr (i, omega arith, omega arith, same)
      ]

  pub greatest-IsFound :
      (p : D.W) (values : Buffer D.W) (v n : ℕ) → IsFound p → IsFound (greatest p values v n)
  unfolding greatest
  greatest-IsFound p values v zero h = h
  greatest-IsFound p values v (suc n) h =
      greatest-IsFound (raise D p (values v)) values (v + 1) n
        (elim (Bool-cases (D.lt p (values v))) [ inl e ↦ rw e (inr (p, e)) | inr e ↦ rw e h ])
