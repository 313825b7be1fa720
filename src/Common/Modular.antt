-- ===== src/Common/Modular.antt =====
-- Positions in an array that is used in a circle, and cells of an array of rows.
use Prim.Native.Nat.{ℕ, ◌+◌, ◌-◌, ◌*◌, ◌%◌, ◌≤◌, ◌<◌}
use mathlib.Core.Path.{◌≡◌, sym, ap, ◌∙◌}
use mathlib.Core.Logic.{◌⊎◌, inl, inr, ◌≢◌}
use native.Mathlib.Nat.{mod-lt, mod-eq_of_lt, mod-eq-sub-mod, mod-add-mod}
use native.Mathlib.Decide.{dec_lt}
use native.Mathlib.Omega.{arith}
use reac_jack.Common.Test.{ltb, if◌then◌else◌}

-- The index `n` steps on from the index `i`, round a circle of `capacity` at most once.
abbrev pub round : ℕ → ℕ → ℕ → ℕ
round capacity i n = if ltb (i + n) capacity then i + n else i + n - capacity

pub mod_round :
    (capacity i n : ℕ) → i < capacity → n ≤ capacity → (i + n) % capacity ≡ round capacity i n
mod_round capacity i n hi hn = elim (dec_lt (i + n) capacity) [
  | yes p ↦ ground (arith, mod-eq_of_lt {n = i + n} {m = capacity} p)
  | no p ↦ ground (
    arith,
    mod-eq-sub-mod {n = i + n} {m = capacity} (omega arith),
    mod-eq_of_lt {n = i + n - capacity} {m = capacity} (omega arith),
  )
]

-- The same from any position, by its index.
pub mod_step :
    (capacity p n : ℕ)
    → 0 < capacity
    → n ≤ capacity
    → (p + n) % capacity ≡ round capacity (p % capacity) n
mod_step capacity p n hc hn =
    sym (mod-add-mod p capacity n) ∙ mod_round capacity (p % capacity) n (mod-lt p hc) hn

-- Positions less than a lap apart share no index.
pub mod_injective :
    (capacity p j k : ℕ)
    → 0 < capacity
    → j < capacity
    → k < capacity
    → (p + j) % capacity ≡ (p + k) % capacity
    → j ≡ k
mod_injective capacity p j k hc hj hk e = ground (
  arith,
  mod-lt p {m = capacity} hc,
  mod_step capacity p j hc (omega arith),
  mod_step capacity p k hc (omega arith),
)

pub row-lt : (capacity c d i j : ℕ) → i < capacity → c < d → c * capacity + i < d * capacity + j
row-lt capacity c d i j hi h = grind arith

-- Cells of different rows are different.
pub cell_injective :
    (capacity c d i j : ℕ)
    → i < capacity
    → j < capacity
    → c * capacity + i ≡ d * capacity + j
    → (c ≡ d) × (i ≡ j)
cell_injective capacity c d i j hi hj e = elim (dec_lt c d) [
  | yes p ↦ absurd (omega (arith, row-lt capacity c d i j hi p))
  | no p ↦ elim (dec_lt d c) [
    | yes q ↦ absurd (omega (arith, row-lt capacity d c j i hj q))
    | no q ↦
        let same : c ≡ d = omega arith in (same, omega (arith, ap (λ (t : ℕ). t * capacity) same))
  ]
]

pub cell-lt : (capacity c n i : ℕ) → i < capacity → c < n → c * capacity + i < n * capacity
cell-lt capacity c n i hi hc = grind arith

-- A cell of one row lies before or behind all of another row.
pub rows_apart :
    (capacity c d i : ℕ)
    → i < capacity
    → c ≢ d
    → (d * capacity + i < c * capacity) ⊎ (c * capacity + capacity ≤ d * capacity + i)
rows_apart capacity c d i hi ne = elim (dec_lt d c) [
  | yes p ↦ inl (omega (arith, row-lt capacity d c i 0 hi p))
  | no p ↦ inr (grind arith)
]

pub row_end : (capacity c n : ℕ) → c < n → c * capacity + capacity ≤ n * capacity
row_end capacity c n h = grind arith
