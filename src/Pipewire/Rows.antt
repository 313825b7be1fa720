-- ===== src/Pipewire/Rows.antt =====
-- Copies and fills of whole rows in an array of rows of `n` cells.
use native.Mathlib.Decide.{dec_lt}
use reac_jack.Common.{
  Buffer, ap, arith, if◌then◌else◌, leb, ltb, memcpy, memcpy-at, memset, memset-at, offset, sym, ℕ,
  ◌&&◌, ◌*◌, ◌+◌, ◌-◌, ◌<◌, ◌∙◌, ◌≡◌,
}
use reac_jack.Common.Modular.{row-lt}

row_at : (n a d c : ℕ) → (a + d) * n + c ≡ a * n + (d * n + c)
row_at n a d c = grind arith

module _ (n a m c : ℕ) (h : c < n) where
  -- A cell of row `j` stands in the rows from `a` to `a + m` as its row does.
  row_inside :
      (j : ℕ)
      → (leb (a * n) (j * n + c) && ltb (j * n + c) (a * n + m * n)) ≡ (leb a j && ltb j (a + m))
  row_inside j =
      let all : a * n + m * n ≡ (a + m) * n = grind arith in
      elim (dec_lt j a) [
        | yes p ↦ ground (arith, row-lt n j a c 0 h p)
        | no p ↦
            let low : a * n + ((j - a) * n + c) ≡ j * n + c =
              sym (row_at n a (j - a) c) ∙ ap (λ (t : ℕ). t * n + c) (omega arith) in
            elim (dec_lt j (a + m)) [
              | yes q ↦ ground (arith, row-lt n j (a + m) c 0 h q)
              | no q ↦
                  let high : (a + m) * n + ((j - (a + m)) * n + c) ≡ j * n + c =
                    sym (row_at n (a + m) (j - (a + m)) c)
                    ∙ ap (λ (t : ℕ). t * n + c) (omega arith) in
                  ground arith
            ]
      ]

module _ {A : Type 0} (n : ℕ) where
  pub rows-memcpy :
      (dst src : Buffer A) (a b m j c : ℕ)
      → c < n
      → memcpy dst (a * n) (offset src (b * n)) (m * n) (j * n + c)
        ≡ (if leb a j && ltb j (a + m) then src ((b + (j - a)) * n + c) else dst (j * n + c))
  rows-memcpy dst src a b m j c h =
      memcpy-at dst (a * n) (offset src (b * n)) (m * n) (j * n + c)
      ∙ rw (row_inside n a m c h j) (elim (dec_lt j a) [
        | yes p ↦ ground arith
        | no p ↦
            let here : b * n + (j * n + c - a * n) ≡ (b + (j - a)) * n + c =
              let low : a * n + ((j - a) * n + c) ≡ j * n + c =
                sym (row_at n a (j - a) c) ∙ ap (λ (t : ℕ). t * n + c) (omega arith) in
              ap (λ (t : ℕ). b * n + t) (omega arith) ∙ sym (row_at n b (j - a) c) in
            ap (λ (t : ℕ). if leb a j && ltb j (a + m) then src t else dst (j * n + c)) here
      ])

  pub rows-memset :
      (dst : Buffer A) (silence : A) (a m j c : ℕ)
      → c < n
      → memset dst (a * n) silence (m * n) (j * n + c)
        ≡ (if leb a j && ltb j (a + m) then silence else dst (j * n + c))
  rows-memset dst silence a m j c h =
      memset-at dst (a * n) silence (m * n) (j * n + c)
      ∙ ap (λ t. if t then silence else dst (j * n + c)) (row_inside n a m c h j)
