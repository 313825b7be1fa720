-- ===== src/Ring/Repeat.antt =====
-- src/shared_audio.c: the loop that stretches a short read by its last frame.
use native.Mathlib.Decide.{ℕ_discrete}
use reac_jack.Common.{
  ℕ, zero, suc, ◌+◌, ◌-◌, ◌*◌, ◌≤◌, ◌<◌, ◌≡◌, arith, ◌&&◌, ◌||◌, Buffer, ltb, leb, ◌==◌,
  if◌then◌else◌, memcpy, memcpy-at, offset, memset, memset-at,
}
use reac_jack.Common.Modular.{rows_apart, row-lt}
use reac_jack.Ring.{repeat_frame}

rows_mono : (oc m n : ℕ) → m ≤ n → m * oc ≤ n * oc
rows_mono oc m n h = grind arith

module _ {A : Type 0} (oc : ℕ) where
  -- One round: frame `k` becomes frame `l`.
  copy_frame-cell :
      (out : Buffer A) (k l f c : ℕ)
      → c < oc
      → memcpy out (k * oc) (offset out (l * oc)) oc (f * oc + c)
        ≡ (if f == k then out (l * oc + c) else out (f * oc + c))
  copy_frame-cell out k l f c h = elim (ℕ_discrete f k) [
    | yes same ↦
        rw same (ground (arith, memcpy-at out (k * oc) (offset out (l * oc)) oc (k * oc + c)))
    | no other ↦ ground (
      arith,
      memcpy-at out (k * oc) (offset out (l * oc)) oc (f * oc + c),
      rows_apart oc k f c h (λ e. other (omega arith)),
    )
  ]

  -- The frames from `t + i` on become copies of frame `l`, which stands before them.
  pub repeat_frame-at :
      (t l left i : ℕ) (out : Buffer A) (f c : ℕ)
      → l < t
      → c < oc
      → repeat_frame (t * oc) oc (l * oc) left i out (f * oc + c)
        ≡ (if leb (t + i) f && ltb f (t + i + left) then out (l * oc + c) else out (f * oc + c))
  unfolding repeat_frame
  repeat_frame-at t l zero i out f c hl hc = ground arith
  repeat_frame-at t l (suc left) i out f c hl hc =
      let row : t * oc + i * oc ≡ (t + i) * oc = omega arith in
      let next = memcpy out ((t + i) * oc) (offset out (l * oc)) oc in
      rw row (
        ground (
          arith,
          repeat_frame-at t l left (i + 1) next f c,
          copy_frame-cell out (t + i) l f c,
          copy_frame-cell out (t + i) l l c,
        ))

  -- `memset` over `k` whole frames from frame `t` on.
  pub memset-rows :
      (out : Buffer A) (t : ℕ) (a : A) (k f c : ℕ)
      → c < oc
      → memset out (t * oc) a (k * oc) (f * oc + c)
        ≡ (if leb t f && ltb f (t + k) then a else out (f * oc + c))
  memset-rows out t a k f c h =
      let both : t * oc + k * oc ≡ (t + k) * oc = omega arith in
      ground (
        arith,
        memset-at out (t * oc) a (k * oc) (f * oc + c),
        both,
        rows_mono oc t f,
        rows_mono oc (t + k) f,
        row-lt oc f t c 0 h,
        row-lt oc f (t + k) c 0 h,
      )

  -- An output whose frames are `x f c`, with `k` frames from `t` on stretched.
  module _ (out : Buffer A) (x : ℕ → ℕ → A)
      (shows : (f c : ℕ) → c < oc → out (f * oc + c) ≡ x f c) where
    pub stretch_last :
        (t k n f c : ℕ)
        → 0 < n
        → n ≤ t
        → c < oc
        → repeat_frame (t * oc) oc ((n - 1) * oc) k 0 out (f * oc + c)
          ≡ (if ltb f t || leb (t + k) f then x f c else x (n - 1) c)
    stretch_last t k n f c hn ht hc =
        ground (arith, repeat_frame-at t (n - 1) k 0 out f c, shows f c hc, shows (n - 1) c hc)

    pub stretch_silence :
        (t k : ℕ) (a : A) (f c : ℕ)
        → c < oc
        → memset out (t * oc) a (k * oc) (f * oc + c)
          ≡ (if ltb f t || leb (t + k) f then x f c else a)
    stretch_silence t k a f c hc = ground (arith, memset-rows out t a k f c, shows f c hc)
