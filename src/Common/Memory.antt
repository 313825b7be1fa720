-- ===== src/Common/Memory.antt =====
-- A C array that a pointer shows, as the function from an index to the element there. A write
-- makes a new function. That the code keeps to an array's bounds is a theorem of each component.
use Prim.Native.Nat.{ℕ, zero, suc, ◌+◌, ◌-◌, ◌<◌}
use mathlib.Core.Path.{◌≡◌, refl, sym, ap, ap₂, ◌∙◌}
use mathlib.Core.Option.{Option, none, some}
use mathlib.Core.Bool.{◌&&◌}
use mathlib.Core.List.{List, [], ◌∷◌, ◌++◌}
use native.Mathlib.Omega.{arith}
use reac_jack.Common.Test.{ltb, leb, ◌==◌, if◌then◌else◌}

abbrev pub Buffer {ℓ} : Type ℓ → Type ℓ
Buffer A = ℕ → A

module _ {ℓ} {A : Type ℓ} where
  -- `p + k`
  abbrev pub offset : Buffer A → ℕ → Buffer A
  offset p k = λ i. p (k + i)

  -- `p[k] = a`
  abbrev pub update : Buffer A → ℕ → A → Buffer A
  update p k a = λ i. if i == k then a else p i

  -- `memcpy(dst + at, src, n)`, in elements.
  pub memcpy : Buffer A → ℕ → Buffer A → ℕ → Buffer A
  memcpy dst at src n = λ i. if leb at i && ltb i (at + n) then src (i - at) else dst i

  -- `memset` of `n` elements from `dst + at` on.
  pub memset : Buffer A → ℕ → A → ℕ → Buffer A
  memset dst at a n = λ i. if leb at i && ltb i (at + n) then a else dst i

  -- The first `n` elements.
  abbrev pub tabulate : ℕ → Buffer A → List A
  tabulate zero p = []
  tabulate (suc n) p = p 0 ∷ tabulate n (λ i. p (suc i))

  abbrev pub of_list : A → List A → Buffer A
  of_list d [] i = d
  of_list d (x ∷ xs) zero = x
  of_list d (x ∷ xs) (suc i) = of_list d xs i

  pub memcpy-at :
      (dst : Buffer A) (at : ℕ) (src : Buffer A) (n i : ℕ)
      → memcpy dst at src n i ≡ (if leb at i && ltb i (at + n) then src (i - at) else dst i)
  unfolding memcpy
  memcpy-at dst at src n i = refl

  pub memset-at :
      (dst : Buffer A) (at : ℕ) (a : A) (n i : ℕ)
      → memset dst at a n i ≡ (if leb at i && ltb i (at + n) then a else dst i)
  unfolding memset
  memset-at dst at a n i = refl

  pub tabulate_ext :
      (n : ℕ) (p q : Buffer A) → ((i : ℕ) → i < n → p i ≡ q i) → tabulate n p ≡ tabulate n q
  tabulate_ext zero p q h = refl
  tabulate_ext (suc n) p q h =
      ap₂ ◌∷◌ (h 0 (omega arith)) (tabulate_ext n _ _ (λ i hi. h (suc i) (omega arith)))

  pub tabulate-add :
      (m n : ℕ) (p : Buffer A) → tabulate (m + n) p ≡ tabulate m p ++ tabulate n (offset p m)
  tabulate-add zero n p =
      ap (λ (k : ℕ). tabulate k p) (omega arith)
      ∙ tabulate_ext n p (offset p 0) (λ i h. ap p (omega arith))
  tabulate-add (suc m) n p =
      ap (λ (k : ℕ). tabulate k p) suc_out
      ∙ ap (λ l. p 0 ∷ l)
          (tabulate-add m n (λ i. p (suc i))
            ∙ ap (λ l. tabulate m (λ i. p (suc i)) ++ l)
                (tabulate_ext n _ _ (λ i h. ap p (omega arith))))
    where
      suc_out : suc m + n ≡ suc (m + n)
      suc_out = omega arith

-- The library's `length` counts in another ℕ.
abbrev pub length {ℓ} : {A : Type ℓ} → List A → ℕ
length [] = 0
length (x ∷ xs) = suc (length xs)

abbrev pub get_elem? {ℓ} : {A : Type ℓ} → List A → ℕ → Option A
get_elem? [] i = none
get_elem? (x ∷ l) zero = some x
get_elem? (x ∷ l) (suc i) = get_elem? l i

module _ {ℓ} {A : Type ℓ} where
  pub length-tabulate : (n : ℕ) (p : Buffer A) → length (tabulate n p) ≡ n
  length-tabulate zero p = refl
  length-tabulate (suc n) p = ap suc (length-tabulate n (λ i. p (suc i)))

  pub length-append : (xs ys : List A) → length (xs ++ ys) ≡ length xs + length ys
  length-append [] ys = omega arith
  length-append (x ∷ xs) ys = omega (arith, length-append xs ys)

  pub get_elem?-tabulate :
      (n : ℕ) (p : Buffer A) (i : ℕ) → i < n → get_elem? (tabulate n p) i ≡ some (p i)
  get_elem?-tabulate zero p i h = absurd (omega arith)
  get_elem?-tabulate (suc n) p zero h = refl
  get_elem?-tabulate (suc n) p (suc i) h = get_elem?-tabulate n (λ k. p (suc k)) i (omega arith)

  pub get_elem?-append_right :
      (xs ys : List A) (i : ℕ) → get_elem? (xs ++ ys) (length xs + i) ≡ get_elem? ys i
  get_elem?-append_right [] ys i = ap (get_elem? ys) (omega arith)
  get_elem?-append_right (x ∷ xs) ys i =
      let next : suc (length xs) + i ≡ suc (length xs + i) = omega arith in
      ap (get_elem? (x ∷ (xs ++ ys))) next ∙ get_elem?-append_right xs ys i

  -- What stands behind the first `m` of `m + n` values.
  pub behind_first :
      (m n : ℕ) (p q w : Buffer A) (i : ℕ)
      → tabulate (m + n) p ≡ tabulate m q ++ tabulate n w
      → i < n
      → p (m + i) ≡ w i
  behind_first m n p q w i e h = some_injective (
      sym (get_elem?-tabulate (m + n) p (m + i) (omega arith))
      ∙ ap (λ l. get_elem? l (m + i)) e
      ∙ ap (λ (k : ℕ). get_elem? (tabulate m q ++ tabulate n w) (k + i)) (sym (length-tabulate m q))
      ∙ get_elem?-append_right (tabulate m q) (tabulate n w) i
      ∙ get_elem?-tabulate n w i h)
    where
      some_injective : {x y : A} → some x ≡ some y → x ≡ y
      some_injective e = cc
