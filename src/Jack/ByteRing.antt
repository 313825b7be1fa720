-- ===== src/Jack/ByteRing.antt =====
-- The byte ring of JACK's library (`jack_ringbuffer_t`), which is not in the repository: its
-- operations, and what its documentation says of them.
use reac_jack.Common.{Buffer, List, [], tabulate, ℕ, ◌++◌, ◌≡◌, ◌≤◌}

pub record ByteRing : Type 1 where
  pub R : Type 0
  pub write_space : R → ℕ
  pub read_space : R → ℕ
  pub write : R → Buffer ℕ → ℕ → ℕ × R
  pub read : R → Buffer ℕ → ℕ → ℕ × Buffer ℕ × R
  pub reset : R → R
  -- The bytes that it holds, oldest first.
  pub contents : R → List ℕ

-- A write of what fits takes all of it; a read of what is there gives the oldest bytes; a reset
-- leaves none.
pub record Behaves (J : ByteRing) : Type 0 where
  pub write_fits :
      (r : J.R) (p : Buffer ℕ) (n : ℕ)
      → n ≤ J.write_space r
      → ((J.write r p n).0 ≡ n) × (J.contents ((J.write r p n).1) ≡ J.contents r ++ tabulate n p)
  pub read_there :
      (r : J.R) (out : Buffer ℕ) (n : ℕ)
      → n ≤ J.read_space r
      → let (count, out', r') = J.read r out n in
        (count ≡ n) × (J.contents r ≡ tabulate n out' ++ J.contents r')
  pub reset_empties : (r : J.R) → J.contents (J.reset r) ≡ []
