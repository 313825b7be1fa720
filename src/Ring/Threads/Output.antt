-- ===== src/Ring/Threads/Output.antt =====
-- src/shared_audio.c: what the reader's thread has in its output between any two steps.
use native.Mathlib.Decide.{ℕ_discrete}
use reac_jack.Common.{Buffer, arith, eq→==, ne→==, true, update, ℕ, ◌*◌, ◌+◌, ◌<◌, ◌≡◌, ◌≤◌, ◌⊎◌}
use reac_jack.Common.Modular.{cell_injective}
use reac_jack.Ring.{Ring}
use reac_jack.Ring.Threads.{Reader, copies, dropping, seeking, reading, returned, waiting}
use reac_jack.Ring.Threads.Shared.{is_copied}

module _ {A : Type 0} (silence : A) where
  -- An interleaved output: the samples that are copied are the writer's, and the rest is silence.
  pub record Output (channels : ℕ) (put : Buffer (Buffer A)) (out : Buffer A)
      (out_channels frames n at ch f : ℕ) : Type 0 where
    pub copied :
        (c i : ℕ)
        → c < copies channels out_channels
        → i < n
        → is_copied c i ch f ≡ true
        → out (i * out_channels + c) ≡ put c (at + i)
    pub silent :
        (c i : ℕ)
        → c < out_channels
        → i < frames
        → (copies channels out_channels ≤ c) ⊎ (n ≤ i)
        → out (i * out_channels + c) ≡ silence

  pub record Reading (r : Ring A) (put : Buffer (Buffer A)) (out : Buffer A)
      (out_channels frames n at ch f : ℕ) : Type 0 where
    pub here : at ≡ r.read_pos
    pub available : r.read_pos + n ≤ r.write_pos
    pub request : n ≤ frames
    pub channel : ch ≤ copies r.channels out_channels
    pub frame : f ≤ n
    pub output : Output r.channels put out out_channels frames n at ch f

  -- After a call: the frames have left the ring.
  pub record Gave (r : Ring A) (put : Buffer (Buffer A)) (out : Buffer A)
      (out_channels frames n at : ℕ) : Type 0 where
    pub moved : at + n ≡ r.read_pos
    pub request : n ≤ frames
    pub output :
        Output r.channels put out out_channels frames n at (copies r.channels out_channels) 0

  abbrev pub ReaderInv : Ring A → Buffer (Buffer A) → Reader A → Type 0
  ReaderInv r put waiting = Unit {0}
  ReaderInv r put (reading out out_channels frames n at ch f) =
      Reading r put out out_channels frames n at ch f
  ReaderInv r put (returned out out_channels frames n at) = Gave r put out out_channels frames n at
  ReaderInv r put (dropping drop) = r.read_pos + drop ≤ r.write_pos
  ReaderInv r put (seeking position) = (r.read_pos ≤ position) × (position ≤ r.write_pos)

  -- The sample that the next step stores.
  pub copied-Output :
      (r : Ring A) (put : Buffer (Buffer A)) (out : Buffer A) (out_channels frames n at ch f : ℕ)
      (a : A)
      → Output r.channels put out out_channels frames n at ch f
      → ch < copies r.channels out_channels
      → f < n
      → a ≡ put ch (at + f)
      → Output r.channels put
          (update out (f * out_channels + ch) a)
          out_channels
          frames
          n
          at
          ch
          (f + 1)
  copied-Output r put out out_channels frames n at ch f a o hc hf e = record {
    copied = λ c i p q t. elim (ℕ_discrete (i * out_channels + c) (f * out_channels + ch)) [
      | yes same ↦
          let (frame, channel) =
            cell_injective out_channels i f c ch (ground arith) (ground arith) same in
          rw (eq→== _ _ same, e, frame, channel)
      | no other ↦ rw (ne→== _ _ other) (
          o.copied c i p q (
            let apart : (c ≡ ch) → (i ≡ f) → ⊥ = λ u v. other (rw (u, v)) in
            elim (ℕ_discrete c ch) [
              | yes u ↦ elim (ℕ_discrete i f) [ yes v ↦ absurd (apart u v) | no v ↦ ground arith ]
              | no u ↦ ground arith
            ]))
    ];
    silent = λ c i p q w. elim (ℕ_discrete (i * out_channels + c) (f * out_channels + ch)) [
      | yes same ↦
          let (frame, channel) = cell_injective out_channels i f c ch p (ground arith) same in
          absurd (ground arith)
      | no other ↦ rw (ne→== _ _ other) (o.silent c i p q w)
    ];
  }
