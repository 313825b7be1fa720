-- ===== src/Ring/Threads/Alike.antt =====
-- src/shared_audio.c: what is not a step of the reader's thread leaves a call of its alone.
use mathlib.Core.List.{List}
use reac_jack.Common.{Buffer, List, [], arith, refl, suc, ℕ, ◌∷◌, ◌≡◌}
use reac_jack.Ring.Threads.{
  dropping, seeking, Move, Reader, System, Writer, begin_read, begin_write, drop_call, drop_frames,
  move, read_step, read_call, reading, resting, returned, seek, seek_call, waiting, write_step,
  write_call, write_next, writing,
}

abbrev pub reads_made : {A : Type 0} → List (Move A) → ℕ
reads_made [] = 0
reads_made (write_call channels frames ∷ ms) = reads_made ms
reads_made (write_step ∷ ms) = reads_made ms
reads_made (read_step ∷ ms) = suc (reads_made ms)
reads_made (read_call out out_channels frames ∷ ms) = reads_made ms
reads_made (drop_call target_fill tolerance ∷ ms) = reads_made ms
reads_made (seek_call target_fill ∷ ms) = reads_made ms

module _ {A : Type 0} where
  -- What the writer does changes neither the reader nor the number of channels.
  unfoldable pub Alike : System A → System A → Type 0
  Alike s s' = (s'.reader ≡ s.reader) × (s'.ring.channels ≡ s.ring.channels)

  write_next-Alike : (s : System A) (writer : Writer A) → Alike s (write_next s writer)
  unfolding write_next Alike
  write_next-Alike s resting = (refl, refl)
  write_next-Alike s (writing channels frames at ch j) = ground arith

  begin_write-Alike :
      (s : System A) (writer : Writer A) (channels : Buffer (Buffer A)) (frames : ℕ)
      → Alike s (begin_write s writer channels frames)
  unfolding begin_write Alike
  begin_write-Alike s resting channels frames = ground arith
  begin_write-Alike s (writing channels' frames' at ch j) channels frames = (refl, refl)

  -- While a call that reads is on its way, the reader's thread begins no other.
  unfoldable pub IsBusy : Reader A → Type 0
  IsBusy waiting = ⊥
  IsBusy (returned out out_channels frames n at) = ⊥
  IsBusy (dropping drop) = ⊥
  IsBusy (seeking position) = ⊥
  IsBusy (reading out out_channels frames n at ch f) = Unit {0}

  drop_frames-Alike :
      (s : System A) (reader : Reader A) (target_fill tolerance : ℕ)
      → IsBusy reader
      → Alike s (drop_frames s reader target_fill tolerance)
  unfolding drop_frames Alike IsBusy
  drop_frames-Alike s waiting target_fill tolerance busy = absurd busy
  drop_frames-Alike s (returned out out_channels frames n at) target_fill tolerance busy =
      absurd busy
  drop_frames-Alike s (dropping drop) target_fill tolerance busy = absurd busy
  drop_frames-Alike s (seeking position) target_fill tolerance busy = absurd busy
  drop_frames-Alike s (reading out out_channels frames n at ch f) target_fill tolerance busy =
      (refl, refl)

  seek-Alike :
      (s : System A) (reader : Reader A) (target_fill : ℕ)
      → IsBusy reader
      → Alike s (seek s reader target_fill)
  unfolding seek Alike IsBusy
  seek-Alike s waiting target_fill busy = absurd busy
  seek-Alike s (returned out out_channels frames n at) target_fill busy = absurd busy
  seek-Alike s (dropping drop) target_fill busy = absurd busy
  seek-Alike s (seeking position) target_fill busy = absurd busy
  seek-Alike s (reading out out_channels frames n at ch f) target_fill busy = (refl, refl)

module _ {A : Type 0} (silence : A) where
  begin_read-Alike :
      (s : System A) (reader : Reader A) (out : Buffer A) (out_channels frames : ℕ)
      → IsBusy reader
      → Alike s (begin_read silence s reader out out_channels frames)
  unfolding begin_read Alike IsBusy
  begin_read-Alike s waiting out out_channels frames busy = absurd busy
  begin_read-Alike s (returned out' out_channels' frames' n at) out out_channels frames busy =
      absurd busy
  begin_read-Alike s (dropping drop) out out_channels frames busy = absurd busy
  begin_read-Alike s (seeking position) out out_channels frames busy = absurd busy
  begin_read-Alike s (reading out' out_channels' frames' n at ch f) out out_channels frames busy =
      (refl, refl)

  -- What is not a step of the reader's leaves a call of its alone.
  pub rest-Alike :
      (s : System A) (m : Move A)
      → reads_made (m ∷ []) ≡ 0
      → IsBusy s.reader
      → Alike s (move silence s m)
  unfolding move
  rest-Alike s (write_call channels frames) e busy = begin_write-Alike s s.writer channels frames
  rest-Alike s write_step e busy = write_next-Alike s s.writer
  rest-Alike s read_step e busy = absurd (ground arith)
  rest-Alike s (read_call out out_channels frames) e busy =
      begin_read-Alike s s.reader out out_channels frames busy
  rest-Alike s (drop_call target_fill tolerance) e busy =
      drop_frames-Alike s s.reader target_fill tolerance busy
  rest-Alike s (seek_call target_fill) e busy = seek-Alike s s.reader target_fill busy
