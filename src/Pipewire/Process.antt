-- ===== src/Pipewire/Process.antt =====
-- src/reacjack-pw.c: what `on_process` gives to PipeWire.
use reac_jack.Common.{
  Buffer, Option, if◌then◌else◌, ltb, min, some, u64, ℕ, ◌*◌, ◌+◌, ◌<◌, ◌≡◌, ◌≤◌,
}
use reac_jack.Decode.{Float}
use reac_jack.Pipewire.Write.{IsValid, fill, frame_at}
use reac_jack.Pipewire.Capture.{Chunk, ReacPw}

-- What a call has done with a buffer of `maxsize` bytes of which `frames` frames are used.
pub record Processed (silence : Float) (app : ReacPw) (out : Buffer Float) (maxsize requested : ℕ)
    (answer : Option (Buffer Float × Chunk)) (after : ReacPw) : Type 0 where
  pub frames : ℕ
  pub filled : Buffer Float
  pub within : frames * (app.channels * 4) ≤ maxsize
  pub asked : 0 < requested → frames ≤ requested
  pub given :
      answer
      ≡ some (
        filled,
        record { offset = 0; stride = app.channels * 4; size = frames * (app.channels * 4) },
      )
  pub cells :
      (j c : ℕ)
      → c < app.channels
      → filled (j * app.channels + c) ≡ (
          if ltb j (min (fill app.ring) frames)
          then frame_at app.ring (app.ring.read_pos + j) c
          else if ltb j frames
          then silence
          else out (j * app.channels + c))
  pub underruns : after.pipewire_underruns ≡ (
      if ltb (fill app.ring) frames
      then u64 (app.pipewire_underruns + 1)
      else app.pipewire_underruns)
  pub moved : after.ring.read_pos ≡ app.ring.read_pos + min (fill app.ring) frames
  pub valid : IsValid after.ring
