-- ===== src/Pipewire.antt =====
-- src/reacjack-pw.c: the PipeWire client. Its ring of interleaved frames, the capture thread that
-- fills it from packets, and the process callback that empties it.
pub mod Rows
pub mod Write
pub mod Read
pub mod Capture
pub mod Stream
pub mod Process
pub mod Startup
pub mod Settings
pub mod Lifetimes
mod Tests
use reac_jack.Common.{
  Buffer, Option, [], if◌then◌else◌, ltb, memcpy, memset, none, offset, some, sub64, suc, u64, zero,
  ℕ, ◌%◌, ◌*◌, ◌+◌, ◌-◌,
}

-- `AudioRing`
pub record AudioRing (A : Type 0) : Type 0 where
  pub samples : Buffer A
  pub capacity_frames : ℕ
  pub channels : ℕ
  pub read_pos : ℕ
  pub write_pos : ℕ

-- `todo`: what is left, or what stands before the end of the array.
abbrev pub chunk : ℕ → ℕ → ℕ
chunk left contiguous = if ltb contiguous left then contiguous else left

module _ {A : Type 0} where
  -- The `while` loop of `audio_ring_write`: `interleaved` goes to the frames from `write_pos` on.
  -- Each round copies a frame or more, so that as much fuel as frames is enough.
  pub write_loop : ℕ → AudioRing A → Buffer A → ℕ → ℕ → ℕ × Buffer A → ℕ × Buffer A
  write_loop zero ring interleaved write_pos frames (written, samples) = (written, samples)
  write_loop (suc fuel) ring interleaved write_pos frames (written, samples) =
      let write_index = u64 (write_pos + written) % ring.capacity_frames in
      let todo = chunk (frames - written) (ring.capacity_frames - write_index) in
      let copied =
        memcpy samples (write_index * ring.channels) (offset interleaved (written * ring.channels))
          (todo * ring.channels) in
      let rest = write_loop fuel ring interleaved write_pos frames (written + todo, copied) in
      if ltb written frames then rest else (written, samples)

  -- `audio_ring_write`; `none` stands for -1.
  pub audio_ring_write : AudioRing A → Buffer A → ℕ → Option (AudioRing A)
  audio_ring_write ring interleaved frames =
      let used = sub64 ring.write_pos ring.read_pos in
      let free_frames = sub64 ring.capacity_frames used in
      if ltb free_frames frames
      then none
      else some (record ring {
        samples = (write_loop frames ring interleaved ring.write_pos frames (0, ring.samples)).1;
        write_pos = u64 (ring.write_pos + frames);
      })

  -- The `while` loop of `audio_ring_read`, on as much fuel as frames.
  pub read_loop : ℕ → AudioRing A → ℕ → ℕ → Buffer A → ℕ × Buffer A
  read_loop zero ring to_read read_frames out = (read_frames, out)
  read_loop (suc fuel) ring to_read read_frames out =
      let read_index = u64 (ring.read_pos + read_frames) % ring.capacity_frames in
      let todo = chunk (to_read - read_frames) (ring.capacity_frames - read_index) in
      let copied =
        memcpy out (read_frames * ring.channels) (offset ring.samples (read_index * ring.channels))
          (todo * ring.channels) in
      let rest = read_loop fuel ring to_read (read_frames + todo) copied in
      if ltb read_frames to_read then rest else (read_frames, out)

  -- `available < frames ? available : frames`
  abbrev pub to_read_of : AudioRing A → ℕ → ℕ
  to_read_of ring frames =
      let available = sub64 ring.write_pos ring.read_pos in
      if ltb available frames then available else frames

  -- `audio_ring_read`
  pub audio_ring_read : A → AudioRing A → Buffer A → ℕ → ℕ × Buffer A × AudioRing A
  audio_ring_read silence ring out frames =
      let to_read = to_read_of ring frames in
      let real = (read_loop to_read ring to_read 0 out).1 in
      let filled =
        if ltb to_read frames
        then memset real (to_read * ring.channels) silence ((frames - to_read) * ring.channels)
        else real in
      (to_read, filled, record ring { read_pos = u64 (ring.read_pos + to_read) })
