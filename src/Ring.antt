-- ===== src/Ring.antt =====
-- src/shared_audio.c, src/shared_audio.h: the audio ring in shared memory, its positions, and the
-- operations of the writer and of the reader. What maps the memory is in Handle, the published
-- clock in Clock. A sample is of any type `A`: the ring copies samples and computes with none.
pub mod Valid
pub mod Store
pub mod Write
pub mod Consume
pub mod Read
pub mod Interleaved
pub mod Repeat
pub mod Seek
pub mod Regulate
pub mod Leaves
pub mod Accounts
pub mod History
pub mod Threads
pub mod Clock
pub mod Published
pub mod Handle
pub mod Open
mod Tests
use reac_jack.Common.{
  ℕ, zero, suc, ◌+◌, ◌-◌, ◌*◌, ◌%◌, ◌^◌, ltb, if◌then◌else◌, u32, u64, sub32, sub64, Buffer, offset,
  update, memcpy, memset, ◌&&◌,
}

-- SHARED_AUDIO_MAX_CORRECTION
abbrev pub max_correction : ℕ
max_correction = 8

-- `SharedAudioHeader`
pub record Header : Type 0 where
  pub magic : ℕ
  pub abi_version : ℕ
  pub header_bytes : ℕ
  pub sample_rate : ℕ
  pub channels : ℕ
  pub capacity_frames : ℕ
  pub write_pos : ℕ
  pub read_pos : ℕ
  pub underruns : ℕ
  pub overruns : ℕ
  pub dropped_packets : ℕ
  pub resets : ℕ
  pub inserted_frames : ℕ
  pub dropped_frames : ℕ
  pub clock_seq : ℕ
  pub clock_host_time : ℕ
  pub clock_sample_pos : ℕ

-- A mapped ring: the header and the array of samples behind it.
pub record Ring (A : Type 0) : Type 0 where
  pub header : Header
  pub open header use *
  pub samples : Buffer A

-- What an `int` result says: 0, or not 0.
pub data Return : Type 0 where
  done failed : Return

-- How many of `frames` stand before the end of the array.
abbrev pub before_end : ℕ → ℕ → ℕ → ℕ
before_end capacity index frames =
    if ltb frames (sub32 capacity index) then frames else sub32 capacity index

-- What a read leaves in the header: an underrun if frames were missing, and the new position.
abbrev pub consumed : Header → ℕ → ℕ → Header
consumed h to_read frames = record h {
  underruns = if ltb to_read frames then u64 (h.underruns + 1) else h.underruns;
  read_pos = u64 (h.read_pos + to_read);
}

abbrev pub at_most : ℕ → ℕ → ℕ
at_most a b = if ltb a b then a else b

module _ {A : Type 0} where
  pub writable_frames : Ring A → ℕ
  writable_frames r = sub32 r.capacity_frames (u32 (sub64 r.write_pos r.read_pos))

  pub readable_frames : Ring A → ℕ
  readable_frames r = u32 (sub64 r.write_pos r.read_pos)

  -- The two `memcpy` of one round of the loop in `shared_audio_write`.
  pub write_channel : Buffer A → ℕ → ℕ → ℕ → Buffer A → ℕ → Buffer A
  write_channel samples base index first src frames =
      let copied = memcpy samples (base + index) src first in
      if ltb first frames then memcpy copied base (offset src first) (frames - first) else copied

  -- That loop, with `left` channels from `ch` on.
  pub write_channels : ℕ → ℕ → ℕ → Buffer (Buffer A) → ℕ → ℕ → ℕ → Buffer A → Buffer A
  write_channels capacity index first channels frames zero ch samples = samples
  write_channels capacity index first channels frames (suc left) ch samples =
      write_channels capacity index first channels frames left (ch + 1)
        (write_channel samples (ch * capacity) index first (channels ch) frames)

  -- `shared_audio_write`
  pub write : Ring A → Buffer (Buffer A) → ℕ → Return × Ring A
  unfolding writable_frames
  write r channels frames =
      if ltb (writable_frames r) frames
      then (failed, record r { header = record r.header { overruns = u64 (r.overruns + 1) } })
      else let capacity = r.capacity_frames in
        let index = u32 (r.write_pos % capacity) in
        let first = before_end capacity index frames in
        (
          done,
          record r {
            header = record r.header { write_pos = u64 (r.write_pos + frames) };
            samples = write_channels capacity index first channels frames r.channels 0 r.samples;
          },
        )

  -- `available < frames ? available : frames`
  abbrev pub readable_of : Ring A → ℕ → ℕ
  readable_of r frames =
      let available = sub64 r.write_pos r.read_pos in
      if ltb available frames then u32 available else frames

  -- `shared_audio_seek_to_fill`
  pub seek_to_fill : Ring A → ℕ → ℕ × Ring A
  seek_to_fill r target_fill =
      let fill = sub64 r.write_pos r.read_pos in
      let new_fill = if ltb fill target_fill then u32 fill else target_fill in
      (
        new_fill,
        record r {
          header = record r.header {
            read_pos = sub64 r.write_pos new_fill;
            resets = u64 (r.resets + 1);
          };
        },
      )

  -- The inner loop of `shared_audio_read_interleaved`, with `left` frames from `frame` on.
  pub copy_frames : Buffer A → ℕ → ℕ → ℕ → ℕ → ℕ → ℕ → ℕ → Buffer A → Buffer A
  copy_frames samples capacity read_pos out_channels ch base zero frame out = out
  copy_frames samples capacity read_pos out_channels ch base (suc left) frame out =
      copy_frames samples capacity read_pos out_channels ch base left (frame + 1) (
        update out (frame * out_channels + ch)
          (samples (base + u32 (u64 (read_pos + frame) % capacity))))

  -- The outer loop, with `left` channels from `ch` on.
  pub copy_channels : Buffer A → ℕ → ℕ → ℕ → ℕ → ℕ → ℕ → Buffer A → Buffer A
  copy_channels samples capacity read_pos out_channels to_read zero ch out = out
  copy_channels samples capacity read_pos out_channels to_read (suc left) ch out =
      copy_channels samples capacity read_pos out_channels to_read left (ch + 1)
        (copy_frames samples capacity read_pos out_channels ch (ch * capacity) to_read 0 out)

  -- The loop that repeats the frame at `last`, with `left` copies from `i` on.
  pub repeat_frame : ℕ → ℕ → ℕ → ℕ → ℕ → Buffer A → Buffer A
  repeat_frame tail out_channels last zero i out = out
  repeat_frame tail out_channels last (suc left) i out =
      repeat_frame tail out_channels last left (i + 1)
        (memcpy out (tail + i * out_channels) (offset out last) out_channels)

module _ {A : Type 0} (silence : A) where
  -- One round of the loop in `shared_audio_read`: the array of one channel.
  pub read_channel : Buffer A → ℕ → ℕ → ℕ → ℕ → ℕ → Buffer A → Buffer A
  read_channel samples base index first to_read frames out =
      let copied = memcpy out 0 (offset samples (base + index)) first in
      let rest =
        if ltb first to_read
        then memcpy copied first (offset samples base) (to_read - first)
        else copied in
      if ltb to_read frames then memset rest to_read silence (frames - to_read) else rest

  -- That loop, with `left` channels from `ch` on.
  pub read_channels : Buffer A → ℕ → ℕ → ℕ → ℕ → ℕ → ℕ → ℕ → Buffer (Buffer A) → Buffer (Buffer A)
  read_channels samples capacity index first to_read frames zero ch outs = outs
  read_channels samples capacity index first to_read frames (suc left) ch outs =
      read_channels samples capacity index first to_read frames left (ch + 1)
        (update outs ch (read_channel samples (ch * capacity) index first to_read frames (outs ch)))

  -- `shared_audio_read`
  pub read : Ring A → Buffer (Buffer A) → ℕ → ℕ × Buffer (Buffer A) × Ring A
  read r outs frames =
      let to_read = readable_of r frames in
      let capacity = r.capacity_frames in
      let index = u32 (r.read_pos % capacity) in
      let first = before_end capacity index to_read in
      (
        to_read,
        read_channels r.samples capacity index first to_read frames r.channels 0 outs,
        record r { header = consumed r.header to_read frames },
      )

  -- `shared_audio_read_interleaved`
  pub read_interleaved : Ring A → Buffer A → ℕ → ℕ → ℕ × Buffer A × Ring A
  read_interleaved r out out_channels frames =
      let to_read = readable_of r frames in
      let copy = if ltb r.channels out_channels then r.channels else out_channels in
      let silent = memset out 0 silence (frames * out_channels) in
      (
        to_read,
        copy_channels r.samples r.capacity_frames r.read_pos out_channels to_read copy 0 silent,
        record r { header = consumed r.header to_read frames },
      )

  -- The branch of `shared_audio_read_interleaved_regulated` for too full a ring.
  pub read_dropping : Ring A → Buffer A → ℕ → ℕ → ℕ → ℕ × Buffer A × Ring A
  read_dropping r out out_channels frames target_fill =
      let excess = u32 (sub64 (sub64 r.write_pos r.read_pos) target_fill) in
      let drop = at_most excess max_correction in
      read_interleaved
        (record r {
          header = record r.header {
            read_pos = u64 (r.read_pos + drop);
            dropped_frames = u64 (r.dropped_frames + drop);
          };
        })
        out out_channels frames

  -- The branch for too empty a ring.
  pub read_inserting : Ring A → Buffer A → ℕ → ℕ → ℕ → ℕ × Buffer A × Ring A
  read_inserting r out out_channels frames target_fill =
      let deficit = u32 (sub64 target_fill (sub64 r.write_pos r.read_pos)) in
      let correction = at_most deficit max_correction in
      let insert = if ltb frames correction then frames else correction in
      let (real, out', r') = read_interleaved r out out_channels (frames - insert) in
      let tail = (frames - insert) * out_channels in
      if ltb 0 real
      then (
        real,
        repeat_frame tail out_channels ((real - 1) * out_channels) insert 0 out',
        record r' {
          header = record r'.header { inserted_frames = u64 (r'.inserted_frames + insert) };
        },
      )
      else (real, memset out' tail silence (insert * out_channels), r')

  -- `shared_audio_read_interleaved_regulated`
  pub read_regulated : Ring A → Buffer A → ℕ → ℕ → ℕ → ℕ → ℕ × Buffer A × Ring A
  read_regulated r out out_channels frames target_fill tolerance =
      let fill = sub64 r.write_pos r.read_pos in
      if ltb (u64 (target_fill + tolerance)) fill
      then read_dropping r out out_channels frames target_fill
      else if ltb (u64 (fill + tolerance)) target_fill && ltb 0 frames
      then read_inserting r out out_channels frames target_fill
      else read_interleaved r out out_channels frames
