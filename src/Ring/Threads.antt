-- ===== src/Ring/Threads.antt =====
-- src/shared_audio.c: the writer's thread and the reader's thread on one ring. The copies of
-- `shared_audio_write` and of `shared_audio_read_interleaved` are taken one sample at a time, and a
-- load or a store of a position that the other thread uses is a step of its own. What only one
-- thread uses, its own position when it loads it and its counters, goes with such a step. The
-- accesses are sequentially consistent, as the acquiring loads and releasing stores of the positions
-- make them seem.
pub mod Shared
pub mod Writes
pub mod Begins
pub mod Output
pub mod Reads
pub mod Skips
pub mod Untorn
pub mod Alike
pub mod Ends
use reac_jack.Common.{
  Buffer, List, [], if◌then◌else◌, leb, ltb, memset, sub64, u32, u64, update, ℕ, ◌%◌, ◌&&◌, ◌*◌,
  ◌+◌, ◌-◌, ◌==◌, ◌∷◌,
}
use reac_jack.Ring.{Ring, at_most, before_end, max_correction, readable_of, writable_frames}

-- Where the writer's thread stands: outside of a call, or before the copy of frame `j` of channel
-- `ch`, with the position `at` that it has loaded.
pub data Writer (A : Type 0) : Type 0 where
  resting : Writer A
  writing : Buffer (Buffer A) → (frames at ch j : ℕ) → Writer A

-- Where the reader's thread stands: outside of a call, before the copy of frame `f` of channel
-- `ch`, behind a call that gave `n` frames from `at` on, or before the store of the position in a
-- drop or in a seek.
pub data Reader (A : Type 0) : Type 0 where
  waiting : Reader A
  reading : Buffer A → (out_channels frames n at ch f : ℕ) → Reader A
  returned : Buffer A → (out_channels frames n at : ℕ) → Reader A
  dropping : (drop : ℕ) → Reader A
  seeking : (position : ℕ) → Reader A

-- The ring and both threads. `put` is for the proof: the sample that the writer was given for
-- each channel and position.
pub record System (A : Type 0) : Type 0 where
  pub ring : Ring A
  pub writer : Writer A
  pub reader : Reader A
  pub put : Buffer (Buffer A)

-- Where the two `memcpy` of `shared_audio_write` put frame `j` of a channel.
abbrev pub place : ℕ → ℕ → ℕ → ℕ → ℕ
place capacity at frames j =
    let index = u32 (at % capacity) in
    let first = before_end capacity index frames in if ltb j first then index + j else j - first

-- `header->channels < out_channels ? header->channels : out_channels`
abbrev pub copies : ℕ → ℕ → ℕ
copies channels out_channels = if ltb channels out_channels then channels else out_channels

module _ {A : Type 0} where
  -- The head of `shared_audio_write`: the guard, and the load of the position.
  pub begin_write : System A → Writer A → Buffer (Buffer A) → ℕ → System A
  unfolding writable_frames
  begin_write s resting channels frames =
      let r = s.ring in
      if ltb (writable_frames r) frames
      then record s {
        ring = record r { header = record r.header { overruns = u64 (r.overruns + 1) } };
      }
      else record s {
        writer = writing channels frames r.write_pos 0 0;
        put = λ ch p.
            if leb r.write_pos p && ltb p (r.write_pos + frames)
            then channels ch (p - r.write_pos)
            else s.put ch p;
      }
  begin_write s (writing channels' frames' at ch j) channels frames = s

  -- The next step of a call that writes: the copy of one sample, the release store of the position,
  -- or the loop's own step to the next channel, which accesses nothing that is shared.
  pub write_next : System A → Writer A → System A
  write_next s resting = s
  write_next s (writing channels frames at ch j) =
      let r = s.ring in
      let cell = ch * r.capacity_frames + place r.capacity_frames at frames j in
      if ch == r.channels
      then record s {
        ring = record r { header = record r.header { write_pos = u64 (at + frames) } };
        writer = resting;
      }
      else if j == frames
      then record s { writer = writing channels frames at (ch + 1) 0 }
      else record s {
        ring = record r { samples = update r.samples cell (channels ch j) };
        writer = writing channels frames at ch (j + 1);
      }

  -- The loads of `shared_audio_read_interleaved_regulated`, and whether it drops; its arguments are
  -- 32-bit.
  pub load_drop : Ring A → ℕ → ℕ → Reader A
  load_drop r target_fill tolerance =
      let fill = sub64 r.write_pos r.read_pos in
      let target = u32 target_fill in
      let drop = at_most (u32 (sub64 fill target)) max_correction in
      if ltb (u64 (target + u32 tolerance)) fill then dropping drop else waiting

  -- The loads of `shared_audio_seek_to_fill`.
  pub load_seek : Ring A → ℕ → Reader A
  load_seek r target_fill =
      let fill = sub64 r.write_pos r.read_pos in
      let new_fill = if ltb fill target_fill then u32 fill else target_fill in
      seeking (sub64 r.write_pos new_fill)

  -- The heads of both, in a reader's thread that is outside of a call.
  pub drop_frames : System A → Reader A → ℕ → ℕ → System A
  unfolding load_drop
  drop_frames s waiting target_fill tolerance = record s {
    reader = load_drop s.ring target_fill tolerance;
  }
  drop_frames s (returned out out_channels frames n at) target_fill tolerance = record s {
    reader = load_drop s.ring target_fill tolerance;
  }
  drop_frames s reader target_fill tolerance = s

  pub seek : System A → Reader A → ℕ → System A
  unfolding load_seek
  seek s waiting target_fill = record s { reader = load_seek s.ring target_fill }
  seek s (returned out out_channels frames n at) target_fill = record s {
    reader = load_seek s.ring target_fill;
  }
  seek s reader target_fill = s

module _ {A : Type 0} (silence : A) where
  -- The head of `shared_audio_read_interleaved`, up to the `memset` of the output.
  pub load_positions : Ring A → Buffer A → ℕ → ℕ → Reader A
  load_positions r out out_channels frames =
      reading (memset out 0 silence (frames * out_channels)) out_channels frames
        (readable_of r frames) r.read_pos 0 0

  pub begin_read : System A → Reader A → Buffer A → ℕ → ℕ → System A
  unfolding load_positions
  begin_read s waiting out out_channels frames = record s {
    reader = load_positions s.ring out out_channels frames;
  }
  begin_read s (returned out' out_channels' frames' n at) out out_channels frames = record s {
    reader = load_positions s.ring out out_channels frames;
  }
  begin_read s reader out out_channels frames = s

module _ {A : Type 0} where
  -- The next step of a call: the copy of one sample, the release store of the position, or the
  -- loop's own step to the next channel, which accesses nothing that is shared.
  pub read_next : System A → Reader A → System A
  read_next s waiting = s
  read_next s (returned out out_channels frames n at) = s
  read_next s (dropping drop) =
      let r = s.ring in
      record s {
        ring = record r {
          header = record r.header {
            read_pos = u64 (r.read_pos + drop);
            dropped_frames = u64 (r.dropped_frames + drop);
          };
        };
        reader = waiting;
      }
  read_next s (seeking position) =
      let r = s.ring in
      record s {
        ring = record r {
          header = record r.header { read_pos = position; resets = u64 (r.resets + 1) };
        };
        reader = waiting;
      }
  read_next s (reading out out_channels frames n at ch f) =
      let r = s.ring in
      let cell = ch * r.capacity_frames + u32 (u64 (at + f) % r.capacity_frames) in
      if ch == copies r.channels out_channels
      then record s {
        ring = record r {
          header = record r.header {
            underruns = if ltb n frames then u64 (r.underruns + 1) else r.underruns;
            read_pos = u64 (at + n);
          };
        };
        reader = returned out out_channels frames n at;
      }
      else if f == n
      then record s { reader = reading out out_channels frames n at (ch + 1) 0 }
      else record s {
        reader =
            reading (update out (f * out_channels + ch) (r.samples cell)) out_channels frames n at
              ch (f + 1);
      }

-- What a thread does next; a call that is not over takes no new one.
pub data Move (A : Type 0) : Type 0 where
  write_call : Buffer (Buffer A) → ℕ → Move A
  write_step read_step : Move A
  read_call : Buffer A → ℕ → ℕ → Move A
  drop_call : ℕ → ℕ → Move A
  seek_call : ℕ → Move A

-- The frames that the calls of a schedule want to write.
abbrev pub asked : {A : Type 0} → Move A → ℕ
asked (write_call channels frames) = frames
asked write_step = 0
asked read_step = 0
asked (read_call out out_channels frames) = 0
asked (drop_call target_fill tolerance) = 0
asked (seek_call target_fill) = 0

abbrev pub all_asked : {A : Type 0} → List (Move A) → ℕ
all_asked [] = 0
all_asked (m ∷ ms) = asked m + all_asked ms

module _ {A : Type 0} (silence : A) where
  unfoldable pub move : System A → Move A → System A
  unfolding begin_write write_next drop_frames seek begin_read read_next
  move s (write_call channels frames) = begin_write s s.writer channels frames
  move s write_step = write_next s s.writer
  move s read_step = read_next s s.reader
  move s (read_call out out_channels frames) = begin_read silence s s.reader out out_channels frames
  move s (drop_call target_fill tolerance) = drop_frames s s.reader target_fill tolerance
  move s (seek_call target_fill) = seek s s.reader target_fill

  unfoldable pub moves : System A → List (Move A) → System A
  unfolding move
  moves s [] = s
  moves s (m ∷ ms) = moves (move s m) ms

-- Both threads outside of a call, on a ring whose frames count as put.
abbrev pub start : {A : Type 0} → Ring A → System A
start r = record {
  ring = r;
  writer = resting;
  reader = waiting;
  put = λ ch p. r.samples (ch * r.capacity_frames + p % r.capacity_frames);
}
