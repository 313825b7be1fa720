-- ===== src/Ring/Clock.antt =====
-- src/shared_audio.c: the published clock, guarded by a sequence number that is odd while the
-- writer is at work. The writer's four stores and the reader's loads interleave in any way.
use reac_jack.Common.{
  Buffer, Option, bit_and, if◌then◌else◌, none, some, suc, u64, zero, ℕ, ◌!=◌, ◌%◌, ◌+◌, ◌/◌, ◌==◌,
}
use reac_jack.Ring.{Header}

-- The writer of `shared_audio_publish_clock`: the header in shared memory, and its local `seq`.
pub record Writer : Type 0 where
  pub memory : Header
  pub seq : ℕ

-- The stores of one publication, in their order: the first loads `seq` before.
abbrev pub store_odd : Writer → Writer
store_odd w = record w {
  seq = w.memory.clock_seq;
  memory = record w.memory { clock_seq = u64 (w.memory.clock_seq + 1) };
}

abbrev pub store_time : ℕ → Writer → Writer
store_time host_time w = record w { memory = record w.memory { clock_host_time = host_time } }

abbrev pub store_place : ℕ → Writer → Writer
store_place sample_pos w = record w { memory = record w.memory { clock_sample_pos = sample_pos } }

abbrev pub store_even : Writer → Writer
store_even w = record w { memory = record w.memory { clock_seq = u64 (w.seq + 2) } }

-- The store numbered `n` of a publication.
abbrev pub store : Writer → ℕ → ℕ → ℕ → Writer
store w host_time sample_pos n =
    if n == 0
    then store_odd w
    else if n == 1
    then store_time host_time w
    else if n == 2
    then store_place sample_pos w
    else store_even w

abbrev pub idle : Header → Writer
idle h = record { memory = h; seq = 0 }

-- `shared_audio_publish_clock`, without interruption
unfoldable pub publish_clock : Header → ℕ → ℕ → Header
publish_clock h host_time sample_pos =
    (store_even (store_place sample_pos (store_time host_time (store_odd (idle h))))).memory

-- The attempts of `shared_audio_get_clock`, of which `left` are left; the load numbered `at` sees
-- the header `memory at`.
unfoldable pub get_clock_from : Buffer Header → ℕ → ℕ → Option (ℕ × ℕ)
get_clock_from memory zero at = none
get_clock_from memory (suc left) at =
    let seq = (memory at).clock_seq in
    let odd = get_clock_from memory left (at + 1) in
    let torn = get_clock_from memory left (at + 4) in
    if seq == 0
    then none
    else if bit_and seq 1 != 0
    then odd
    else if (memory (at + 3)).clock_seq == seq
    then some ((memory (at + 1)).clock_host_time, (memory (at + 2)).clock_sample_pos)
    else torn

-- `shared_audio_get_clock`
abbrev pub get_clock : Buffer Header → Option (ℕ × ℕ)
get_clock memory = get_clock_from memory 16 0

-- The writer after a number of stores, when it publishes one observation after the other.
abbrev pub publishing : Buffer ℕ → Buffer ℕ → Header → ℕ → Writer
publishing times positions h zero = idle h
publishing times positions h (suc k) =
    let w = publishing times positions h k in store w (times (k / 4)) (positions (k / 4)) (k % 4)
