-- ===== src/Ring/Tests.antt =====
-- A small ring that has gone round its end, and the theorems at it.
use reac_jack.Ring.Threads.{
  Move, Reader, copies, move, moves, read_step, read_call, reading, returned, start, write_step,
  write_call,
}
use reac_jack.Ring.Threads.Untorn.{moves_untorn}
use reac_jack.Ring.Threads.Ends.{read_ends}
use reac_jack.Ring.Handle.{Objects, Segment, bind, create, fresh, open_ring, samples_offset}
use reac_jack.Ring.Open.{open_ring-create, open_ring_safe}
use reac_jack.Ring.Published.{Seen, get_clock-Seen}
use reac_jack.Ring.Clock.{get_clock_from}
use reac_jack.Common.{
  Buffer, List, [], arith, if◌then◌else◌, ltb, min, none, of_list, refl, some, tabulate, true, u64,
  ℕ, ◌*◌, ◌++◌, ◌+◌, ◌<◌, ◌∷◌, ◌≡◌, ◌≤◌, ◌⊎◌,
}
use reac_jack.Ring.{Header, Ring, done, read, read_interleaved, read_regulated, write}
use reac_jack.Ring.Valid.{IsValid, contents, fill, sample_at}
use reac_jack.Ring.Write.{write_appends, write_in_bounds}
use reac_jack.Ring.Read.{read_lem}
use reac_jack.Ring.Interleaved.{frame_out, read_interleaved_lem}
use reac_jack.Ring.Regulate.{
  Inserted, drop_of, dropped, read_regulated_drops, read_regulated_inserts,
}
use reac_jack.Ring.Accounts.{Accounts, read_regulated-Accounts}
use reac_jack.Ring.History.{Call, given, reads, run, run-queue, taken, writes}

abbrev header : Header
header = record {
  magic = 0x524a5341;
  abi_version = 3;
  header_bytes = 112;
  sample_rate = 48000;
  channels = 2;
  capacity_frames = 4;
  write_pos = 6;
  read_pos = 3;
  underruns = 0;
  overruns = 0;
  dropped_packets = 0;
  resets = 0;
  inserted_frames = 0;
  dropped_frames = 0;
  clock_seq = 0;
  clock_host_time = 0;
  clock_sample_pos = 0;
}

-- Positions 3, 4 and 5 hold 13, 14, 15 in channel 0 and 23, 24, 25 in channel 1.
abbrev ring : Ring ℕ
ring = record { header = header; samples = of_list 0 (14 ∷ 15 ∷ 12 ∷ 13 ∷ 24 ∷ 25 ∷ 22 ∷ 23 ∷ []) }

abbrev incoming : Buffer (Buffer ℕ)
incoming ch i = 100 * ch + i

abbrev scratch : Buffer ℕ
scratch i = 99

abbrev arrays : Buffer (Buffer ℕ)
arrays ch i = 99

ring-IsValid : IsValid ring
ring-IsValid = omega arith

contents-ring : (contents ring 0 ≡ 13 ∷ 14 ∷ 15 ∷ []) × (contents ring 1 ≡ 23 ∷ 24 ∷ 25 ∷ [])
contents-ring = (refl, refl)

write_appends_example :
    let (status, r') = write ring incoming 1 in
    (status ≡ done)
    × ((ch : ℕ) → ch < 2 → contents r' ch ≡ contents ring ch ++ tabulate 1 (incoming ch))
    × (r'.header ≡ record header { write_pos = 7 })
    × IsValid r'
write_appends_example = write_appends ring incoming 1 ring-IsValid (omega arith) (omega arith)

write_in_bounds_example : (write ring incoming 1).1.samples 8 ≡ 0
write_in_bounds_example = write_in_bounds ring incoming 1 8 ring-IsValid (omega arith)

read_lem_example :
    let (n, outs', r') = read 0 ring arrays 5 in
    (n ≡ 3)
    × ((ch : ℕ) → ch < 2 → contents ring ch ≡ tabulate n (outs' ch) ++ contents r' ch)
    × ((ch i : ℕ) → ch < 2 → n ≤ i → i < 5 → outs' ch i ≡ 0)
    × ((ch i : ℕ) → ch < 2 → n ≤ i → 5 ≤ i → outs' ch i ≡ 99)
    × (r'.header
        ≡ record header { underruns = if ltb n 5 then u64 (0 + 1) else 0; read_pos = 3 + n })
    × IsValid r'
read_lem_example = read_lem 0 ring arrays 5 ring-IsValid

read_interleaved_lem_example :
    let (n, out', r') = read_interleaved 0 ring scratch 3 5 in
    (n ≡ 3)
    × ((f c : ℕ) → c < 3 → out' (f * 3 + c) ≡ frame_out 0 ring scratch 3 n 5 f c)
    × ((ch : ℕ) → contents ring ch ≡ tabulate n (λ i. sample_at ring ch (3 + i)) ++ contents r' ch)
    × (r'.header
        ≡ record header { underruns = if ltb n 5 then u64 (0 + 1) else 0; read_pos = 3 + n })
    × IsValid r'
read_interleaved_lem_example = read_interleaved_lem 0 ring scratch 3 5 ring-IsValid

read_regulated_drops_example :
    let after = dropped ring (drop_of ring 1) in
    (read_regulated 0 ring scratch 2 1 1 1 ≡ read_interleaved 0 after scratch 2 1)
    × IsValid after
    × (1 ≤ fill after)
    × (fill after + drop_of ring 1 ≡ 3)
read_regulated_drops_example =
    read_regulated_drops 0 ring scratch 2 1 1 1 ring-IsValid (omega arith) (omega arith)
      (omega arith)

read_regulated_inserts_example :
    Inserted 0 ring scratch 2 6 20 (read_regulated 0 ring scratch 2 6 20 2)
read_regulated_inserts_example =
    read_regulated_inserts 0 ring scratch 2 6 20 2 ring-IsValid (omega arith) (omega arith)
      (omega arith) (omega arith)

read_regulated-Accounts_example : Accounts ring 1 (read_regulated 0 ring scratch 2 1 1 1)
read_regulated-Accounts_example =
    read_regulated-Accounts 0 ring scratch 2 1 1 1 ring-IsValid (omega arith) (omega arith)
      (omega arith)

abbrev calls : List (Call ℕ)
calls = writes incoming 2 ∷ reads arrays 2 ∷ writes incoming 2 ∷ []

run-queue_example :
    IsValid (run 0 ring calls)
    × ((ch : ℕ)
        → ch < 2
        → contents ring ch ++ given 0 ring calls ch
          ≡ taken 0 ring calls ch ++ contents (run 0 ring calls) ch)
run-queue_example = run-queue 0 ring calls ring-IsValid (omega arith)

-- Two loads of the sequence number for each publication of two; the reader comes upon odd numbers
-- until the second is complete.
abbrev times : Buffer ℕ
times i = 1000 + i

abbrev places : Buffer ℕ
places i = 12 * i

abbrev schedule : Buffer ℕ
schedule n = min (2 * n + 1) 8

get_clock-Seen_example : Seen times places schedule 0 1001 12
unfolding get_clock_from
get_clock-Seen_example =
    get_clock-Seen times places header schedule 1001 12 refl (λ m n h. omega arith)
      (λ n. omega arith) refl

abbrev blank_ring : Ring ℕ
blank_ring = fresh 0 48000 2 8

abbrev no_objects : Objects ℕ
no_objects name = none

abbrev made : Objects ℕ
made = bind "/ring" (some (record { bytes = 192; memory = blank_ring })) no_objects

open_ring-create_example :
    let objects = (create 0 no_objects (some "/ring") 48000 2 8 true true true).1 in
    (open_ring objects (some "/ring") true ≡ some blank_ring)
    × IsValid blank_ring
    × (fill blank_ring ≡ 0)
unfolding create
open_ring-create_example =
    open_ring-create 0 no_objects "/ring" 48000 2 8 true true true blank_ring (omega arith)
      (omega arith) refl

open_ring_safe_example :
    (s : Segment ℕ) × (made "/ring" ≡ some s) × (samples_offset + (1 * 8 + 7) * 4 + 4 ≤ s.bytes)
unfolding open_ring
open_ring_safe_example =
    open_ring_safe made "/ring" true blank_ring 1 7 refl (omega arith) (omega arith) (omega arith)

-- A write of one frame and a read of up to four, step by step.
abbrev mixed : List (Move ℕ)
mixed =
    write_call incoming 1
    ∷ read_call scratch 2 4
    ∷ write_step
    ∷ read_step
    ∷ read_step
    ∷ write_step
    ∷ read_step
    ∷ read_step
    ∷ write_step
    ∷ write_step
    ∷ read_step
    ∷ read_step
    ∷ write_step
    ∷ read_step
    ∷ read_step
    ∷ read_step
    ∷ []

abbrev output_of : Reader ℕ → Buffer ℕ
output_of (reading out out_channels frames n at ch f) = out
output_of (returned out out_channels frames n at) = out
output_of reader = λ i. 0

mixed_reader :
    (moves 0 (start ring) mixed).reader
    ≡ returned (output_of (moves 0 (start ring) mixed).reader) 2 4 3 3
unfolding moves
mixed_reader = refl

moves_untorn_example :
    let s = moves 0 (start ring) mixed in
    IsValid s.ring
    × ((out : Buffer ℕ) (out_channels frames n at : ℕ)
        → s.reader ≡ returned out out_channels frames n at
        → ((c i : ℕ)
            → c < copies s.ring.channels out_channels
            → i < n
            → out (i * out_channels + c) ≡ s.put c (at + i))
          × ((c i : ℕ)
              → c < out_channels
              → i < frames
              → (copies s.ring.channels out_channels ≤ c) ⊎ (n ≤ i)
              → out (i * out_channels + c) ≡ 0)
          × (n ≤ frames)
          × (s.ring.read_pos ≡ at + n))
moves_untorn_example = moves_untorn 0 ring mixed ring-IsValid (omega arith)

-- The steps of a reader beside a writer that has nothing to do.
abbrev stalled : List (Move ℕ)
stalled =
    read_step ∷ write_step ∷ read_step ∷ read_step ∷ read_step ∷ read_step ∷ read_step ∷ read_step
    ∷ read_step ∷ []

read_ends_example :
    let s' = moves 0 (move 0 (start ring) (read_call scratch 2 4)) stalled in
    (out' : Buffer ℕ) × ((move 0 s' read_step).reader ≡ returned out' 2 4 3 3)
read_ends_example = read_ends 0 (start ring) scratch 2 4 stalled refl refl
