-- ===== src/Pipewire/Tests.antt =====
-- A ring of four frames that has gone round its end, a client of two channels, and a packet.
use reac_jack.Decode.Fixture.{quiet}
use reac_jack.Common.{
  Buffer, List, [], arith, false, if◌then◌else◌, none, pos, refl, some, true, ℕ, ℤ, ◌%◌, ◌+◌, ◌==◌,
  ◌∷◌, ◌≡◌,
}
use reac_jack.Counter.{arriving, note_all, note_all-lost}
use reac_jack.Decode.{Float}
use reac_jack.Decode.Value.{IsBytes}
use reac_jack.Decode.Parse.{IsReacFrame}
use reac_jack.Pipewire.{AudioRing}
use reac_jack.Pipewire.Write.{IsValid}
use reac_jack.Pipewire.Capture.{ReacPw, capture_step, received}
use reac_jack.Pipewire.Stream.{Appended, capture_step_appends}
use Prim.Native.String.{String}
use reac_jack.Lifetimes.{IsClean, is_acquired, perform_all, stream}
use reac_jack.Pipewire.Startup.{PwAnswers, PwSettings, pw_main}
use reac_jack.Pipewire.Lifetimes.{pw_main_lifetimes}

abbrev small : AudioRing ℕ
small = record {
  samples = λ i. 100 + i;
  capacity_frames = 4;
  channels = 2;
  read_pos = 3;
  write_pos = 5;
}

small-IsValid : IsValid small
small-IsValid = omega arith

abbrev two_frames : Buffer ℕ
two_frames i = i

abbrev big : AudioRing Float
big = record {
  samples = λ i. quiet;
  capacity_frames = 16;
  channels = 2;
  read_pos = 14;
  write_pos = 15;
}

big-IsValid : IsValid big
big-IsValid = omega arith

abbrev client : ReacPw
client = record {
  ring = big;
  channels = 2;
  received_packets = 7;
  non_reac_packets = 0;
  malformed_packets = 0;
  capture_errors = 0;
  ring_overruns = 0;
  pipewire_underruns = 0;
  counter = record { lost = 0; last_counter = 5; have_last_counter = true };
  storage = λ c. some (λ f. quiet);
  interleaved = λ i. quiet;
}

abbrev packet : Buffer ℕ
packet i =
    if i == 12
    then 0x88
    else if i == 13
    then 0x19
    else if i == 122
    then 0xc2
    else if i == 123
    then 0xea
    else i % 256

packet-IsBytes : IsBytes packet
packet-IsBytes i = ground arith

packet-IsReacFrame : IsReacFrame packet 124 2
packet-IsReacFrame = record {
  supported = record { positive = omega arith; at_most = omega arith; even = refl };
  length = refl;
  type_high = refl;
  type_low = refl;
  end_0 = refl;
  end_1 = refl;
}

note_all-lost_example :
    (note_all client.counter (arriving 5 (0 ∷ 3 ∷ 32767 ∷ 32767 ∷ []))).lost ≡ 65537
note_all-lost_example =
    note_all-lost client.counter (0 ∷ 3 ∷ 32767 ∷ 32767 ∷ []) refl (omega arith)
      (omega arith, (omega arith, (omega arith, (omega arith, tt)))) (omega arith)

capture_step_appends_example : Appended client packet (capture_step client (received packet 124))
capture_step_appends_example =
    capture_step_appends client packet 124 packet-IsBytes packet-IsReacFrame (λ c h. refl)
      big-IsValid refl (omega arith) (omega arith)

-- A start-up whose stream cannot be connected.
abbrev pw_answers : PwAnswers
pw_answers = record {
  interfaces = none;
  selected = none;
  allocates = true;
  makes_socket = true;
  knows_interface = true;
  binds = true;
  makes_loop = true;
  makes_stream = true;
  connects = false;
  makes_thread = true;
}

abbrev pw_settings : PwSettings
pw_settings = record { interface = 101 ∷ 110 ∷ 48 ∷ []; channels = 8 }

pw_main_lifetimes_example :
    let (ended_well, actions, ring) = pw_main 17 (pos 0) pw_settings pw_answers in
    (pw_answers.connects ≡ true → IsClean actions)
    × (is_acquired stream actions ≡ true
        → pw_answers.connects ≡ false
        → perform_all actions [] ≡ none)
pw_main_lifetimes_example = pw_main_lifetimes 17 (pos 0) pw_settings pw_answers

abbrev eight : String → ℤ
eight s = pos 8

abbrev en0 : String → List ℕ
en0 s = 101 ∷ 110 ∷ 48 ∷ []

abbrev pw_ring : AudioRing ℤ
pw_ring = record {
  samples = λ i. pos 0;
  capacity_frames = 96000;
  channels = 8;
  read_pos = 0;
  write_pos = 0;
}
