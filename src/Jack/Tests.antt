-- ===== src/Jack/Tests.antt =====
-- A byte ring as a list of at most 5000 bytes, and a client of two channels on it.
use reac_jack.Decode.Fixture.{quiet, wire_frame, wire_frame-IsBytes, wire_frame-IsReacFrame}
use reac_jack.Common.{
  ◌⊎◌, ◌+◌, ◌*◌, ◌/◌, ℤ, negsuc, Buffer, List, [], ap, arith, false, if◌then◌else◌, length, leb,
  ltb, none, of_list, pos, refl, some, suc, tabulate, true, zero, ℕ, ◌++◌, ◌-◌, ◌<◌, ◌==◌, ◌∷◌, ◌≡◌,
  ◌≤◌,
}
use reac_jack.Decode.{Outputs}
use reac_jack.Decode.Value.{IsBytes}
use reac_jack.Jack.{err_ok}
use reac_jack.Jack.ByteRing.{Behaves, ByteRing}
use reac_jack.Jack.Client.{Client}
use reac_jack.Jack.Play.{Played}
use reac_jack.Jack.Capture.{PacketRing, Slot, interrupted, polled, process_rx}
use reac_jack.Jack.Backend.{copy_round}
use reac_jack.Jack.Flow.{Delivered, copy_round-Delivered}
use reac_jack.Jack.Startup.{Answers, packet_socket_opening, reac_main}
use reac_jack.Jack.Lifetimes.{reac_main_lifetimes}
use reac_jack.Jack.Meter.{Double, first_meter, measure}
use reac_jack.Jack.Display.{Decibels, Times}
use reac_jack.Jack.Callback.{callback, callback-Played, samples_of}
use reac_jack.Jack.Meter.Peak.{IsOrdered}
use reac_jack.Jack.Meter.Peak.Periods.{Period, sample_level}
use reac_jack.Jack.Meter.Window.{measures, measures_peak}
use reac_jack.Lifetimes.{IsClean, perform_all}

abbrev past_first : ℕ → List ℕ → List ℕ
past_first zero l = l
past_first (suc n) [] = []
past_first (suc n) (x ∷ l) = past_first n l

abbrev list_ring : ByteRing
list_ring = record {
  R = List ℕ;
  write_space = λ l. 5000 - length l;
  read_space = λ l. length l;
  write = λ l p n. if ltb (5000 - length l) n then (0, l) else (n, l ++ tabulate n p);
  read = λ l out n. if ltb (length l) n then (0, out, l) else (n, of_list 0 l, past_first n l);
  reset = λ l. [];
  contents = λ l. l;
}

first_and_rest :
    (n : ℕ) (l : List ℕ) → n ≤ length l → l ≡ tabulate n (of_list 0 l) ++ past_first n l
first_and_rest zero l h = refl
first_and_rest (suc n) [] h = absurd (omega arith)
first_and_rest (suc n) (x ∷ l) h = ap (λ m. x ∷ m) (first_and_rest n l (omega arith))

list_ring-Behaves : Behaves list_ring
list_ring-Behaves = record {
  write_fits = λ l p n h. ground arith;
  read_there = λ l out n h. ground (arith, first_and_rest n l h);
  reset_empties = λ l. refl;
}

abbrev client : Client list_ring
client = record {
  ring = 1 ∷ 2 ∷ 3 ∷ 4 ∷ 5 ∷ 6 ∷ 7 ∷ [];
  counter = record { lost = 0; last_counter = 5; have_last_counter = true };
  net_buffer_underrun = 0;
  jack_buffer_underrun = 0;
  non_reac = 0;
  malformed_packets = 0;
  data_size = 72;
  process_buffer = λ i. 0;
  process_buffer_bytes = 4096;
  current_channels = 2;
  error = err_ok;
  received_packages = 3;
  process_start_time = 0;
}

abbrev ports : Outputs
ports c = some (λ f. quiet)

-- All bytes of a list are.
abbrev AreBytes : List ℕ → Type 0
AreBytes [] = Unit {0}
AreBytes (x ∷ l) = (x < 256) × AreBytes l

of_list-IsBytes : (l : List ℕ) → AreBytes l → IsBytes (of_list 0 l)
of_list-IsBytes [] h i = omega arith
of_list-IsBytes (x ∷ l) h zero = h.0
of_list-IsBytes (x ∷ l) h (suc i) = of_list-IsBytes l h.1 i

held-IsBytes : IsBytes (of_list 0 client.ring)
held-IsBytes = of_list-IsBytes client.ring (ground arith)

-- The slot 127 is the kernel's, until the second `poll` finds a packet there.
abbrev arrived : Buffer Slot
arrived i = record { user = i == 127; copy = false; len = 124 }

abbrev empty_slots : PacketRing
empty_slots = record {
  slots = λ i. record { user = false; copy = false; len = 0 };
  rxring_offset = 127;
  capture_errors = 0;
  malformed_packets = 0;
}

abbrev full_slot : PacketRing
full_slot = record empty_slots { slots = arrived }

found :
    process_rx empty_slots true ((interrupted, true) ∷ (polled arrived, true) ∷ [])
    ≡ some (some 127, full_slot)
unfolding process_rx
found = refl

copy_round-Delivered_example :
    Delivered client empty_slots full_slot wire_frame 2
      (copy_round client (λ i. wire_frame) true (some 127, full_slot))
copy_round-Delivered_example =
    copy_round-Delivered client empty_slots full_slot true
      ((interrupted, true) ∷ (polled arrived, true) ∷ []) (λ i. wire_frame) 127 2 list_ring-Behaves
      found wire_frame-IsBytes wire_frame-IsReacFrame refl (omega arith)

-- A start-up on Linux whose thread cannot be made.
abbrev answers : Answers
answers = record {
  interfaces = some (record { family = some 17; name = 101 ∷ [] } ∷ []);
  selected = some (pos 1);
  opening = packet_socket_opening (record {
    makes_socket = true;
    sets_ring = true;
    maps = true;
    knows_interface = true;
    binds = true;
  });
  makes_client = true;
  registers = λ i. true;
  makes_buffer = true;
  makes_ring = true;
  activates_client = true;
  makes_thread = false;
}

reac_main_lifetimes_example :
    let (ended_well, w) = reac_main 17 40 answers in
    (answers.makes_thread ≡ true → IsClean w.actions)
    × (ended_well ≡ true → answers.makes_thread ≡ false → perform_all w.actions [] ≡ none)
reac_main_lifetimes_example = reac_main_lifetimes 17 40 answers

-- It comes so far, and joins the thread.
answers_end : (reac_main 17 40 answers).0 ≡ true
unfolding reac_main
answers_end = refl

-- Numbers in place of doubles, which take the numerator of a sample.
abbrev magnitude : ℤ → ℕ
magnitude (pos n) = n
magnitude (negsuc n) = n + 1

abbrev numbers : Double
numbers = record {
  W = ℕ;
  nought = 0;
  of_nat = λ n. n;
  of_sample = λ sample. magnitude sample.numerator;
  narrow = λ x. x;
  add = λ x y. x + y;
  mul = λ x y. x * y;
  div = λ x y. x / y;
  sqrt = λ x. x;
  fabs = λ x. x;
  lt = ltb;
}

numbers-IsOrdered : IsOrdered numbers
numbers-IsOrdered = record {
  irreflexive = λ x. ground arith;
  rises = λ x p s h k. ground arith;
  above = λ x y z p found h k. ground arith;
  above_nought = λ x z h k. ground arith;
}

-- Two channels, the second louder from callback to callback.
abbrev periods : ℕ → Period
periods j = record {
  out = λ ch frame. record { numerator = negsuc (ch * j + frame); denominator = 8388607 };
  nframes = 3;
}

measures_peak_example :
    (peak : ℕ) × ((measures numbers 2 periods 500).channel_peak 1 ≡ peak)
    × ((j frame : ℕ)
        → j < 500
        → 500 ≤ j + 400
        → frame < 3
        → ltb peak (sample_level numbers (periods j) 1 frame) ≡ false)
    × ((peak ≡ 0)
        ⊎ ((j : ℕ) × (frame : ℕ) × (j < 500)
            × (500 ≤ j + 400)
            × (frame < 3)
            × (peak ≡ sample_level numbers (periods j) 1 frame)))
measures_peak_example =
    measures_peak numbers 2 periods 500 1 numbers-IsOrdered (omega arith) (omega arith)

abbrev levels : Decibels numbers
levels = record {
  le = leb;
  sub = λ x y. x - y;
  is_finite = λ x. true;
  log10 = λ x. x;
  least_value = 0;
  no_level = 0;
  twenty = 20;
  inactive = 1;
  red = 900;
  yellow = 800;
  green = 100;
  thousand = 1000;
}

abbrev times : Times numbers
times = record {
  current_samples_per_period = 0;
  data_amount = 0;
  space_amount = 0;
  last_ts = 0;
  last_jack_time = 0;
}

callback-Played_example :
    let (after, app', m', t') =
      callback numbers levels quiet 48000 250 true client (first_meter numbers) times 1 10 ports in
    Played client 1 ports after app'
    × (m' ≡ measure numbers true (samples_of quiet after) 2 1 (first_meter numbers))
callback-Played_example =
    callback-Played numbers levels quiet 48000 250 true client (first_meter numbers) times 1 10
      ports list_ring-Behaves
      (record { positive = omega arith; at_most = omega arith; even = refl }) (λ e. ground arith)
      (omega arith) (omega arith) (omega arith) (λ c h. refl) held-IsBytes
