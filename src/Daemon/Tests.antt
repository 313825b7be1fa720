-- ===== src/Daemon/Tests.antt =====
-- A daemon with a ring of two channels, and a packet.
use reac_jack.Decode.Samples.{IsSupported}
use Prim.Native.String.{String}
use reac_jack.Daemon.Arguments.{HasChannels, Settings, daemon_settings_sound, parse_daemon}
use reac_jack.Daemon.Counting.{Unbroken, capture_loop-packets, packets}
use reac_jack.Decode.Fixture.{quiet, wire_frame, wire_frame-IsBytes, wire_frame-IsReacFrame}
use reac_jack.Common.{
  List, [], arith, false, none, pos, refl, some, true, ◌&&◌, ◌*◌, ◌+◌, ◌<◌, ◌∷◌, ◌≡◌, ◌≤◌,
}
use reac_jack.Decode.{Float, frames_per_packet, zero_view}
use reac_jack.Decode.Parse.{parse_packet_accepts}
use reac_jack.Ring.{Ring}
use reac_jack.Ring.Valid.{IsValid}
use reac_jack.Ring.Handle.{Objects, fresh}
use reac_jack.Lifetimes.{acquire, pcap_handle, shared_ring}
use reac_jack.Daemon.{
  Moment, ReacDaemon, accept_packet, capture_loop, capture_round, ensure_ring, failure, packet,
  print_status, run_capture, send_due, timeout,
}
use reac_jack.Daemon.Flow.{Delivered, capture_round_delivers}
use reac_jack.Daemon.Ready.{AllReady, created}
use reac_jack.Daemon.Ready.Captures.{run_capture-AllReady}
use reac_jack.Lifetimes.{IsClean, is_acquired, pcap_handle, shared_ring}
use reac_jack.Daemon.Startup.{Answers, daemon_main, run_daemon}
use reac_jack.Daemon.Lifetimes.{daemon_main_lifetimes}
use reac_jack.Daemon.Tone.{send_due_lem}

abbrev shared : Ring Float
shared = fresh quiet 48000 2 48000

shared-IsValid : IsValid shared
shared-IsValid = omega arith

abbrev running : ReacDaemon
running = record {
  ring = some shared;
  channels = 2;
  received_packets = 7;
  counter = record { lost = 0; last_counter = 5; have_last_counter = true };
  non_reac_packets = 0;
  malformed_packets = 0;
  capture_errors = 0;
  status_last_received = 0;
  pcap = true;
  actions = acquire pcap_handle ∷ acquire shared_ring ∷ [];
  storage = λ c. some (λ f. quiet);
}

capture_round_delivers_example :
    let (next, d) = capture_round (λ n. none) 99 running (packet wire_frame 124) in
    Delivered running shared wire_frame 99 next d
capture_round_delivers_example =
    capture_round_delivers (λ n. none) 99 running shared wire_frame 124 refl refl wire_frame-IsBytes
      wire_frame-IsReacFrame (λ c h. refl) shared-IsValid (omega arith) (omega arith) refl
      (omega arith)

send_due_lem_example :
    let (sent, d) = send_due 9 (λ n i. quiet) 5 running 24 100 in
    (sent ≤ 100)
    × (100 < sent + frames_per_packet)
    × (sent + frames_per_packet * running.received_packets
        ≡ 24 + frames_per_packet * d.received_packets)
send_due_lem_example =
    send_due_lem 9 (λ n i. quiet) 5 running 24 100 (omega arith) (omega arith) (omega arith)
      (omega arith)

abbrev moments : List Moment
moments =
    record { status_due = true; now = 1; given = packet wire_frame 124 }
    ∷ record { status_due = false; now = 2; given = timeout }
    ∷ record { status_due = true; now = 4; given = failure }
    ∷ []

moments-Unbroken : Unbroken moments
moments-Unbroken = (λ e. ground arith, (λ e. ground arith, (λ e. ground arith, tt)))

capture_loop-moments : (capture_loop (λ n. none) running moments).0 ≡ true
unfolding capture_loop capture_round accept_packet ensure_ring print_status
capture_loop-moments =
    rw
      (
        capture_loop,
        capture_round,
        print_status,
        parse_packet_accepts wire_frame 124 2 zero_view wire_frame-IsBytes wire_frame-IsReacFrame,
      )
      (refl)

capture_loop-packets_example :
    packets ((capture_loop (λ n. none) running moments).1) ≡ packets running + 1
capture_loop-packets_example =
    capture_loop-packets (λ n. none) running moments (omega arith) moments-Unbroken
      capture_loop-moments

abbrev eight : Settings
eight = record { interface = none; ring_name = "/reacjack-audio"; tone_mode = true; channels = 8 }

daemon_settings_sound_example :
    HasChannels 8
    × (true ≡ true → IsSupported 8)
    × (true ≡ false → (name : String) × (eight.interface ≡ some name))
unfolding parse_daemon
daemon_settings_sound_example =
    daemon_settings_sound (λ word. pos 8) ("-c" ∷ "8" ∷ "-tone" ∷ []) eight refl

abbrev no_objects : Objects Float
no_objects name = none

abbrev idle : ReacDaemon
idle = record running { ring = none; channels = 0 }

run_capture-AllReady_example :
    AllReady 0
      (run_capture (created quiet no_objects "/reacjack-audio" true true true) true idle moments).1
run_capture-AllReady_example =
    run_capture-AllReady quiet no_objects "/reacjack-audio" true true true true idle moments
      (omega arith) refl

abbrev answers : Answers
answers = record {
  create = created quiet no_objects "/reacjack-audio" true true true;
  pcap = record { creates = true; activates = true; is_ethernet = false };
  moments = moments;
  tone = λ n i. quiet;
  ticks = record { elapsed = 600000; now = 7; status_due = true } ∷ [];
}

daemon_main_lifetimes_example :
    IsClean (run_daemon answers eight).actions
    × (true ≡ true
        → (is_acquired pcap_handle (run_daemon answers eight).actions ≡ false)
          × (is_acquired shared_ring (run_daemon answers eight).actions
              ≡ (run_daemon answers eight).ended_well))
    × (true ≡ false
        → (is_acquired pcap_handle (run_daemon answers eight).actions ≡ true)
          × ((run_daemon answers eight).ended_well ≡ true → true && true && false ≡ true))
unfolding daemon_main parse_daemon
daemon_main_lifetimes_example =
    daemon_main_lifetimes (λ word. pos 8) answers ("-c" ∷ "8" ∷ "-tone" ∷ []) eight
      (run_daemon answers eight) refl refl
