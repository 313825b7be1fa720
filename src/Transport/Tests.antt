-- ===== src/Transport/Tests.antt =====
-- A daemon and a plug-in on one ring that holds 4000 frames.
use reac_jack.Common.{
  Buffer, List, [], ◌∷◌, arith, false, none, offset, refl, some, true, ◌*◌, ◌+◌, ◌≡◌,
}
use reac_jack.Decode.{Float}
use reac_jack.Decode.Fixture.{quiet, wire_frame, wire_frame-IsBytes, wire_frame-IsReacFrame}
use reac_jack.Decode.Samples.{wire_sample}
use reac_jack.Ring.{Ring, seek_to_fill}
use reac_jack.Ring.Valid.{IsValid, fill}
use reac_jack.Ring.Handle.{Objects, bind, fresh, mapping_bytes, open_ring}
use reac_jack.Lifetimes.{acquire, pcap_handle, shared_ring}
use reac_jack.Daemon.{ReacDaemon, capture_round, packet}
use reac_jack.Driver.{Outcome, channel_count, device, ring_name, target_fill}
use reac_jack.Driver.Fixture.{decimal}
use reac_jack.Driver.Device.{Device, start_io}
use reac_jack.Driver.Operation.{do_io_operation, read_input}
use reac_jack.Daemon.Ready.{AllReady}
use reac_jack.Transport.{packet_reaches_host}
use reac_jack.Daemon.Startup.{is_created}
use reac_jack.Transport.Session.{
  Both, Turn, captured, cycled, happen, happens, stamped, started, stopped,
}
use reac_jack.Transport.Session.Shares.{happens_together}

abbrev shared : Ring Float
shared =
    let new = fresh quiet 48000 2 48000 in
    record new { header = record new.header { write_pos = 5000; read_pos = 1000 } }

shared-IsValid : IsValid shared
shared-IsValid = omega arith

abbrev capturing : ReacDaemon
capturing = record {
  ring = some shared;
  channels = 2;
  received_packets = 7;
  pcap = true;
  actions = acquire pcap_handle ∷ acquire shared_ring ∷ [];
  counter = record { lost = 0; last_counter = 5; have_last_counter = true };
  non_reac_packets = 0;
  malformed_packets = 0;
  capture_errors = 0;
  status_last_received = 0;
  storage = λ c. some (λ f. quiet);
}

abbrev plugged : Device decimal Float
plugged = record {
  running = 1;
  ticks_per_frame = 20833000000;
  anchor_host = 0;
  anchor_sample = 0;
  last_host = 0;
  last_sample = 0;
  seed = 1;
  slaved = 20833000000;
  ref_valid = false;
  ref_host = 0;
  ref_pos = 0;
  ring = (capture_round (λ n. none) 99 capturing (packet wire_frame 124)).1.ring;
}

packet_reaches_host_example :
    let (outcome, dev') =
      do_io_operation quiet plugged true device read_input (some (λ i. quiet)) 4096 in
    (out : Buffer Float) × (outcome ≡ Outcome.ok (some out))
    × (out ((fill shared + 7) * channel_count + 1) ≡ wire_sample (offset wire_frame 50) 2 1 7)
packet_reaches_host_example =
    packet_reaches_host (λ n. none) 99 capturing shared wire_frame 124 quiet plugged (λ i. quiet)
      4096 1 7 refl refl wire_frame-IsBytes wire_frame-IsReacFrame (λ c h. refl) shared-IsValid
      (omega arith) (omega arith) refl (omega arith) refl (omega arith) (omega arith) (omega arith)
      (omega arith) (omega arith)

-- An earlier writer's ring, of four channels, is still there under the name.
abbrev stale : Ring Float
stale = fresh quiet 48000 4 48000

abbrev left_behind : Objects Float
left_behind =
    bind ring_name (some (record { bytes = mapping_bytes 4 48000; memory = stale })) (λ n. none)

abbrev apart : Both decimal
apart = record {
  objects = left_behind;
  daemon = record capturing { pcap = true; ring = none; channels = 0; actions = [] };
  plugin = record plugged { running = 0; ring = none };
  linked = false;
}

-- The host starts on what the earlier writer left; the daemon has its first packet; the host reads,
-- and stops.
abbrev events : List Turn
events =
    started 9 true
    ∷ captured 10 true true true (packet wire_frame 124)
    ∷ cycled read_input (some (λ i. quiet)) 8
    ∷ stopped
    ∷ []

-- It reads again, and another packet comes between.
abbrev later : List Turn
later =
    cycled read_input (some (λ i. quiet)) 8
    ∷ captured 12 true true true (packet wire_frame 124)
    ∷ stamped 13
    ∷ cycled read_input (some (λ i. quiet)) 8
    ∷ []

-- What the plug-in has mapped at first is what was left behind.
maps_stale :
    (happen quiet apart (started 9 true)).plugin.ring ≡ some (seek_to_fill stale target_fill).1
unfolding happen start_io open_ring
maps_stale = refl

happens_together_example :
    let before = happens quiet apart events in
    let after = happens quiet (happen quiet before (started 11 true)) later in
    AllReady 0 before.daemon
    × AllReady 0 after.daemon
    × (before.plugin.running ≡ 0
        → is_created before.daemon ≡ true
        → (r : Ring Float) → after.plugin.ring ≡ some r
        → after.daemon.ring ≡ some r)
happens_together_example =
    happens_together quiet apart events later 11 true (omega arith) (λ r e. ground arith) refl
