-- ===== src/Daemon.antt =====
-- src/reacjackd.c: the daemon that captures REAC packets and writes them to the shared ring.
pub mod Flow
pub mod Ready
pub mod Tone
pub mod Counting
pub mod Arguments
pub mod Startup
pub mod Acquired
pub mod Lifetimes
mod Tests
use mathlib.Core.Option
use reac_jack.Common.{
  Bool, Buffer, List, Option, [], false, if◌then◌else◌, leb, map, none, not, pos, some, suc, true,
  u64, zero, ℕ, ◌!=◌, ◌*◌, ◌++◌, ◌+◌, ◌/◌, ◌==◌, ◌∷◌,
}
use reac_jack.Counter.{Counter, note_counter}
use reac_jack.Decode.{
  Float, Outputs, PacketView, Status, decode_samples, frames_per_packet, max_int24, not_reac, ok,
  parse_packet, zero_view,
}
use reac_jack.Lifetimes.{Action, acquire, shared_ring}
use reac_jack.Ring.{Ring, done, failed, readable_frames, write}
use reac_jack.Ring.Clock.{publish_clock}

-- `REACJACKD_SAMPLE_RATE` and `REACJACKD_RING_FRAMES`
abbrev pub daemon_sample_rate : ℕ
daemon_sample_rate = 48000

abbrev pub daemon_ring_frames : ℕ
daemon_ring_frames = daemon_sample_rate

-- `ReacDaemon`, with the arrays of the capture loop; the ring is there once `ring_created` is set,
-- and `pcap` says whether there is a pcap handle. What the daemon acquires is noted, in order.
pub record ReacDaemon : Type 0 where
  pub pcap : Bool
  pub ring : Option (Ring Float)
  pub channels : ℕ
  pub received_packets : ℕ
  pub counter : Counter
  pub non_reac_packets : ℕ
  pub malformed_packets : ℕ
  pub capture_errors : ℕ
  pub status_last_received : ℕ
  pub storage : Outputs
  pub actions : List Action

-- `channel_ptrs[ch]`, which points to an array for every channel.
abbrev pub pointers : Outputs → Buffer (Buffer Float)
pointers outs ch = elim (outs ch) [
  | none ↦ λ i. record { numerator = pos 0; denominator = max_int24 }
  | some b ↦ b
]

-- How a round of the loop ends: with the next round, or with a result of `run_capture`.
pub data Next : Type 0 where
  go_on finished broken : Next

-- `ensure_ring`; `create` is `shared_audio_create` with the daemon's name, rate and frames. The
-- answer is whether it returned 0.
unfoldable pub ensure_ring : (ℕ → Option (Ring Float)) → ReacDaemon → ℕ → Bool × ReacDaemon
ensure_ring create d channels = elim (d.ring) [
  | some r ↦ (true, d)
  | none ↦ elim (create channels) [
    | none ↦ (false, d)
    | some r ↦ (
      true,
      record d {
        ring = some r;
        channels = channels;
        actions = d.actions ++ acquire shared_ring ∷ [];
      },
    )
  ]
]

-- The write of one packet's frames and, if they fit, the clock observation of the time `now`.
unfoldable pub write_packet : Ring Float → Buffer (Buffer Float) → ℕ → Ring Float
write_packet r arrays now =
    let (status, r') = write r arrays frames_per_packet in
    elim status [
      | failed ↦ record r' {
        header = record r'.header { dropped_packets = u64 (r'.dropped_packets + 1) };
      }
      | done ↦ record r' { header = publish_clock r'.header now r'.write_pos }
    ]

abbrev pub count_malformed : ReacDaemon → ReacDaemon
count_malformed d = record d { malformed_packets = u64 (d.malformed_packets + 1) }

-- What decoding gave goes to the ring; the counter is noted and the packet counted.
unfoldable pub accept_decoded : ℕ → ReacDaemon → ℕ → Status × Option Outputs → ReacDaemon
accept_decoded now d counter (ok, some outs) = record d {
  ring = Option.map (λ (r : Ring Float). write_packet r (pointers outs) now) d.ring;
  storage = outs;
  counter = note_counter d.counter counter;
  received_packets = u64 (d.received_packets + 1);
}
accept_decoded now d counter (status, outs) = count_malformed d

-- A packet that was parsed, from `ensure_ring` on.
unfoldable pub accept_packet :
    (ℕ → Option (Ring Float)) → ℕ → ReacDaemon → PacketView → Next × ReacDaemon
unfolding accept_decoded
accept_packet create now d view =
    let (created, d') = ensure_ring create d view.channels in
    if not created
    then (broken, d')
    else if view.channels != d'.channels
    then (go_on, count_malformed d')
    else (
      go_on,
      accept_decoded now d' view.counter (
          decode_samples view.payload view.payload_size view.channels frames_per_packet
            (some d'.storage)),
    )

abbrev pub accept_parsed :
    (ℕ → Option (Ring Float)) → ℕ → ReacDaemon → Status × Option PacketView → Next × ReacDaemon
accept_parsed create now d (not_reac, view) =
    (go_on, record d { non_reac_packets = u64 (d.non_reac_packets + 1) })
accept_parsed create now d (ok, some view) = accept_packet create now d view
accept_parsed create now d (status, view) = (go_on, count_malformed d)

-- What `pcap_next_ex` gives: 0, -2, 1 with a packet, or anything else.
pub data Capture : Type 0 where
  timeout break_loop failure : Capture
  packet : Buffer ℕ → ℕ → Capture

-- One round of the loop in `run_capture`, behind its status line. `now` is the host's time.
unfoldable pub capture_round :
    (ℕ → Option (Ring Float)) → ℕ → ReacDaemon → Capture → Next × ReacDaemon
unfolding accept_packet
capture_round create now d timeout = (go_on, d)
capture_round create now d break_loop = (finished, d)
capture_round create now d failure =
    (go_on, record d { capture_errors = u64 (d.capture_errors + 1) })
capture_round create now d (packet bytes caplen) =
    accept_parsed create now d (parse_packet (some bytes) caplen (some zero_view))

-- The warning of `print_status` about the stream.
pub data Warning : Type 0 where
  no_warning no_packets_yet stalled : Warning

-- `print_status`: the fill that it prints, its warning, and the state after it. `capturing` says
-- that the daemon is in no tone mode and has a pcap handle.
unfoldable pub print_status : ReacDaemon → Bool → ℕ × Warning × ReacDaemon
print_status d capturing = (
  elim (d.ring) [ none ↦ 0 | some r ↦ readable_frames r ],
  if not capturing
      then no_warning
      else if d.received_packets == 0
      then no_packets_yet
      else if d.received_packets == d.status_last_received
      then stalled
      else no_warning,
  record d { status_last_received = d.received_packets },
)

-- What a round of the loop of `run_capture` meets: whether a status line is due, the host's time
-- and what pcap gives.
pub record Moment : Type 0 where
  pub status_due : Bool
  pub now : ℕ
  pub given : Capture

-- That loop, until it ends by itself or no more is given, as when the daemon is told to stop: the
-- answer is whether it returned 0, and the state is as it is then.
unfoldable pub capture_loop :
    (ℕ → Option (Ring Float)) → ReacDaemon → List Moment → Bool × ReacDaemon
unfolding capture_round print_status
capture_loop create d [] = (true, d)
capture_loop create d (m ∷ ms) =
    let reported = if m.status_due then (print_status d true).2 else d in
    let (next, d') = capture_round create m.now reported m.given in
    let rest = capture_loop create d' ms in
    elim next [ go_on ↦ rest | finished ↦ (true, d') | broken ↦ (false, d') ]

-- `run_capture`; `opened` says whether `capture_open` succeeds.
unfoldable pub run_capture :
    (ℕ → Option (Ring Float)) → Bool → ReacDaemon → List Moment → Bool × ReacDaemon
unfolding capture_loop ensure_ring
run_capture create opened d cs =
    let (ensured, d') = ensure_ring create d d.channels in
    if not opened
    then (false, d)
    else if d.channels != 0
    then (if ensured then capture_loop create d' cs else (false, d'))
    else capture_loop create d cs

-- The frames due in `run_tone` after `elapsed` nanoseconds.
abbrev pub due_frames : ℕ → ℕ
due_frames elapsed = u64 (elapsed * daemon_sample_rate) / 1000000000

-- One packet of `run_tone`; `tone` is the packet's samples, the same for all channels.
unfoldable pub tone_packet : (ℕ → Buffer Float) → ℕ → ReacDaemon → ℕ → ReacDaemon
tone_packet tone now d sent_frames = record d {
  ring = Option.map (λ (r : Ring Float). write_packet r (λ ch. tone sent_frames) now) d.ring;
  received_packets = u64 (d.received_packets + 1);
}

-- The inner loop of `run_tone`, on fuel for the packets.
unfoldable pub send_due : ℕ → (ℕ → Buffer Float) → ℕ → ReacDaemon → ℕ → ℕ → ℕ × ReacDaemon
send_due zero tone now d sent_frames due = (sent_frames, d)
send_due (suc fuel) tone now d sent_frames due =
    let rest =
      send_due fuel tone now (tone_packet tone now d sent_frames)
        (u64 (sent_frames + frames_per_packet)) due in
    if leb (u64 (sent_frames + frames_per_packet)) due then rest else (sent_frames, d)

-- What a round of the loop of `run_tone` meets: the nanoseconds since the start, the host's time,
-- and whether a status line is due.
pub record Tick : Type 0 where
  pub elapsed : ℕ
  pub now : ℕ
  pub status_due : Bool

-- The loop of `run_tone`, until the daemon is told to stop. What is due is fuel enough for the
-- packets, which are 12 frames each.
unfoldable pub tone_loop : (ℕ → Buffer Float) → ReacDaemon → ℕ → List Tick → ReacDaemon
unfolding send_due print_status
tone_loop tone d sent_frames [] = d
tone_loop tone d sent_frames (t ∷ ts) =
    let due = due_frames t.elapsed in
    let (sent, d') = send_due (due + 1) tone t.now d sent_frames due in
    tone_loop tone (if t.status_due then (print_status d' false).2 else d') sent ts

-- `run_tone`
unfoldable pub run_tone :
    (ℕ → Option (Ring Float)) → (ℕ → Buffer Float) → ReacDaemon → List Tick → Bool × ReacDaemon
unfolding ensure_ring tone_loop
run_tone create tone d ts =
    let (created, d') = ensure_ring create d d.channels in
    if created then (true, tone_loop tone d' 0 ts) else (false, d')
