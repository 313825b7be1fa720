-- ===== src/Daemon/Startup.antt =====
-- src/reacjackd.c: how the daemon opens its capture, runs, and gives back what it holds. What pcap
-- and `shared_audio_create` answer are arguments; messages are left out, and so are the calls whose
-- failure is only reported.
use reac_jack.Common.{
  Bool, Buffer, List, Option, [], false, if◌then◌else◌, none, not, pos, some, true, ℕ, ℤ, ◌&&◌,
  ◌++◌, ◌∷◌,
}
use Prim.Native.String.{String}
use reac_jack.Decode.{Float, max_int24}
use reac_jack.Ring.{Ring}
use reac_jack.Lifetimes.{Action, acquire, pcap_handle, release, shared_ring}
use reac_jack.Daemon.{Moment, ReacDaemon, Tick, print_status, run_capture, run_tone}
use reac_jack.Daemon.Arguments.{Settings, bad_channels, bad_usage, daemon_settings, go}

-- `pcap_create`, `pcap_activate` and `pcap_datalink`.
pub record PcapAnswers : Type 0 where
  pub creates : Bool
  pub activates : Bool
  pub is_ethernet : Bool

-- `capture_open`: whether it returned 0, and the daemon with the handle that `pcap_create` gave.
unfoldable pub capture_open : PcapAnswers → ReacDaemon → Bool × ReacDaemon
capture_open a d =
    let d' : ReacDaemon = record d {
      pcap = true;
      actions = d.actions ++ acquire pcap_handle ∷ [];
    } in
    if not a.creates
    then (false, d)
    else if not a.activates
    then (false, d')
    else if not a.is_ethernet
    then (false, d')
    else (true, d')

-- `memset(&daemon, 0, sizeof(daemon))`, with what the command line sets.
abbrev pub first_daemon : Settings → ReacDaemon
first_daemon s = record {
  pcap = false;
  ring = none;
  channels = s.channels;
  received_packets = 0;
  counter = record { lost = 0; last_counter = 0; have_last_counter = false };
  non_reac_packets = 0;
  malformed_packets = 0;
  capture_errors = 0;
  status_last_received = 0;
  storage = λ ch. some (λ i. record { numerator = pos 0; denominator = max_int24 });
  actions = [];
}

-- What the daemon meets: the outcome of `shared_audio_create` for so many channels, pcap, the
-- rounds of the capture, and the samples and rounds of the tone.
pub record Answers : Type 0 where
  pub create : ℕ → Option (Ring Float)
  pub pcap : PcapAnswers
  pub moments : List Moment
  pub tone : ℕ → Buffer Float
  pub ticks : List Tick

-- How it has ended: whether with status 0, its state, and what it has acquired and given back.
pub record Exit : Type 0 where
  pub ended_well : Bool
  pub state : ReacDaemon
  pub actions : List Action

-- The end of `main`, behind the last status line.
unfoldable pub close_daemon : Bool → Bool → List Action
close_daemon has_pcap ring_created =
    (if has_pcap then release pcap_handle ∷ [] else [])
    ++ (if ring_created then release shared_ring ∷ [] else [])

abbrev pub is_created : ReacDaemon → Bool
is_created d = elim (d.ring) [ none ↦ false | some r ↦ true ]

-- `main` from the signal handlers on.
unfoldable pub run_daemon : Answers → Settings → Exit
run_daemon a s =
    let d = first_daemon s in
    let (opened, with_pcap) = capture_open a.pcap d in
    let (result, d') =
      if s.tone_mode
      then run_tone a.create a.tone d a.ticks
      else run_capture a.create opened with_pcap a.moments in
    let reported = (print_status d' (not s.tone_mode && d'.pcap)).2 in
    record {
      ended_well = result;
      state = reported;
      actions = reported.actions ++ close_daemon reported.pcap (is_created reported);
    }

-- `main` of the daemon; none if it exits before it has anything.
unfoldable pub daemon_main : (String → ℤ) → Answers → List String → Option Exit
daemon_main strtol a args = elim (daemon_settings strtol args) [
  | go s ↦ some (run_daemon a s)
  | bad_usage ↦ none
  | bad_channels ↦ none
]
