-- ===== src/Pipewire/Startup.antt =====
-- src/reacjack-pw.c: the command line of the PipeWire client, its start-up, and its end. What the
-- system and PipeWire answer are arguments; messages, `pw_init` and `pw_deinit` are left out.
use Prim.Native.String.{String}
use text.Mathlib.Text.{◌==◌ as str_eq}
use reac_jack.Common.{
  Bool, List, Option, [], false, if◌then◌else◌, none, not, some, true, ℕ, ℤ, ◌++◌, ◌∷◌,
}
use reac_jack.Lifetimes.{
  Action, acquire, audio_ring, capture_thread, main_loop, packet_socket, release, stream,
}
use reac_jack.Interfaces.{Interface, choose_interface, printed}
use reac_jack.Decode.{max_channels}
use reac_jack.Daemon.Arguments.{Parsed, bad_channels, bad_usage, channels_of, go, is_unsupported}
use reac_jack.Pipewire.{AudioRing}

-- REACJACK_PW_RING_FRAMES
abbrev pub ring_frames : ℕ
ring_frames = 96000

module _ {A : Type 0} (silence : A) where
  -- `audio_ring_init`; `none` stands for -1, when `calloc` has failed.
  pub audio_ring_init : Bool → ℕ → ℕ → Option (AudioRing A)
  audio_ring_init allocates channels capacity_frames =
      if not allocates
      then none
      else some (record {
        samples = λ i. silence;
        capacity_frames = capacity_frames;
        channels = channels;
        read_pos = 0;
        write_pos = 0;
      })

-- What `main` reads: the bytes of `app.interface`, and the channels.
pub record PwSettings : Type 0 where
  pub interface : List ℕ
  pub channels : ℕ

abbrev pub first_settings : PwSettings
first_settings = record { interface = []; channels = max_channels }

module _ (strtol : String → ℤ) (bytes_of : String → List ℕ) where
  -- The loop over `argv`; the channels have the daemon's test.
  unfoldable pub parse_pw : PwSettings → List String → Parsed PwSettings
  parse_pw s [] = go s
  parse_pw s (a ∷ []) = bad_usage
  parse_pw s (a ∷ b ∷ rest) =
      let with_interface = parse_pw (record s { interface = printed 16 (bytes_of b) }) rest in
      let with_channels = parse_pw (record s { channels = channels_of (strtol b) }) rest in
      if str_eq a "-i"
      then with_interface
      else if str_eq a "-c"
      then (if is_unsupported (strtol b) then bad_channels else with_channels)
      else bad_usage

-- What the system and PipeWire answer.
pub record PwAnswers : Type 0 where
  pub interfaces : Option (List Interface)
  pub selected : Option ℤ
  pub allocates : Bool
  pub makes_socket : Bool
  pub knows_interface : Bool
  pub binds : Bool
  pub makes_loop : Bool
  pub makes_stream : Bool
  pub connects : Bool
  pub makes_thread : Bool

-- `open_capture_socket`: whether it gave a descriptor, and what it did.
pub open_capture_socket : PwAnswers → Bool × List Action
open_capture_socket a =
    let opened = acquire packet_socket ∷ [] in
    let closed = acquire packet_socket ∷ release packet_socket ∷ [] in
    if not a.makes_socket
    then (false, [])
    else if not a.knows_interface
    then (false, closed)
    else if not a.binds
    then (false, closed)
    else (true, opened)

-- `start_pipewire_stream`: whether it returned 0.
pub start_pipewire_stream : PwAnswers → Bool × List Action
start_pipewire_stream a =
    if not a.makes_stream
    then (false, [])
    else if not a.connects
    then (false, acquire stream ∷ [])
    else (true, acquire stream ∷ [])

-- The close of the socket and of the ring, on every path behind them.
abbrev close_capture : List Action
close_capture = release packet_socket ∷ release audio_ring ∷ []

-- From the main loop on; `do_quit` ends the loop, and the thread with it.
pub run_pipewire : PwAnswers → Bool × List Action
unfolding start_pipewire_stream
run_pipewire a =
    let (started, streaming) = start_pipewire_stream a in
    let end = release stream ∷ release main_loop ∷ close_capture in
    if not a.makes_loop
    then (false, close_capture)
    else if not started
    then (false, acquire main_loop ∷ streaming ++ release main_loop ∷ close_capture)
    else if not a.makes_thread
    then (false, acquire main_loop ∷ streaming ++ end)
    else (
      true,
      acquire main_loop ∷ streaming ++ acquire capture_thread ∷ release capture_thread ∷ end,
    )

-- From the allocation of the ring on: whether `main` returns 0, and the ring of the run.
pub run_pw : {A : Type 0} → A → PwAnswers → ℕ → (Bool × List Action) × Option (AudioRing A)
unfolding audio_ring_init open_capture_socket run_pipewire
run_pw silence a channels =
    let ring = audio_ring_init silence a.allocates channels ring_frames in
    let (fd, opening) = open_capture_socket a in
    let (ended_well, running) = run_pipewire a in
    elim ring [
      | none ↦ ((false, []), none)
      | some r ↦
          if not fd
          then ((false, acquire audio_ring ∷ opening ++ release audio_ring ∷ []), none)
          else ((ended_well, acquire audio_ring ∷ opening ++ running), some r)
    ]

-- The interface: the one given, or the one that is chosen.
abbrev interface_of : ℕ → PwSettings → PwAnswers → Option (List ℕ) × List Action
interface_of link s a = elim (s.interface) [
  | [] ↦ choose_interface link 16 a.interfaces a.selected
  | c ∷ name ↦ (some (c ∷ name), [])
]

-- `main` behind its command line: whether it returns 0, what it did, and the ring of the run.
unfoldable pub pw_main :
    {A : Type 0} → ℕ → A → PwSettings → PwAnswers → Bool × List Action × Option (AudioRing A)
unfolding run_pw choose_interface
pw_main link silence s a =
    let (name, choosing) = interface_of link s a in
    let ((ended_well, running), ring) = run_pw silence a s.channels in
    elim name [
      | none ↦ (false, choosing, none)
      | some interface ↦ (ended_well, choosing ++ running, ring)
    ]
