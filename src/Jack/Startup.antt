-- ===== src/Jack/Startup.antt =====
-- src/reacjack.c: how the client opens its capture back end, JACK and its buffers, and how it gives
-- them back. What the system and the libraries answer are arguments; what they report beyond
-- success, such as the messages, is left out, and so are calls whose failure is only reported.
use reac_jack.Common.{
  Bool, Buffer, List, Option, [], false, if◌then◌else◌, none, not, some, suc, true, zero, ℕ, ℤ,
  ◌++◌, ◌+◌, ◌∷◌,
}
use reac_jack.Lifetimes.{
  Action, acquire, activation, byte_ring, capture_thread, jack_client, packet_mapping,
  packet_socket, pcap_handle, process_buffer, release,
}
use reac_jack.Interfaces.{Interface, choose_interface}

-- The globals that name resources, and what has been done.
pub record World : Type 0 where
  pub socket_fd : Bool
  pub ring : Bool
  pub pcap_handle : Bool
  pub actions : List Action

abbrev pub untouched : World
untouched = record { socket_fd = false; ring = false; pcap_handle = false; actions = [] }

abbrev pub did : World → Action → World
did w a = record w { actions = w.actions ++ a ∷ [] }

-- `socket`, `setsockopt(PACKET_RX_RING)`, `mmap`, `if_nametoindex` and `bind` on Linux.
pub record PacketAnswers : Type 0 where
  pub makes_socket : Bool
  pub sets_ring : Bool
  pub maps : Bool
  pub knows_interface : Bool
  pub binds : Bool

-- `pcap_create`, `pcap_activate` and `pcap_datalink` on macOS.
pub record PcapAnswers : Type 0 where
  pub creates : Bool
  pub activates : Bool
  pub is_ethernet : Bool

pub data Opening : Type 0 where
  packet_socket_opening : PacketAnswers → Opening
  pcap_opening : PcapAnswers → Opening

-- Whether it gave a mapping.
pub init_packetsock_ring : PacketAnswers → World → Bool × World
init_packetsock_ring a w =
    if not a.sets_ring
    then (false, w)
    else if not a.maps
    then (false, w)
    else (true, did w (acquire packet_mapping))

-- Whether it gave a descriptor.
pub init_packetsock : PacketAnswers → World → Bool × World
unfolding init_packetsock_ring
init_packetsock a w =
    if not a.makes_socket
    then (false, w)
    else let (mapped, w') = init_packetsock_ring a (did w (acquire packet_socket)) in
      let stored = record w' { ring = mapped } in
      if mapped then (true, stored) else (false, did stored (release packet_socket))

pub exit_packetsock : Bool → Bool → World → World
exit_packetsock fd mapped_ring w =
    let unmapped = if mapped_ring then did w (release packet_mapping) else w in
    if fd then did unmapped (release packet_socket) else unmapped

pub open_packet_socket : PacketAnswers → World → Bool × World
unfolding init_packetsock
open_packet_socket a w =
    let (fd, w') = init_packetsock a w in
    let opened = record w' { socket_fd = fd } in
    if not fd
    then (false, opened)
    else if not a.knows_interface
    then (false, opened)
    else if not a.binds
    then (false, opened)
    else (true, opened)

pub open_pcap : PcapAnswers → World → Bool × World
open_pcap a w =
    let created = did (record w { pcap_handle = true }) (acquire pcap_handle) in
    let closed = did (record created { pcap_handle = false }) (release pcap_handle) in
    if not a.creates
    then (false, record w { pcap_handle = false })
    else if not a.activates
    then (false, closed)
    else if not a.is_ethernet
    then (false, closed)
    else (true, created)

-- `capture_open` of the platform: whether it returned 0.
pub capture_open : Opening → World → Bool × World
unfolding open_packet_socket open_pcap
capture_open (packet_socket_opening a) w = open_packet_socket a w
capture_open (pcap_opening a) w = open_pcap a w

pub close_packet_socket : World → World
unfolding exit_packetsock
close_packet_socket w = record (exit_packetsock w.socket_fd w.ring w) {
  socket_fd = false;
  ring = false;
}

pub close_pcap : World → World
close_pcap w =
    if w.pcap_handle then did (record w { pcap_handle = false }) (release pcap_handle) else w

-- `capture_close` of the platform.
pub capture_close : Opening → World → World
unfolding close_packet_socket close_pcap
capture_close (packet_socket_opening a) w = close_packet_socket w
capture_close (pcap_opening a) w = close_pcap w

-- What the rest of the start-up is answered.
pub record Answers : Type 0 where
  pub interfaces : Option (List Interface)
  pub selected : Option ℤ
  pub opening : Opening
  pub makes_client : Bool
  pub registers : Buffer Bool
  pub makes_buffer : Bool
  pub makes_ring : Bool
  pub activates_client : Bool
  pub makes_thread : Bool

-- The loop over the ports, from `i` on; every port is tried.
pub register_ports : Buffer Bool → ℕ → ℕ → Bool → Bool
register_ports registers zero i ports_ok = ports_ok
register_ports registers (suc left) i ports_ok =
    register_ports registers left (i + 1) (if registers i then ports_ok else false)

-- The end of `main`, behind the display loop: the thread is joined, whether it was made or not.
pub stop_client : Answers → World → World
unfolding capture_close
stop_client a w =
    let joined = did w (release capture_thread) in
    let stopped = did joined (release activation) in
    let closed = did (did stopped (release byte_ring)) (release jack_client) in
    did (capture_close a.opening closed) (release process_buffer)

-- From `jack_activate` on: whether `main` returns 0. A thread that cannot be made is reported.
pub run_client : Answers → World → Bool × World
unfolding stop_client
run_client a w =
    let active = did w (acquire activation) in
    let started = if a.makes_thread then did active (acquire capture_thread) else active in
    if not a.activates_client
    then (
      false,
      capture_close a.opening
          (did (did (did w (release byte_ring)) (release process_buffer)) (release jack_client)),
    )
    else (true, stop_client a started)

-- From `jack_client_open` on.
pub open_client : ℕ → Answers → World → Bool × World
unfolding register_ports run_client
open_client ports a w =
    let client = did w (acquire jack_client) in
    let buffer = did client (acquire process_buffer) in
    let ring = did buffer (acquire byte_ring) in
    if not a.makes_client
    then (false, capture_close a.opening w)
    else if not (register_ports a.registers ports 0 true)
    then (false, capture_close a.opening (did client (release jack_client)))
    else if not a.makes_buffer
    then (false, capture_close a.opening (did client (release jack_client)))
    else if not a.makes_ring
    then (
      false,
      capture_close a.opening (did (did buffer (release process_buffer)) (release jack_client)),
    )
    else run_client a ring

-- `main` of the client with its 40 ports: whether it returned 0.
unfoldable pub reac_main : ℕ → ℕ → Answers → Bool × World
unfolding choose_interface capture_open open_client
reac_main link ports a =
    let (name, actions) = choose_interface link 16 a.interfaces a.selected in
    let w = record untouched { actions = actions } in
    let (opened, w') = capture_open a.opening w in
    elim name [
      | none ↦ (false, w)
      | some interface ↦
          if not opened then (false, capture_close a.opening w') else open_client ports a w'
    ]
