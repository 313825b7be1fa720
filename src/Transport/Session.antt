-- ===== src/Transport/Session.antt =====
-- src/reacjackd.c and src/coreaudio/ReacJackDriver.c over src/shared_audio.c: the daemon's rounds
-- and the host's calls of the plug-in, in any order, on the name under which the ring is shared.
-- The daemon runs with its default name, which is the plug-in's.
pub mod Attached
pub mod Touches
pub mod Shares
use reac_jack.Common.{
  Bool, Buffer, List, Option, [], false, if◌then◌else◌, none, some, true, ℕ, ◌==◌, ◌∷◌,
}
use reac_jack.Decode.{Float, PacketView, Status, ok, parse_packet, zero_view}
use reac_jack.Ring.{Header, Ring}
use reac_jack.Ring.Clock.{get_clock}
use reac_jack.Ring.Handle.{Objects, bind, create, mapping_bytes, open_ring}
use reac_jack.Driver.{device, ring_name}
use reac_jack.Driver.Float64.{Float64}
use reac_jack.Driver.Device.{Device, get_zero_time_stamp, start_io, stop_io}
use reac_jack.Driver.Operation.{Operation, do_io_operation}
use reac_jack.Daemon.{
  Capture, ReacDaemon, capture_round, daemon_ring_frames, daemon_sample_rate, packet,
}
use reac_jack.Daemon.Ready.{created}
use reac_jack.Daemon.Startup.{is_created}

-- A round of the daemon, as long as it runs, with what `shm_open`, `ftruncate` and `mmap` answer if
-- the round creates the ring; or a call of the host: a start says whether what has the ring's name
-- can be mapped, and a timestamp observes the clock of the ring that is mapped.
pub data Turn : Type 0 where
  captured : (now : ℕ) → (opens sized maps : Bool) → Capture → Turn
  started : (now : ℕ) → (maps : Bool) → Turn
  stopped : Turn
  stamped : (now : ℕ) → Turn
  cycled : Operation → Option (Buffer Float) → ℕ → Turn

-- Both processes, and the system's names. `linked` says whether the object that the plug-in opened
-- last is the daemon's own; it is not if an earlier writer has left one behind, which the plug-in
-- keeps mapped although the daemon has unlinked it. Until the daemon has a ring, `objects` is what
-- the names stand for; from then on its ring is what has the ring's name.
pub record Both (R : Float64) : Type 0 where
  pub objects : Objects Float
  pub daemon : ReacDaemon
  pub plugin : Device R Float
  pub linked : Bool

-- `shared_audio_get_clock` of the mapped ring
abbrev pub observed : Option (Ring Float) → Option (ℕ × ℕ)
observed none = none
observed (some r) = get_clock (λ n. r.header)

-- What the names stand for, with the daemon's ring.
abbrev pub named : Objects Float → Option (Ring Float) → Objects Float
named objects none = objects
named objects (some r) =
    bind ring_name
      (some (record { bytes = mapping_bytes r.channels r.capacity_frames; memory = r })) objects

-- An object that still has its name holds what has been stored in it.
abbrev pub stored : Objects Float → Option (Ring Float) → Ring Float → Objects Float
stored objects none r = elim (objects ring_name) [
  | none ↦ objects
  | some s ↦ bind ring_name (some (record s { memory = r })) objects
]
stored objects (some own) r = objects

abbrev width_of : Status × Option PacketView → Option ℕ
width_of (ok, some view) = some view.channels
width_of (status, view) = none

-- The channels of the packet that a daemon without a ring calls `shared_audio_create` for.
abbrev pub asked_for : Capture → Option ℕ
asked_for (packet bytes caplen) = width_of (parse_packet (some bytes) caplen (some zero_view))
asked_for given = none

-- The names after a round: a ring that is created, or that fails to be, has unlinked what was there.
abbrev pub renamed :
    Float → Objects Float → Option (Ring Float) → Option ℕ → Bool → Bool → Bool → Objects Float
renamed silence objects none (some channels) opens sized maps =
    (create silence objects (some ring_name) daemon_sample_rate channels daemon_ring_frames opens
      sized maps).1
renamed silence objects own channels opens sized maps = objects

module _ {R : Float64} where
  -- What the plug-in has stored in the object that it has mapped is what others find there.
  abbrev pub hosted : Both R → Device R Float → Both R
  hosted b plugin = elim (plugin.ring) [
    | none ↦ record b { plugin = plugin }
    | some r ↦
        if b.linked
        then record b { plugin = plugin; daemon = record b.daemon { ring = some r } }
        else record b { plugin = plugin; objects = stored b.objects b.daemon.ring r }
  ]

  -- What the daemon has stored is what a plug-in that has its ring mapped finds.
  abbrev pub mapped : Bool → Device R Float → Option (Ring Float) → Device R Float
  mapped linked plugin ring = record plugin {
    ring = elim (plugin.ring) [ none ↦ none | some old ↦ if linked then ring else some old ];
  }

  -- A first start looks the name up, which is the daemon's ring if it has one.
  abbrev pub looked_up : Both R → Both R
  looked_up b = record b {
    linked = if b.plugin.running == 0 then is_created b.daemon else b.linked;
  }

  unfoldable pub happen : Float → Both R → Turn → Both R
  happen silence b (captured now opens sized maps given) =
      let create = created silence b.objects ring_name opens sized maps in
      let (next, d) = capture_round create now b.daemon given in
      record {
        objects = renamed silence b.objects b.daemon.ring (asked_for given) opens sized maps;
        daemon = d;
        plugin = mapped b.linked b.plugin d.ring;
        linked = b.linked;
      }
  happen silence b (started now maps) =
      let opened = open_ring (named b.objects b.daemon.ring) (some ring_name) maps in
      hosted (looked_up b) (start_io b.plugin true device now opened).1
  happen silence b stopped = hosted b (stop_io b.plugin true device).1
  happen silence b (stamped now) =
      hosted b (get_zero_time_stamp b.plugin true device true (observed b.plugin.ring) now).1
  happen silence b (cycled op buffer frames) =
      hosted b (do_io_operation silence b.plugin true device op buffer frames).1

  unfoldable pub happens : Float → Both R → List Turn → Both R
  happens silence b [] = b
  happens silence b (e ∷ es) = happens silence (happen silence b e) es
