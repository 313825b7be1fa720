-- ===== src/Inspector.antt =====
-- src/reacjackctl.c: the ring inspector: its command line, and what it prints of a ring.
mod Tests
use Prim.Native.String.{String}
use text.Mathlib.Text.{◌==◌ as str_eq}
use reac_jack.Common.{
  Bool, Buffer, List, Option, [], false, if◌then◌else◌, none, some, true, ℕ, ◌∷◌,
}
use reac_jack.Ring.{Header, Ring, readable_frames}
use reac_jack.Ring.Clock.{get_clock}
use reac_jack.Ring.Handle.{Objects, open_ring}

-- A line of output: a label with a number or with a text, or the label of a clock that is not
-- published.
pub data Line : Type 0 where
  number : String → ℕ → Line
  name : String → Line
  unpublished : Line

abbrev pub clock_lines : Option (ℕ × ℕ) → List Line
clock_lines none = unpublished ∷ []
clock_lines (some (host_time, sample_pos)) =
    number "clock_host_time" host_time ∷ number "clock_sample_pos" sample_pos ∷ []

-- `print_ring`; `clock` is what the header holds at the loads of `shared_audio_get_clock`.
unfoldable pub print_ring : {A : Type 0} → String → Ring A → Buffer Header → List Line
print_ring ring_name r clock =
    name ring_name
    ∷ number "abi_version" r.abi_version
    ∷ number "sample_rate" r.sample_rate
    ∷ number "channels" r.channels
    ∷ number "capacity_frames" r.capacity_frames
    ∷ number "fill_frames" (readable_frames r)
    ∷ number "write_pos" r.write_pos
    ∷ number "read_pos" r.read_pos
    ∷ number "underruns" r.underruns
    ∷ number "overruns" r.overruns
    ∷ number "dropped_packets" r.dropped_packets
    ∷ number "resets" r.resets
    ∷ number "drift_inserted_frames" r.inserted_frames
    ∷ number "drift_dropped_frames" r.dropped_frames
    ∷ clock_lines (get_clock clock)

-- What `main` has read.
pub record Options : Type 0 where
  pub ring_name : String
  pub watch : Bool

abbrev pub default_options : Options
default_options = record { ring_name = "/reacjack-audio"; watch = false }

-- The loop over `argv`; none for a usage error.
unfoldable pub parse_options : Options → List String → Option Options
parse_options o [] = some o
parse_options o (a ∷ []) = if str_eq a "-w" then some (record o { watch = true }) else none
parse_options o (a ∷ b ∷ rest) =
    let named = parse_options (record o { ring_name = b }) rest in
    let watched = parse_options (record o { watch = true }) (b ∷ rest) in
    if str_eq a "-n" then named else if str_eq a "-w" then watched else none

-- How a run ends: with a status, or not while it watches.
pub data End : Type 0 where
  status : ℕ → End
  watching : End

-- The rounds of `while (watch)`, one for each observation of the ring.
abbrev watch_ring : {A : Type 0} → String → List (Ring A) → List (List Line)
watch_ring ring_name [] = []
watch_ring ring_name (r ∷ later) =
    print_ring ring_name r (λ n. r.header) ∷ watch_ring ring_name later

-- `main` once the ring is open or not.
abbrev inspect : {A : Type 0} → Options → Option (Ring A) → List (Ring A) → End × List (List Line)
inspect o none later = (status 1, [])
inspect o (some r) later =
    let first = print_ring o.ring_name r (λ n. r.header) in
    if o.watch then (watching, first ∷ watch_ring o.ring_name later) else (status 0, first ∷ [])

-- `main`; `maps` is for the open of the ring, and `later` has it second by second.
unfoldable pub ctl_main :
    {A : Type 0} → List String → Objects A → Bool → List (Ring A) → End × List (List Line)
unfolding parse_options open_ring
ctl_main args objects maps later = elim (parse_options default_options args) [
  | none ↦ (status 1, [])
  | some o ↦ inspect o (open_ring objects (some o.ring_name) maps) later
]
