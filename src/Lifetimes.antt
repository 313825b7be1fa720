-- ===== src/Lifetimes.antt =====
-- What the programs acquire from the system and from libraries, and the order in which they give it
-- back: src/reacjack.c, src/reacjack-pw.c, src/reacjackd.c.
use reac_jack.Common.{
  Bool, List, Option, [], false, if◌then◌else◌, none, not, some, ℕ, ◌&&◌, ◌==◌, ◌||◌, ◌∷◌, ◌≡◌,
}

-- What is held: sockets, mappings, memory, objects of the libraries, running threads, and the
-- callbacks that JACK makes while a client is active.
pub data Resource : Type 0 where
  interface_list packet_socket packet_mapping pcap_handle jack_client process_buffer : Resource
  byte_ring activation capture_thread audio_ring main_loop stream shared_ring : Resource

pub data Action : Type 0 where
  acquire release : Resource → Action

abbrev tag : Resource → ℕ
tag interface_list = 0
tag packet_socket = 1
tag packet_mapping = 2
tag pcap_handle = 3
tag jack_client = 4
tag process_buffer = 5
tag byte_ring = 6
tag activation = 7
tag capture_thread = 8
tag audio_ring = 9
tag main_loop = 10
tag stream = 11
tag shared_ring = 12

-- Is the second in use as long as the first is held? The capture threads read their socket or pcap
-- handle and fill their ring; JACK calls `process` of an active client; a stream lives on its loop
-- and its callback empties the ring.
abbrev pub needs : Resource → Resource → Bool
needs capture_thread r = tag r == 1 || tag r == 2 || tag r == 3 || tag r == 6 || tag r == 9
needs activation r = tag r == 4 || tag r == 5 || tag r == 6
needs stream r = tag r == 9 || tag r == 10
needs _ r = false

abbrev is_held : Resource → List Resource → Bool
is_held r [] = false
is_held r (h ∷ held) = tag h == tag r || is_held r held

abbrev in_use : Resource → List Resource → Bool
in_use r [] = false
in_use r (h ∷ held) = needs h r || in_use r held

abbrev without : Resource → List Resource → List Resource
without r [] = []
without r (h ∷ held) = if tag h == tag r then held else h ∷ without r held

-- An action on what is held: nothing is acquired twice, and nothing is given back that is not held
-- or that something held still needs.
abbrev perform : Action → List Resource → Option (List Resource)
perform (acquire r) held = if is_held r held then none else some (r ∷ held)
perform (release r) held =
    if is_held r held && not (in_use r held) then some (without r held) else none

-- What is held after the actions; none if one of them was wrong.
unfoldable pub perform_all : List Action → List Resource → Option (List Resource)
perform_all [] held = some held
perform_all (a ∷ actions) held = elim (perform a held) [
  | none ↦ none
  | some held' ↦ perform_all actions held'
]

-- A program that is right with what it acquires: every action is, and nothing is held at its end.
abbrev pub IsClean : List Action → Type 0
IsClean actions = perform_all actions [] ≡ some []

-- Is the resource acquired by one of the actions?
abbrev pub is_acquired : Resource → List Action → Bool
is_acquired r [] = false
is_acquired r (acquire h ∷ actions) = tag h == tag r || is_acquired r actions
is_acquired r (release h ∷ actions) = is_acquired r actions
