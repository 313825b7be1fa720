-- ===== src/Jack/Capture.antt =====
-- src/reacjack.c: the capture back ends, the packet socket's ring of 128 frames on Linux and pcap
-- on macOS, on what the system gives them.
use reac_jack.Common.{
  Bool, Buffer, List, Option, [], ap, arith, bit_and, false, if◌then◌else◌, none, not, some, true,
  update, ℕ, ◌%◌, ◌+◌, ◌-◌, ◌∙◌, ◌∷◌, ◌≡◌,
}
use reac_jack.Common.Bit.{and_low}

-- CONF_RING_FRAMES
abbrev pub conf_ring_frames : ℕ
conf_ring_frames = 128

-- `struct tpacket_hdr`: TP_STATUS_USER and TP_STATUS_COPY of its status, and its length.
pub record Slot : Type 0 where
  pub user : Bool
  pub copy : Bool
  pub len : ℕ

-- The mapped ring, `rxring_offset` and the counters of the capture thread.
pub record PacketRing : Type 0 where
  pub slots : Buffer Slot
  pub rxring_offset : ℕ
  pub capture_errors : ℕ
  pub malformed_packets : ℕ

-- What `poll` comes back with: EINTR, another error, or the slots as the kernel has left them.
pub data Poll : Type 0 where
  interrupted failed : Poll
  polled : Buffer Slot → Poll

-- `process_rx_release`: the slot goes back to the kernel, and the next one is read.
unfoldable pub process_rx_release : PacketRing → PacketRing
process_rx_release r = record r {
  slots =
      update r.slots r.rxring_offset
        (record { user = false; copy = false; len = (r.slots r.rxring_offset).len });
  rxring_offset = bit_and (r.rxring_offset + 1) (conf_ring_frames - 1);
}

-- The code behind the loop of `process_rx`, or what comes of waiting while the slot is the kernel's.
unfoldable pub take_slot :
    PacketRing → Option (Option ℕ × PacketRing) → Option (Option ℕ × PacketRing)
unfolding process_rx_release
take_slot r waited =
    let slot = r.slots r.rxring_offset in
    if not slot.user
    then waited
    else if slot.copy
    then some (none, process_rx_release (record r { malformed_packets = r.malformed_packets + 1 }))
    else some (some r.rxring_offset, r)

-- `process_rx` on what each `poll` gives, and whether the client runs after it: the slot of a
-- packet, or none for NULL. With no more input it is still waiting, and gives nothing.
unfoldable pub process_rx : PacketRing → Bool → List (Poll × Bool) → Option (Option ℕ × PacketRing)
unfolding take_slot
process_rx r false polls = some (none, r)
process_rx r true [] = take_slot r none
process_rx r true ((interrupted, running) ∷ polls) = take_slot r (process_rx r running polls)
process_rx r true ((failed, running) ∷ polls) =
    take_slot r (some (none, record r { capture_errors = r.capture_errors + 1 }))
process_rx r true ((polled slots, running) ∷ polls) =
    take_slot r (process_rx (record r { slots = slots }) running polls)

-- A packet that is taken stands in the slot at the offset, and the slot is whole.
IsTaken : PacketRing → ℕ → PacketRing → Type 0
IsTaken r slot after =
    (slot ≡ r.rxring_offset)
    × (after.rxring_offset ≡ r.rxring_offset)
    × ((after.slots slot).user ≡ true)
    × ((after.slots slot).copy ≡ false)

take_slot-IsTaken :
    (r : PacketRing) (waited : Option (Option ℕ × PacketRing)) (slot : ℕ) (after : PacketRing)
    → (waited ≡ some (some slot, after) → IsTaken r slot after)
    → take_slot r waited ≡ some (some slot, after)
    → IsTaken r slot after
unfolding take_slot IsTaken
take_slot-IsTaken r waited slot after w e = ground arith

process_rx-IsTaken :
    (r : PacketRing) (running : Bool) (polls : List (Poll × Bool)) (slot : ℕ) (after : PacketRing)
    → process_rx r running polls ≡ some (some slot, after)
    → IsTaken r slot after
unfolding process_rx IsTaken
process_rx-IsTaken r false polls slot after e = absurd (ground arith)
process_rx-IsTaken r true [] slot after e =
    take_slot-IsTaken r none slot after (λ w. absurd (ground arith)) e
process_rx-IsTaken r true ((interrupted, running) ∷ polls) slot after e =
    take_slot-IsTaken r _ slot after (process_rx-IsTaken r running polls slot after) e
process_rx-IsTaken r true ((failed, running) ∷ polls) slot after e =
    take_slot-IsTaken r _ slot after (λ w. absurd (ground arith)) e
process_rx-IsTaken r true ((polled slots, running) ∷ polls) slot after e =
    take_slot-IsTaken r _ slot after
      (process_rx-IsTaken (record r { slots = slots }) running polls slot after) e

-- The slots are used in a circle, whatever `poll` gives: a packet that `process_rx` gives stands,
-- whole and the client's, in the slot at the offset, and giving it back moves the offset on round
-- the 128 slots.
pub process_rx_circle :
    (r : PacketRing) (running : Bool) (polls : List (Poll × Bool)) (slot : ℕ) (after : PacketRing)
    → process_rx r running polls ≡ some (some slot, after)
    → (slot ≡ r.rxring_offset)
      × ((after.slots slot).user ≡ true)
      × ((after.slots slot).copy ≡ false)
      × ((process_rx_release after).rxring_offset ≡ (r.rxring_offset + 1) % 128)
      × (after.rxring_offset ≡ r.rxring_offset)
unfolding process_rx_release IsTaken
process_rx_circle r running polls slot after e =
    let taken = process_rx-IsTaken r running polls slot after e in
    (
      taken.0,
      taken.2,
      taken.3,
      and_low 7 (after.rxring_offset + 1) ∙ ap (λ (o : ℕ). (o + 1) % 128) taken.1,
      taken.1,
    )
