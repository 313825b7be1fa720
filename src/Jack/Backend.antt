-- ===== src/Jack/Backend.antt =====
-- src/reacjack.c: `capture_next` and `capture_release` of both back ends, and the loop of the
-- capture thread over them.
use reac_jack.Common.{
  Bool, Buffer, List, Option, [], false, if◌then◌else◌, int32, none, some, true, u32, ℕ, ℤ, ◌+◌,
  ◌∷◌,
}
use reac_jack.Jack.ByteRing.{ByteRing}
use reac_jack.Jack.Client.{Client, copy_step}
use reac_jack.Jack.Capture.{PacketRing, process_rx_release}

-- What `capture_next` gives: 0 with a frame and whether it needs a release, -1, or 1.
pub data Captured : Type 0 where
  frame : Buffer ℕ → ℤ → (needs_release : Bool) → Captured
  failed_capture stopped : Captured

-- On Linux, on what `process_rx` gave, the bytes of the slots, and whether the client runs then.
unfoldable pub packet_captured : Option ℕ → PacketRing → Buffer (Buffer ℕ) → Bool → Captured
packet_captured none r slots running = if running then failed_capture else stopped
packet_captured (some slot) r slots running =
    frame (slots slot) (int32 (u32 (r.slots slot).len)) true

-- What `pcap_next_ex` returns: 1 with the bytes that were captured, 0 for a timeout, -2 at the end
-- of the input, or another error.
pub data PcapNext : Type 0 where
  got : Buffer ℕ → (caplen : ℕ) → PcapNext
  timed_out ended broken : PcapNext

-- On macOS, from whether the client runs and what each call of `pcap_next_ex` gives, with whether
-- it runs after that: what is captured, and `captureErrors`. With no more input it is still waiting.
unfoldable pub pcap_captured : Bool → List (PcapNext × Bool) → ℕ → Option (Captured × ℕ)
pcap_captured false calls errors = some (stopped, errors)
pcap_captured true [] errors = none
pcap_captured true ((got bytes caplen, running) ∷ calls) errors =
    some (frame bytes (int32 (u32 caplen)) false, errors)
pcap_captured true ((timed_out, running) ∷ calls) errors = pcap_captured running calls errors
pcap_captured true ((ended, running) ∷ calls) errors = some (stopped, errors)
pcap_captured true ((broken, running) ∷ calls) errors = some (failed_capture, errors + 1)

-- `capture_release` on Linux; on macOS nothing is to be done.
abbrev pub capture_release : Bool → PacketRing → PacketRing
capture_release needs_release r = if needs_release then process_rx_release r else r

module _ {J : ByteRing} where
  -- A round of `copyData` on Linux: whether the loop goes on, the client and the packet socket's
  -- ring. Every path behind a capture releases its frame.
  unfoldable pub copy_round :
      Client J → Buffer (Buffer ℕ) → Bool → Option ℕ × PacketRing → Bool × Client J × PacketRing
  unfolding packet_captured
  copy_round app slots running (given, r) = elim (packet_captured given r slots running) [
    | frame bytes size needs_release ↦
        (true, copy_step app (some (bytes, size)), capture_release needs_release r)
    | failed_capture ↦ (true, copy_step app none, r)
    | stopped ↦ (false, app, r)
  ]
