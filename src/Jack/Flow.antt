-- ===== src/Jack/Flow.antt =====
-- src/reacjack.c: a packet from the packet socket's ring to JACK's byte ring.
use reac_jack.Common.{
  Bool, Buffer, List, arith, false, int32, offset, pos, refl, some, tabulate, true, u32, ℕ, ◌%◌,
  ◌*◌, ◌++◌, ◌+◌, ◌≡◌, ◌≢◌, ◌≤◌,
}
use reac_jack.Decode.Value.{IsBytes}
use reac_jack.Decode.Parse.{IsReacFrame}
use reac_jack.Jack.ByteRing.{Behaves, ByteRing}
use reac_jack.Jack.Client.{Client, note_packet_counter}
use reac_jack.Jack.Capture.{PacketRing, Poll, process_rx, process_rx_circle, process_rx_release}
use reac_jack.Jack.Backend.{copy_round}
use reac_jack.Jack.Play.{copy_step_appends}

module _ {J : ByteRing} where
  -- What a round has done with a packet of `channels` channels in the slot at the offset.
  pub record Delivered (app : Client J) (r after : PacketRing) (bytes : Buffer ℕ) (channels : ℕ)
      (result : Bool × Client J × PacketRing) : Type 0 where
    pub goes_on : result.0 ≡ true
    pub appended :
        J.contents result.1.ring ≡ J.contents app.ring ++ tabulate (36 * channels) (offset bytes 50)
    pub counted : result.1.received_packages ≡ app.received_packages + 1
    pub noted : result.1.counter ≡ note_packet_counter app.counter (bytes 14 + bytes 15 * 256)
    pub fitted : result.1.net_buffer_underrun ≡ app.net_buffer_underrun
    pub released : (result.2.slots r.rxring_offset).user ≡ false
    pub others : (i : ℕ) → i ≢ r.rxring_offset → result.2.slots i ≡ after.slots i
    pub moved : result.2.rxring_offset ≡ (r.rxring_offset + 1) % 128

  -- However `poll` comes back before it: when `process_rx` finds a packet, whose slot holds a REAC
  -- frame of the stream's width that fits JACK's ring, a round of the capture thread puts the
  -- payload, whole and in order, behind the bytes that JACK's ring holds, counts the packet and
  -- notes its counter; gives this slot, and no other, back to the kernel; and goes on to the next
  -- slot of the 128. (JACK's ring is taken to behave.)
  pub copy_round-Delivered :
      (app : Client J) (r after : PacketRing) (running : Bool) (polls : List (Poll × Bool))
      (slots : Buffer (Buffer ℕ)) (slot channels : ℕ)
      → Behaves J
      → process_rx r running polls ≡ some (some slot, after)
      → IsBytes (slots slot)
      → IsReacFrame (slots slot) (after.slots slot).len channels
      → app.data_size ≡ 36 * channels
      → 36 * channels ≤ J.write_space app.ring
      → Delivered app r after (slots slot) channels (copy_round app slots true (some slot, after))
  unfolding copy_round process_rx_release
  copy_round-Delivered app r after running polls slots slot channels b e h whole_frame width room =
      let (here, mine, whole, next, still) = process_rx_circle r running polls slot after e in
      let supported = whole_frame.supported in
      let few = supported.at_most in
      let size = whole_frame.length in
      let length : int32 (u32 (after.slots slot).len) ≡ pos (after.slots slot).len = ground arith in
      let facts =
        copy_step_appends app (slots slot) (after.slots slot).len channels b h whole_frame width
          room in
      rw length (record {
        goes_on = refl;
        appended = facts.0;
        counted = facts.1;
        noted = facts.2;
        fitted = facts.3;
        released = ground arith;
        others = λ i ne. ground arith;
        moved = next;
      })
