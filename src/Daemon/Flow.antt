-- ===== src/Daemon/Flow.antt =====
-- src/reacjackd.c: from a REAC frame on the wire to the channels of the shared ring.

use reac_jack.Common.{
  Buffer, Option, ap, arith, false, offset, refl, some, tabulate, tabulate_ext, u64, ℕ, ◌!=◌, ◌%◌,
  ◌*◌, ◌++◌, ◌+◌, ◌<◌, ◌^◌, ◌∙◌, ◌≡◌, ◌≤◌,
}
use reac_jack.Counter.{note_counter}
use reac_jack.Decode.{Float, Outputs, zero_view}
use reac_jack.Decode.Value.{IsBytes}
use reac_jack.Decode.Parse.{IsReacFrame, parse_packet_accepts}
use reac_jack.Decode.Fill.{cell}
use reac_jack.Decode.Samples.{HasArrays, decode_samples_ok, wire_sample}
use reac_jack.Ring.{Header, Ring, write}
use reac_jack.Ring.Valid.{IsValid, contents, fill}
use reac_jack.Ring.Write.{write_appends}
use reac_jack.Ring.Clock.{get_clock, publish_clock}
use reac_jack.Ring.Published.{get_clock-publish_clock}
use reac_jack.Daemon.{
  Next, ReacDaemon, accept_decoded, accept_packet, capture_round, ensure_ring, go_on, packet,
  pointers, write_packet,
}

pointers-cell :
    (outs : Outputs) (c f : ℕ) (v : Float) → cell outs c f ≡ some v → pointers outs c f ≡ v
pointers-cell outs c f v h = ground arith

-- What writing a packet has done to a ring with room.
pub record Written (r : Ring Float) (arrays : Buffer (Buffer Float)) (now : ℕ) (after : Ring Float)
    : Type 0 where
  pub appended :
      (ch : ℕ) → ch < r.channels → contents after ch ≡ contents r ch ++ tabulate 12 (arrays ch)
  pub moved : after.write_pos ≡ r.write_pos + 12
  pub rows : after.channels ≡ r.channels
  pub clock : get_clock (λ n. after.header) ≡ some (now, after.write_pos)
  pub valid : IsValid after

write_packet-Written :
    (r : Ring Float) (arrays : Buffer (Buffer Float)) (now : ℕ)
    → IsValid r
    → fill r + 12 ≤ r.capacity_frames
    → r.write_pos + 12 < 2 ^ 64
    → r.clock_seq % 2 ≡ 0
    → r.clock_seq + 2 < 2 ^ 64
    → Written r arrays now (write_packet r arrays now)
unfolding write_packet publish_clock
write_packet-Written r arrays now v room fits even seq =
    let (status, appended, header, valid) = write_appends r arrays 12 v room fits in
    rw (write_packet, status)
      (record {
        appended = λ ch p. appended ch p;
        moved = ap (λ (h : Header). h.write_pos) header;
        rows = ap (λ (h : Header). h.channels) header;
        clock =
            let same : (write r arrays 12).1.clock_seq ≡ r.clock_seq =
              ap (λ (h : Header). h.clock_seq) header in
            get_clock-publish_clock ((write r arrays 12).1.header) now
              ((write r arrays 12).1.write_pos) (omega arith) (omega arith);
        valid = record {
          has_room = valid.has_room;
          capacity_fits = valid.capacity_fits;
          ordered = valid.ordered;
          within = valid.within;
          position_fits = valid.position_fits;
        };
      })

-- What a round has done that delivered the packet `bytes` to the ring `r`.
pub record Delivered (d : ReacDaemon) (r : Ring Float) (bytes : Buffer ℕ) (now : ℕ) (next : Next)
    (after : ReacDaemon) : Type 0 where
  pub continues : next ≡ go_on
  pub ring : Ring Float
  pub present : after.ring ≡ some ring
  pub wire :
      (ch : ℕ)
      → ch < r.channels
      → contents ring ch
        ≡ contents r ch ++ tabulate 12 (wire_sample (offset bytes 50) d.channels ch)
  pub clock : get_clock (λ n. ring.header) ≡ some (now, r.write_pos + 12)
  pub counted : after.received_packets ≡ u64 (d.received_packets + 1)
  pub noted : after.counter ≡ note_counter d.counter (bytes 14 + bytes 15 * 256)
  pub rows : ring.channels ≡ r.channels
  pub valid : IsValid ring

-- A frame that holds a REAC packet of the daemon's width, when the shared ring is valid, has that
-- width and room for 12 frames, and its clock's number is even (neither that number nor the
-- position is about to wrap, and there is an array for each channel): every channel of the ring
-- gets the packet's 12 values of the wire behind what it held; a reader of the clock finds the
-- time of this write and the new write position; the packet is counted, its counter is noted, the
-- loop goes on, and the ring is valid.
pub capture_round_delivers :
    (create : ℕ → Option (Ring Float)) (now : ℕ) (d : ReacDaemon) (r : Ring Float)
    (bytes : Buffer ℕ) (caplen : ℕ)
    → d.ring ≡ some r
    → r.channels ≡ d.channels
    → IsBytes bytes
    → IsReacFrame bytes caplen d.channels
    → HasArrays d.storage d.channels
    → IsValid r
    → fill r + 12 ≤ r.capacity_frames
    → r.write_pos + 12 < 2 ^ 64
    → r.clock_seq % 2 ≡ 0
    → r.clock_seq + 2 < 2 ^ 64
    → let (next, d') = capture_round create now d (packet bytes caplen) in
      Delivered d r bytes now next d'
unfolding capture_round accept_packet accept_decoded ensure_ring
capture_round_delivers create now d r bytes caplen there width h f arrays v room fits even seq =
    let n = d.channels in
    let s = f.supported in
    let low = s.positive in
    let high = s.at_most in
    let (outs, called, decoded) =
      decode_samples_ok (offset bytes 50) (36 * n) n 12 d.storage (λ i. h (50 + i)) s (omega arith)
        arrays in
    let same : (n != n) ≡ false = ground arith in
    let w = write_packet-Written r (pointers outs) now v room fits even seq in
    rw (parse_packet_accepts bytes caplen n zero_view h f, there, same, called)
      (record {
        continues = refl;
        ring = write_packet r (pointers outs) now;
        present = refl;
        wire = λ ch p.
            w.appended ch p
            ∙ ap (λ l. contents r ch ++ l)
                (tabulate_ext 12 _ _
                  (λ i hi. pointers-cell outs ch i _ (decoded.inside ch i (omega arith) hi)));
        clock = w.clock ∙ ap (λ (p : ℕ). some (now, p)) w.moved;
        counted = refl;
        noted = refl;
        rows = w.rows;
        valid = w.valid;
      })
