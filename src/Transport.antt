-- ===== src/Transport.antt =====
-- src/reacjackd.c and src/coreaudio/ReacJackDriver.c over src/shared_audio.c: a packet on its way
-- from the network, through the shared ring, into the host's buffer of an IO cycle.
pub mod Session
mod Tests
use mathlib.Core.Option
use reac_jack.Daemon.{ReacDaemon, capture_round, packet}
use reac_jack.Daemon.Flow.{capture_round_delivers}
use reac_jack.Decode.Value.{IsBytes}
use reac_jack.Decode.Parse.{IsReacFrame}
use reac_jack.Decode.Samples.{HasArrays, wire_sample}
use reac_jack.Common.{
  Buffer, Option, [], ap, arith, behind_first, inl, length, length-append, length-tabulate, ltb,
  offset, refl, some, sym, tabulate, true, ℕ, ◌%◌, ◌&&◌, ◌*◌, ◌++◌, ◌+◌, ◌<◌, ◌^◌, ◌∙◌, ◌≡◌, ◌≤◌,
}
use reac_jack.Decode.{Float, ok}
use reac_jack.Ring.{Ring, at_most, read_interleaved}
use reac_jack.Ring.Valid.{IsValid, contents, fill, sample_at}
use reac_jack.Ring.Interleaved.{read_interleaved_lem}
use reac_jack.Ring.Regulate.{read_regulated_within}
use reac_jack.Driver.{Outcome, channel_count, device, fill_tolerance, ok, target_fill}
use reac_jack.Driver.Float64.{Float64}
use reac_jack.Driver.Device.{Device}
use reac_jack.Driver.Operation.{do_io_operation, read_input}

-- A cycle on a ring within the tolerance gives the host the ring's frames from the oldest on.
cycle_frames :
    {R : Float64} (silence : Float) (dev : Device R Float) (r : Ring Float) (buffer : Buffer Float)
    (frames c f : ℕ)
    → dev.ring ≡ some r
    → IsValid r
    → fill r ≤ target_fill + fill_tolerance
    → target_fill ≤ fill r + fill_tolerance
    → c < r.channels
    → c < channel_count
    → f < fill r
    → f < frames
    → let (outcome, dev') =
        do_io_operation silence dev true device read_input (some buffer) frames in
      (out : Buffer Float) × (outcome ≡ Outcome.ok (some out))
      × (out (f * channel_count + c) ≡ sample_at r c (r.read_pos + f))
unfolding do_io_operation
cycle_frames silence dev r buffer frames c f mapped v low high hc hw hf hr =
    let within =
      read_regulated_within silence r buffer channel_count frames target_fill fill_tolerance v
        (omega arith) (omega arith) low (inl high) in
    let facts = read_interleaved_lem silence r buffer channel_count frames v in
    let n = (read_interleaved silence r buffer channel_count frames).0 in
    let given : ltb f n && ltb c r.channels ≡ true = ground (arith, facts.0) in
    rw (mapped, within) (_, refl, facts.1 f c hw ∙ rw given)

-- The 12 values stand behind the frames that the ring held.
delivered_frames :
    (r after : Ring Float) (w : Buffer Float) (c : ℕ)
    → contents after c ≡ contents r c ++ tabulate 12 w
    → (fill after ≡ fill r + 12)
      × ((i : ℕ) → i < 12 → sample_at after c (after.read_pos + (fill r + i)) ≡ w i)
delivered_frames r after w c e =
    let amount : fill after ≡ fill r + 12 =
      sym (length-tabulate (fill after) _)
      ∙ ap length e
      ∙ length-append (contents r c) (tabulate 12 w)
      ∙ ap (λ (k : ℕ). k + 12) (length-tabulate (fill r) _) in
    let all =
      ap (λ (k : ℕ). tabulate k (λ j. sample_at after c (after.read_pos + j))) (sym amount) ∙ e in
    (amount, λ i h. behind_first (fill r) 12 _ _ w i all h)

-- A frame that holds a REAC packet of the daemon's width, when the shared ring is valid, has that
-- width and room for 12 frames, and its clock's number is even (neither that number nor the position
-- is about to wrap, and there is an array for each channel): if the plug-in has this ring mapped,
-- and with the packet the ring's fill is within the tolerance, then its next IO cycle gives the host
-- the packet's samples, channel by channel the values of the wire, behind the frames that the ring
-- held before, as far as the host asks for them.
pub packet_reaches_host :
    {R : Float64} (create : ℕ → Option (Ring Float)) (now : ℕ) (d : ReacDaemon) (r : Ring Float)
    (bytes : Buffer ℕ) (caplen : ℕ) (silence : Float) (dev : Device R Float) (buffer : Buffer Float)
    (frames c i : ℕ)
    → d.ring ≡ some r
    → r.channels ≡ d.channels
    → IsBytes bytes
    → IsReacFrame bytes caplen d.channels
    → HasArrays d.storage d.channels
    → IsValid r
    → fill r + 12 ≤ r.capacity_frames
    → r.write_pos + 12 < 2 ^ 64
    → r.clock_seq % 2 ≡ 0
    → r.clock_seq + 2 < 2 ^ 64
    → dev.ring ≡ (capture_round create now d (packet bytes caplen)).1.ring
    → fill r + 12 ≤ target_fill + fill_tolerance
    → target_fill ≤ fill r + 12 + fill_tolerance
    → c < d.channels
    → i < 12
    → fill r + i < frames
    → let (outcome, dev') =
        do_io_operation silence dev true device read_input (some buffer) frames in
      (out : Buffer Float) × (outcome ≡ Outcome.ok (some out))
      × (out ((fill r + i) * channel_count + c) ≡ wire_sample (offset bytes 50) d.channels c i)
packet_reaches_host create now d r bytes caplen silence dev buffer frames c i there width h f arrays
      v room fits even seq shared low high hc hi hr =
    let t =
      capture_round_delivers create now d r bytes caplen there width h f arrays v room fits even
        seq in
    let s = f.supported in
    let few = s.at_most in
    let (amount, behind) =
      delivered_frames r t.ring (wire_sample (offset bytes 50) d.channels c) c
        (t.wire c (omega arith)) in
    let rows : t.ring.channels ≡ r.channels = t.rows in
    let (out, outcome, seen) =
      cycle_frames silence dev t.ring buffer frames c (fill r + i) (shared ∙ t.present) t.valid
        (omega arith) (omega arith) (omega arith) (omega arith) (omega arith) hr in
    (out, outcome, seen ∙ behind i hi)
