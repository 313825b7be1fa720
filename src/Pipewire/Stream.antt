-- ===== src/Pipewire/Stream.antt =====
-- src/reacjack-pw.c: from a REAC frame on the wire to the frames of the ring.
use reac_jack.Common.{
  Bool-cases, Buffer, Option, ap, arith, false, if◌then◌else◌, inl, inr, leb, ltb, none, offset,
  refl, some, suc, u64, update, zero, ℕ, ◌!=◌, ◌&&◌, ◌*◌, ◌+◌, ◌-◌, ◌<◌, ◌==◌, ◌^◌, ◌∙◌, ◌≡◌, ◌≤◌,
}
use reac_jack.Common.Modular.{cell_injective}
use reac_jack.Counter.{note_counter}
use reac_jack.Decode.{Float, Outputs, PacketView, Status, not_reac, ok, zero_view}
use reac_jack.Decode.Value.{IsBytes}
use reac_jack.Decode.Parse.{IsReacFrame, parse_packet_accepts}
use reac_jack.Decode.Fill.{cell}
use reac_jack.Decode.Samples.{HasArrays, decode_samples_ok, wire_sample}
use reac_jack.Pipewire.{AudioRing}
use reac_jack.Pipewire.Write.{IsValid, audio_ring_write_appends, fill, frame_at}
use reac_jack.Pipewire.Capture.{
  ReacPw, array, capture_step, fill_packet, interleave_frame, interleave_packet, offer, received,
  take_decoded, take_parsed,
}

interleave_frame-at :
    (channels : Buffer (Buffer Float)) (n frame left ch : ℕ) (out : Buffer Float) (f c : ℕ)
    → c < n
    → ch + left ≤ n
    → interleave_frame channels n frame left ch out (f * n + c)
      ≡ (if f == frame && (leb ch c && ltb c (ch + left)) then channels c f else out (f * n + c))
unfolding interleave_frame
interleave_frame-at channels n frame zero ch out f c hc h = ground arith
interleave_frame-at channels n frame (suc left) ch out f c hc h =
    let same = cell_injective n f frame c ch hc (omega arith) in
    ground (
      arith,
      interleave_frame-at channels n frame left (ch + 1)
          (update out (frame * n + ch) (channels ch frame)) f c hc (omega arith),
      same,
    )

interleave_packet-at :
    (channels : Buffer (Buffer Float)) (n left frame : ℕ) (out : Buffer Float) (f c : ℕ)
    → c < n
    → interleave_packet channels n left frame out (f * n + c)
      ≡ (if leb frame f && ltb f (frame + left) then channels c f else out (f * n + c))
unfolding interleave_packet
interleave_packet-at channels n zero frame out f c hc = ground arith
interleave_packet-at channels n (suc left) frame out f c hc = ground (
  arith,
  interleave_packet-at channels n left (frame + 1) (interleave_frame channels n frame n 0 out) f c
      hc,
  interleave_frame-at channels n frame n 0 out f c hc (omega arith),
)

-- The packets counted in one way or another.
abbrev pub packets : ReacPw → ℕ
packets app =
    app.received_packets + app.non_reac_packets + app.malformed_packets + app.ring_overruns

-- No counter of packets is about to wrap.
pub record HaveRoom (app : ReacPw) : Type 0 where
  pub received : app.received_packets + 1 < 2 ^ 64
  pub non_reac : app.non_reac_packets + 1 < 2 ^ 64
  pub malformed : app.malformed_packets + 1 < 2 ^ 64
  pub overruns : app.ring_overruns + 1 < 2 ^ 64

offer-packets :
    (app : ReacPw) (counter : ℕ) (answer : Option (AudioRing Float))
    → HaveRoom app
    → packets (offer app counter answer) ≡ packets app + 1
offer-packets app counter none h = let o = h.overruns in omega arith
offer-packets app counter (some ring) h = let r = h.received in omega arith

take_decoded-packets :
    (app : ReacPw) (counter : ℕ) (status : Status) (outs : Option Outputs)
    → HaveRoom app
    → packets (take_decoded app counter (status, outs)) ≡ packets app + 1
take_decoded-packets app counter ok (some outs) h =
    offer-packets (fill_packet app outs) counter _ (record {
      received = h.received;
      non_reac = h.non_reac;
      malformed = h.malformed;
      overruns = h.overruns;
    })
take_decoded-packets app counter ok none h = let m = h.malformed in omega arith
take_decoded-packets app counter _ outs h = let m = h.malformed in omega arith

take_parsed-packets :
    (app : ReacPw) (status : Status) (view : Option PacketView)
    → HaveRoom app
    → packets (take_parsed app (status, view)) ≡ packets app + 1
take_parsed-packets app not_reac view h = let n = h.non_reac in omega arith
take_parsed-packets app ok none h = let m = h.malformed in omega arith
take_parsed-packets app ok (some packet) h = elim (Bool-cases (packet.channels != app.channels)) [
  | inl other ↦ let m = h.malformed in rw other (omega arith)
  | inr same ↦ rw same (take_decoded-packets app packet.counter _ _ h)
]
take_parsed-packets app _ view h = let m = h.malformed in omega arith

-- While no counter of packets is about to wrap, each packet that the socket gives is counted once:
-- as received, as not REAC, as malformed or as an overrun of the ring; so that their sum grows by
-- one.
pub capture_step-packets :
    (app : ReacPw) (bytes : Buffer ℕ) (size : ℕ)
    → HaveRoom app
    → packets (capture_step app (received bytes size)) ≡ packets app + 1
unfolding capture_step
capture_step-packets app bytes size h = take_parsed-packets app _ _ h

cell-array : (outs : Outputs) (c f : ℕ) (v : Float) → cell outs c f ≡ some v → array outs c f ≡ v
cell-array outs c f v h = ground arith

new_cell :
    {A : Type 0} (held f : ℕ) (old : A) (g : ℕ → A)
    → (if ltb (held + f) held then old else g (held + f - held)) ≡ g f
new_cell held f old g = ground arith

old_cell : {A : Type 0} (held k : ℕ) (x y : A) → k < held → (if ltb k held then x else y) ≡ x
old_cell held k x y h = ground arith

first_rows :
    {A : Type 0} (f : ℕ) (x y : A) → f < 12 → (if leb 0 f && ltb f (0 + 12) then x else y) ≡ x
first_rows f x y h = ground arith

-- What a round has done that appended the packet `bytes`.
pub record Appended (app : ReacPw) (bytes : Buffer ℕ) (after : ReacPw) : Type 0 where
  pub wire :
      (f c : ℕ)
      → c < app.channels
      → f < 12
      → frame_at after.ring (app.ring.write_pos + f) c
        ≡ wire_sample (offset bytes 50) app.channels c f
  pub kept :
      (k c : ℕ)
      → c < app.channels
      → k < fill app.ring
      → frame_at after.ring (app.ring.read_pos + k) c ≡ frame_at app.ring (app.ring.read_pos + k) c
  pub moved : after.ring.write_pos ≡ app.ring.write_pos + 12
  pub noted : after.counter ≡ note_counter app.counter (bytes 14 + bytes 15 * 256)
  pub counted : after.received_packets ≡ u64 (app.received_packets + 1)
  pub valid : IsValid after.ring

-- A frame that holds a REAC packet of the client's width, when the ring is valid, has that width
-- and room for 12 frames (its position is not about to wrap, and there is an array for each
-- channel): the ring keeps its frames and appends the packet's 12, each channel with the values of
-- the wire; the packet is counted, its counter is noted, and the ring is valid.
pub capture_step_appends :
    (app : ReacPw) (bytes : Buffer ℕ) (size : ℕ)
    → IsBytes bytes
    → IsReacFrame bytes size app.channels
    → HasArrays app.storage app.channels
    → IsValid app.ring
    → app.ring.channels ≡ app.channels
    → fill app.ring + 12 ≤ app.ring.capacity_frames
    → app.ring.write_pos + 12 < 2 ^ 64
    → Appended app bytes (capture_step app (received bytes size))
unfolding capture_step
capture_step_appends app bytes size h r arrays v width room fits =
    let n = app.channels in
    let s = r.supported in
    let low = s.positive in
    let high = s.at_most in
    let (outs, called, decoded) =
      decode_samples_ok (offset bytes 50) (36 * n) n 12 app.storage (λ i. h (50 + i)) s
        (omega arith) arrays in
    let filled = fill_packet app outs in
    let (ring, wrote, read_end, write_end, cells, valid) =
      audio_ring_write_appends app.ring filled.interleaved 12 v room fits in
    let same : (n != n) ≡ false = ground arith in
    rw (parse_packet_accepts bytes size n zero_view h r, same, called, wrote)
      (record {
        wire = λ f c hc hf.
            ap (λ (p : ℕ). frame_at ring p c) (omega arith)
            ∙ cells (fill app.ring + f) c (omega arith) (omega arith)
            ∙ new_cell (fill app.ring) f
                (frame_at app.ring (app.ring.read_pos + (fill app.ring + f)) c)
                (λ (i : ℕ). filled.interleaved (i * app.ring.channels + c))
            ∙ ap (λ (w : ℕ). filled.interleaved (f * w + c)) width
            ∙ interleave_packet-at (array outs) n 12 0 app.interleaved f c hc
            ∙ first_rows f (array outs c f) _ hf
            ∙ cell-array outs c f _ (decoded.inside c f hc hf);
        kept =
            λ k c hc hk. cells k c (omega arith) (omega arith) ∙ old_cell (fill app.ring) k _ _ hk;
        moved = write_end;
        noted = refl;
        counted = refl;
        valid = valid;
      })
