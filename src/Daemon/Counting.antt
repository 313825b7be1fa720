-- ===== src/Daemon/Counting.antt =====
-- src/reacjackd.c: the counters of the capture loop.
use reac_jack.Common.{
  Bool, List, Option, [], ap, arith, if◌then◌else◌, none, refl, some, sym, true, ℕ, ◌+◌, ◌<◌, ◌^◌,
  ◌∙◌, ◌∷◌, ◌≡◌, ◌≢◌,
}
use reac_jack.Decode.{
  Float, Outputs, PacketView, Status, decode_samples, frames_per_packet, not_reac, ok, parse_packet,
  zero_view,
}
use reac_jack.Ring.{Ring}
use reac_jack.Daemon.{
  Capture, Moment, Next, ReacDaemon, accept_decoded, accept_packet, accept_parsed, break_loop,
  broken, capture_loop, capture_round, ensure_ring, failure, finished, go_on, packet, print_status,
  timeout,
}

-- The packets counted in one way or another.
abbrev pub packets : ReacDaemon → ℕ
packets d = d.received_packets + d.non_reac_packets + d.malformed_packets

accept_decoded-packets :
    (now : ℕ) (d : ReacDaemon) (counter : ℕ) (status : Status) (outs : Option Outputs)
    → packets d + 1 < 2 ^ 64
    → packets (accept_decoded now d counter (status, outs)) ≡ packets d + 1
unfolding accept_decoded
accept_decoded-packets now d counter ok (some outs) h = omega arith
accept_decoded-packets now d counter ok none h = omega arith
accept_decoded-packets now d counter _ outs h = omega arith

ensure_ring-packets :
    (create : ℕ → Option (Ring Float)) (d : ReacDaemon) (channels : ℕ)
    → packets ((ensure_ring create d channels).1) ≡ packets d
unfolding ensure_ring
ensure_ring-packets create d channels = ground arith

accept_packet-packets :
    (create : ℕ → Option (Ring Float)) (now : ℕ) (d : ReacDaemon) (view : PacketView)
    → packets d + 1 < 2 ^ 64
    → (accept_packet create now d view).0 ≢ broken
    → packets ((accept_packet create now d view).1) ≡ packets d + 1
unfolding accept_packet
accept_packet-packets create now d view h ne =
    let d' = (ensure_ring create d view.channels).1 in
    let kept = ensure_ring-packets create d view.channels in
    let (status, outs) =
      decode_samples view.payload view.payload_size view.channels frames_per_packet
        (some d'.storage) in
    ground (arith, accept_decoded-packets now d' view.counter status outs)

accept_parsed-packets :
    (create : ℕ → Option (Ring Float)) (now : ℕ) (d : ReacDaemon) (status : Status)
    (view : Option PacketView)
    → packets d + 1 < 2 ^ 64
    → (accept_parsed create now d (status, view)).0 ≢ broken
    → packets ((accept_parsed create now d (status, view)).1) ≡ packets d + 1
accept_parsed-packets create now d not_reac view h ne = omega arith
accept_parsed-packets create now d ok (some view) h ne =
    accept_packet-packets create now d view h ne
accept_parsed-packets create now d ok none h ne = omega arith
accept_parsed-packets create now d _ view h ne = omega arith

accept_parsed-goes_on :
    (create : ℕ → Option (Ring Float)) (now : ℕ) (d : ReacDaemon) (status : Status)
    (view : Option PacketView)
    → (accept_parsed create now d (status, view)).0 ≢ finished
unfolding accept_packet
accept_parsed-goes_on create now d not_reac view e = ground arith
accept_parsed-goes_on create now d ok (some view) e = ground arith
accept_parsed-goes_on create now d ok none e = ground arith
accept_parsed-goes_on create now d _ view e = ground arith

neither : (n : Next) → n ≢ broken → n ≢ finished → n ≡ go_on
neither go_on b f = refl
neither finished b f = absurd (f refl)
neither broken b f = absurd (b refl)

-- How many packets a capture gives.
abbrev pub given_packets : Capture → ℕ
given_packets (packet bytes caplen) = 1
given_packets c = 0

abbrev pub all_packets : List Moment → ℕ
all_packets [] = 0
all_packets (m ∷ ms) = given_packets m.given + all_packets ms

-- pcap never breaks the loop off.
abbrev pub Unbroken : List Moment → Type 0
Unbroken [] = Unit {0}
Unbroken (m ∷ ms) = (m.given ≢ break_loop) × Unbroken ms

capture_round-packets :
    (create : ℕ → Option (Ring Float)) (now : ℕ) (d : ReacDaemon) (c : Capture)
    → packets d + given_packets c < 2 ^ 64
    → c ≢ break_loop
    → (capture_round create now d c).0 ≢ broken
    → ((capture_round create now d c).0 ≢ finished)
      × (packets ((capture_round create now d c).1) ≡ packets d + given_packets c)
unfolding capture_round
capture_round-packets create now d timeout h nb ne = ground arith
capture_round-packets create now d break_loop h nb ne = absurd (nb refl)
capture_round-packets create now d failure h nb ne = ground arith
capture_round-packets create now d (packet bytes caplen) h nb ne =
    let (status, view) = parse_packet (some bytes) caplen (some zero_view) in
    (
      accept_parsed-goes_on create now d status view,
      accept_parsed-packets create now d status view h ne,
    )

-- A capture loop that returns 0, that pcap does not break off, and whose counters do not wrap, has
-- counted every packet given to it exactly once: as received, as not REAC or as malformed.
pub capture_loop-packets :
    (create : ℕ → Option (Ring Float)) (d : ReacDaemon) (ms : List Moment)
    → packets d + all_packets ms < 2 ^ 64
    → Unbroken ms
    → (capture_loop create d ms).0 ≡ true
    → packets ((capture_loop create d ms).1) ≡ packets d + all_packets ms
unfolding capture_loop print_status
capture_loop-packets create d [] h u zero_returned = omega arith
capture_loop-packets create d (m ∷ ms) h u zero_returned =
    let reported = if m.status_due then (print_status d true).2 else d in
    let same : packets reported ≡ packets d = ground arith in
    let round = capture_round create m.now reported m.given in
    let sound : round.0 ≢ broken = λ e. ground arith in
    let one = capture_round-packets create m.now reported m.given (omega arith) u.0 sound in
    let next : round.0 ≡ go_on = neither (round.0) sound one.0 in
    let rest : (capture_loop create (round.1) ms).0 ≡ true
        → packets ((capture_loop create (round.1) ms).1) ≡ packets (round.1) + all_packets ms =
      capture_loop-packets create (round.1) ms (omega arith) u.1 in
    let whole : capture_loop create d (m ∷ ms) ≡ capture_loop create (round.1) ms = ground arith in
    let after = rest (ap (λ (r : Bool × ReacDaemon). r.0) (sym whole) ∙ zero_returned) in
    ap (λ (r : Bool × ReacDaemon). packets (r.1)) whole ∙ omega arith
