-- ===== src/Daemon/Ready/Captures.antt =====
-- src/reacjackd.c: the daemon's ring through the rounds of run_capture.
use Prim.Native.String.{String}
use reac_jack.Common.{
  Bool, Bool-cases, List, Option, [], arith, false, if◌then◌else◌, inl, inr, length, none, not,
  refl, some, suc, sym, true, zero, ℕ, ◌!=◌, ◌*◌, ◌<◌, ◌^◌, ◌∷◌, ◌≡◌, ◌⊎◌,
}
use reac_jack.Decode.{
  Float, Outputs, PacketView, Status, decode_samples, not_reac, ok, parse_packet, zero_view,
}
use reac_jack.Ring.{Ring}
use reac_jack.Ring.Handle.{Objects, create}
use reac_jack.Daemon.{
  Capture, Moment, Next, ReacDaemon, accept_decoded, accept_packet, accept_parsed, break_loop,
  broken, capture_loop, capture_round, ensure_ring, failure, finished, go_on, packet, pointers,
  print_status, run_capture, timeout, write_packet,
}
use reac_jack.Daemon.Ready.{AllReady, IsReady, created, created-IsReady, write_packet-IsReady}

fewer-IsReady :
    (r : Ring Float) (channels left : ℕ) → IsReady channels (suc left) r → IsReady channels left r
fewer-IsReady r channels left t =
    let position = t.position in
    let sequence = t.sequence in
    record {
      valid = t.valid;
      rows = t.rows;
      even = t.even;
      sequence = omega arith;
      position = omega arith;
    }

pub fewer-AllReady : (d : ReacDaemon) (left : ℕ) → AllReady (suc left) d → AllReady left d
fewer-AllReady d left t = λ r e. fewer-IsReady r d.channels left (t r e)

pub option_cases : {A : Type 0} (o : Option A) → (o ≡ none) ⊎ ((x : A) × (o ≡ some x))
option_cases none = inl refl
option_cases (some x) = inr (x, refl)

pub one-AllReady :
    (d : ReacDaemon) (r : Ring Float) (left : ℕ)
    → d.ring ≡ some r
    → IsReady d.channels left r
    → AllReady left d
one-AllReady d r left there t r' e = let same : r ≡ r' = ground arith in rw (sym same) t

-- What `shared_audio_create` gives is ready, whatever the number of channels.
abbrev pub Creates : (ℕ → Option (Ring Float)) → Type 0
Creates create =
    (channels left : ℕ) (r : Ring Float)
    → 12 * left < 2 ^ 64
    → create channels ≡ some r
    → IsReady channels left r

ensure_ring-AllReady :
    (create : ℕ → Option (Ring Float)) (d : ReacDaemon) (channels left : ℕ)
    → 12 * left < 2 ^ 64
    → Creates create
    → AllReady left d
    → AllReady left (ensure_ring create d channels).1
unfolding ensure_ring
ensure_ring-AllReady create d channels left small creates t = elim (option_cases d.ring) [
  | inl absent ↦ elim (option_cases (create channels)) [
    | inl refused ↦ λ r e. ground arith
    | inr (r, given) ↦
        let after = (ensure_ring create d channels).1 in
        let width : after.channels ≡ channels = ground arith in
        one-AllReady after r left (ground arith) (rw width (creates channels left r small given))
  ]
  | inr (r, there) ↦
      let after = (ensure_ring create d channels).1 in
      let width : after.channels ≡ d.channels = ground arith in
      one-AllReady after r left (ground arith) (rw width (t r there))
]

accept_decoded-AllReady :
    (now : ℕ) (d : ReacDaemon) (counter left : ℕ) (decoded : Status × Option Outputs)
    → AllReady (suc left) d
    → AllReady left (accept_decoded now d counter decoded)
unfolding accept_decoded
accept_decoded-AllReady now d counter left (ok, some outs) t = elim (option_cases d.ring) [
  | inl absent ↦ λ r e. ground arith
  | inr (r, there) ↦
      let after = accept_decoded now d counter (ok, some outs) in
      (one-AllReady after (write_packet r (pointers outs) now) left (ground arith)
        (write_packet-IsReady r (pointers outs) now d.channels left (t r there)))
]
accept_decoded-AllReady now d counter left (status, decoded) t = fewer-AllReady d left t

accept_packet-AllReady :
    (create : ℕ → Option (Ring Float)) (now : ℕ) (d : ReacDaemon) (view : PacketView) (left : ℕ)
    → 12 * suc left < 2 ^ 64
    → Creates create
    → AllReady (suc left) d
    → AllReady left (accept_packet create now d view).1
unfolding accept_packet
accept_packet-AllReady create now d view left small creates t =
    let ensured = ensure_ring-AllReady create d view.channels (suc left) small creates t in
    let after = (ensure_ring create d view.channels).1 in
    let decoded =
      decode_samples view.payload view.payload_size view.channels 12 (some after.storage) in
    let accepted = accept_decoded-AllReady now after view.counter left decoded ensured in
    elim (Bool-cases (not (ensure_ring create d view.channels).0)) [
      | inl refused ↦ rw refused (fewer-AllReady after left ensured)
      | inr made ↦ elim (Bool-cases (view.channels != after.channels)) [
        | inl other ↦ rw (made, other) (fewer-AllReady after left ensured)
        | inr same ↦ rw (made, same) accepted
      ]
    ]

pub capture_round-AllReady :
    (create : ℕ → Option (Ring Float)) (now : ℕ) (d : ReacDaemon) (given : Capture) (left : ℕ)
    → 12 * suc left < 2 ^ 64
    → Creates create
    → AllReady (suc left) d
    → AllReady left (capture_round create now d given).1
unfolding capture_round
capture_round-AllReady create now d timeout left small creates t = fewer-AllReady d left t
capture_round-AllReady create now d break_loop left small creates t = fewer-AllReady d left t
capture_round-AllReady create now d failure left small creates t = fewer-AllReady d left t
capture_round-AllReady create now d (packet bytes caplen) left small creates t =
    go (parse_packet (some bytes) caplen (some zero_view))
  where
    go : (parsed : Status × Option PacketView) → AllReady left (accept_parsed create now d parsed).1
    go (not_reac, view) = fewer-AllReady d left t
    go (ok, some view) = accept_packet-AllReady create now d view left small creates t
    go (status, view) = fewer-AllReady d left t

pub none_left-AllReady : (d : ReacDaemon) (left : ℕ) → AllReady left d → AllReady 0 d
none_left-AllReady d zero t = t
none_left-AllReady d (suc left) t = none_left-AllReady d left (fewer-AllReady d left t)

reported-AllReady :
    (d : ReacDaemon) (due : Bool) (left : ℕ)
    → AllReady left d
    → AllReady left (if due then (print_status d true).2 else d)
unfolding print_status
reported-AllReady d true left t = t
reported-AllReady d false left t = t

ends-AllReady :
    (next : Next) (after : ReacDaemon) (rest : Bool × ReacDaemon)
    → AllReady 0 after
    → AllReady 0 rest.1
    → AllReady 0
        (elim next as (λ x. Bool × ReacDaemon) [
          | go_on ↦ rest
          | finished ↦ (true, after)
          | broken ↦ (false, after)
        ]).1
ends-AllReady go_on after rest t u = u
ends-AllReady finished after rest t u = t
ends-AllReady broken after rest t u = t

capture_loop-AllReady :
    (create : ℕ → Option (Ring Float)) (d : ReacDaemon) (ms : List Moment)
    → 12 * length ms < 2 ^ 64
    → Creates create
    → AllReady (length ms) d
    → AllReady 0 (capture_loop create d ms).1
unfolding capture_loop
capture_loop-AllReady create d [] small creates t = t
capture_loop-AllReady create d (m ∷ ms) small creates t =
    let reported = if m.status_due then (print_status d true).2 else d in
    let quiet = reported-AllReady d m.status_due (suc (length ms)) t in
    let round =
      capture_round-AllReady create m.now reported m.given (length ms) (omega arith) creates
        quiet in
    let (next, after) = capture_round create m.now reported m.given in
    ends-AllReady next after (capture_loop create after ms)
      (none_left-AllReady after (length ms) round)
      (capture_loop-AllReady create after ms (omega arith) creates round)

-- `run_capture`, started with no ring under the name of the daemon's own, leaves either no ring or
-- a valid one of the daemon's width whose clock number is even, so that no publication is half
-- done, and whose positions have not wrapped. It holds whatever pcap gives, wherever the status lines fall, whether
-- or not the calls of `shared_audio_create` succeed, and for any number of rounds whose frames fit
-- a position.
pub run_capture-AllReady :
    (silence : Float) (objects : Objects Float) (name : String) (opens sized maps opened : Bool)
    (d : ReacDaemon) (ms : List Moment)
    → 12 * length ms < 2 ^ 64
    → d.ring ≡ none
    → AllReady 0 (run_capture (created silence objects name opens sized maps) opened d ms).1
unfolding run_capture
run_capture-AllReady silence objects name opens sized maps opened d ms small absent =
    let create = created silence objects name opens sized maps in
    let creates : Creates create = λ channels left r less given.
      created-IsReady silence objects name opens sized maps channels left r less given in
    let start : (left : ℕ) → AllReady left d = λ left r e. ground arith in
    let n = length ms in
    let ensured = ensure_ring-AllReady create d d.channels n small creates (start n) in
    let after = (ensure_ring create d d.channels).1 in
    elim (Bool-cases (not opened)) [
      | inl closed ↦ rw closed (start 0)
      | inr ready ↦ elim (Bool-cases (d.channels != 0)) [
        | inl asked ↦ elim (Bool-cases (ensure_ring create d d.channels).0) [
          | inl made ↦
              rw (ready, asked, made) (capture_loop-AllReady create after ms small creates ensured)
          | inr refused ↦ rw (ready, asked, refused) (none_left-AllReady after n ensured)
        ]
        | inr any ↦ rw (ready, any) (capture_loop-AllReady create d ms small creates (start n))
      ]
    ]
