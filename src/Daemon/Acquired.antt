-- ===== src/Daemon/Acquired.antt =====
-- src/reacjackd.c: what the daemon has noted as acquired is what it has, in every state of its run.
use reac_jack.Common.{
  Bool, Bool-cases, Buffer, List, Option, [], arith, false, if◌then◌else◌, inl, inr, leb, not, refl,
  some, suc, true, u64, zero, ℕ, ◌!=◌, ◌++◌, ◌+◌, ◌∙◌, ◌∷◌, ◌≡◌,
}
use reac_jack.Decode.{
  Float, Outputs, PacketView, Status, decode_samples, not_reac, ok, parse_packet, zero_view,
}
use reac_jack.Ring.{Ring}
use reac_jack.Lifetimes.{Action, acquire, pcap_handle, shared_ring}
use reac_jack.Daemon.{
  Capture, Moment, Next, ReacDaemon, Tick, accept_decoded, accept_packet, accept_parsed, break_loop,
  broken, capture_loop, capture_round, due_frames, ensure_ring, failure, finished, go_on, packet,
  print_status, run_capture, run_tone, send_due, timeout, tone_loop, tone_packet,
}
use reac_jack.Daemon.Startup.{is_created}

-- What a daemon with a pcap handle or not, and a ring or not, has acquired.
abbrev pub acquired : Bool → Bool → List Action
acquired has_pcap ring_created =
    (if has_pcap then acquire pcap_handle ∷ [] else [])
    ++ (if ring_created then acquire shared_ring ∷ [] else [])

-- The handle is there or not, and no more and no less is noted than the daemon has.
pub record Logged (has_pcap : Bool) (d : ReacDaemon) : Type 0 where
  pub handle : d.pcap ≡ has_pcap
  pub noted : d.actions ≡ acquired has_pcap (is_created d)

-- Nothing is acquired between the two.
record Same (d d' : ReacDaemon) : Type 0 where
  pub handle : d'.pcap ≡ d.pcap
  pub noted : d'.actions ≡ d.actions
  pub ring : is_created d' ≡ is_created d

Same-Logged :
    (has_pcap : Bool) (d d' : ReacDaemon) → Same d d' → Logged has_pcap d → Logged has_pcap d'
Same-Logged has_pcap d d' s l =
    let handle = s.handle in
    let noted = s.noted in
    let ring = s.ring in
    let had = l.handle in
    let had_noted = l.noted in record { handle = handle ∙ had; noted = rw ring (noted ∙ had_noted) }

pub ensure_ring-Logged :
    (has_pcap : Bool) (create : ℕ → Option (Ring Float)) (d : ReacDaemon) (channels : ℕ)
    → Logged has_pcap d
    → Logged has_pcap (ensure_ring create d channels).1
unfolding ensure_ring
ensure_ring-Logged true create d channels l =
    let had = l.handle in
    let noted = l.noted in record { handle = ground arith; noted = ground arith }
ensure_ring-Logged false create d channels l =
    let had = l.handle in
    let noted = l.noted in record { handle = ground arith; noted = ground arith }

accept_decoded-Same :
    (now : ℕ) (d : ReacDaemon) (counter : ℕ) (decoded : Status × Option Outputs)
    → Same d (accept_decoded now d counter decoded)
unfolding accept_decoded
accept_decoded-Same now d counter (ok, some outs) = record {
  handle = refl;
  noted = refl;
  ring = ground arith;
}
accept_decoded-Same now d counter (status, decoded) = record {
  handle = refl;
  noted = refl;
  ring = refl;
}

tone_packet-Same :
    (tone : ℕ → Buffer Float) (now : ℕ) (d : ReacDaemon) (sent : ℕ)
    → Same d (tone_packet tone now d sent)
unfolding tone_packet
tone_packet-Same tone now d sent = record { handle = refl; noted = refl; ring = ground arith }

accept_packet-Logged :
    (has_pcap : Bool) (create : ℕ → Option (Ring Float)) (now : ℕ) (d : ReacDaemon)
    (view : PacketView)
    → Logged has_pcap d
    → Logged has_pcap (accept_packet create now d view).1
unfolding accept_packet
accept_packet-Logged has_pcap create now d view l =
    let ensured = ensure_ring-Logged has_pcap create d view.channels l in
    let after = (ensure_ring create d view.channels).1 in
    let handle = ensured.handle in
    let noted = ensured.noted in
    let decoded =
      decode_samples view.payload view.payload_size view.channels 12 (some after.storage) in
    let accepted =
      Same-Logged has_pcap after _ (accept_decoded-Same now after view.counter decoded) ensured in
    elim (Bool-cases (not (ensure_ring create d view.channels).0)) [
      | inl refused ↦ rw refused ensured
      | inr made ↦ elim (Bool-cases (view.channels != after.channels)) [
        | inl other ↦ rw (made, other) (record { handle = handle; noted = noted })
        | inr same ↦ rw (made, same) accepted
      ]
    ]

capture_round-Logged :
    (has_pcap : Bool) (create : ℕ → Option (Ring Float)) (now : ℕ) (d : ReacDaemon)
    (given : Capture)
    → Logged has_pcap d
    → Logged has_pcap (capture_round create now d given).1
unfolding capture_round
capture_round-Logged has_pcap create now d timeout l = l
capture_round-Logged has_pcap create now d break_loop l = l
capture_round-Logged has_pcap create now d failure l = record { handle = l.handle; noted = l.noted }
capture_round-Logged has_pcap create now d (packet bytes caplen) l =
    go (parse_packet (some bytes) caplen (some zero_view))
  where
    go :
        (parsed : Status × Option PacketView)
        → Logged has_pcap (accept_parsed create now d parsed).1
    go (not_reac, view) = record { handle = l.handle; noted = l.noted }
    go (ok, some view) = accept_packet-Logged has_pcap create now d view l
    go (status, view) = record { handle = l.handle; noted = l.noted }

pub print_status-Logged :
    (has_pcap : Bool) (d : ReacDaemon) (capturing : Bool)
    → Logged has_pcap d
    → Logged has_pcap (print_status d capturing).2
unfolding print_status
print_status-Logged has_pcap d capturing l = record { handle = l.handle; noted = l.noted }

reported-Logged :
    (has_pcap : Bool) (d : ReacDaemon) (due capturing : Bool)
    → Logged has_pcap d
    → Logged has_pcap (if due then (print_status d capturing).2 else d)
reported-Logged has_pcap d true capturing l = print_status-Logged has_pcap d capturing l
reported-Logged has_pcap d false capturing l = l

ends-Logged :
    (has_pcap : Bool) (next : Next) (after : ReacDaemon) (rest : Bool × ReacDaemon)
    → Logged has_pcap after
    → Logged has_pcap rest.1
    → Logged has_pcap
        (elim next as (λ x. Bool × ReacDaemon) [
          | go_on ↦ rest
          | finished ↦ (true, after)
          | broken ↦ (false, after)
        ]).1
ends-Logged has_pcap go_on after rest l m = m
ends-Logged has_pcap finished after rest l m = l
ends-Logged has_pcap broken after rest l m = l

capture_loop-Logged :
    (has_pcap : Bool) (create : ℕ → Option (Ring Float)) (d : ReacDaemon) (ms : List Moment)
    → Logged has_pcap d
    → Logged has_pcap (capture_loop create d ms).1
unfolding capture_loop
capture_loop-Logged has_pcap create d [] l = l
capture_loop-Logged has_pcap create d (m ∷ ms) l =
    let reported = if m.status_due then (print_status d true).2 else d in
    let quiet = reported-Logged has_pcap d m.status_due true l in
    let round = capture_round-Logged has_pcap create m.now reported m.given quiet in
    let (next, after) = capture_round create m.now reported m.given in
    ends-Logged has_pcap next after (capture_loop create after ms) round
      (capture_loop-Logged has_pcap create after ms round)

pub run_capture-Logged :
    (has_pcap : Bool) (create : ℕ → Option (Ring Float)) (opened : Bool) (d : ReacDaemon)
    (ms : List Moment)
    → Logged has_pcap d
    → Logged has_pcap (run_capture create opened d ms).1
unfolding run_capture
run_capture-Logged has_pcap create opened d ms l =
    let ensured = ensure_ring-Logged has_pcap create d d.channels l in
    let after = (ensure_ring create d d.channels).1 in
    elim (Bool-cases (not opened)) [
      | inl closed ↦ rw closed l
      | inr ready ↦ elim (Bool-cases (d.channels != 0)) [
        | inl asked ↦ elim (Bool-cases (ensure_ring create d d.channels).0) [
          | inl made ↦
              rw (ready, asked, made) (capture_loop-Logged has_pcap create after ms ensured)
          | inr refused ↦ rw (ready, asked, refused) ensured
        ]
        | inr any ↦ rw (ready, any) (capture_loop-Logged has_pcap create d ms l)
      ]
    ]

send_due-Logged :
    (has_pcap : Bool) (fuel : ℕ) (tone : ℕ → Buffer Float) (now : ℕ) (d : ReacDaemon) (sent due : ℕ)
    → Logged has_pcap d
    → Logged has_pcap (send_due fuel tone now d sent due).1
unfolding send_due
send_due-Logged has_pcap zero tone now d sent due l = l
send_due-Logged has_pcap (suc fuel) tone now d sent due l =
    let rest =
      send_due-Logged has_pcap fuel tone now (tone_packet tone now d sent) (u64 (sent + 12)) due
        (Same-Logged has_pcap d _ (tone_packet-Same tone now d sent) l) in
    elim (Bool-cases (leb (u64 (sent + 12)) due)) [ inl e ↦ rw e rest | inr e ↦ rw e l ]

tone_loop-Logged :
    (has_pcap : Bool) (tone : ℕ → Buffer Float) (d : ReacDaemon) (sent : ℕ) (ts : List Tick)
    → Logged has_pcap d
    → Logged has_pcap (tone_loop tone d sent ts)
unfolding tone_loop
tone_loop-Logged has_pcap tone d sent [] l = l
tone_loop-Logged has_pcap tone d sent (t ∷ ts) l =
    let due = due_frames t.elapsed in
    let (sent', d') = send_due (due + 1) tone t.now d sent due in
    let reported : ReacDaemon = if t.status_due then (print_status d' false).2 else d' in
    tone_loop-Logged has_pcap tone reported sent' ts (
      reported-Logged has_pcap d' t.status_due false
        (send_due-Logged has_pcap (due + 1) tone t.now d sent due l))

pub run_tone-Logged :
    (has_pcap : Bool) (create : ℕ → Option (Ring Float)) (tone : ℕ → Buffer Float) (d : ReacDaemon)
    (ts : List Tick)
    → Logged has_pcap d
    → Logged has_pcap (run_tone create tone d ts).1
unfolding run_tone
run_tone-Logged has_pcap create tone d ts l =
    let ensured = ensure_ring-Logged has_pcap create d d.channels l in
    let after = (ensure_ring create d d.channels).1 in
    elim (Bool-cases (ensure_ring create d d.channels).0) [
      | inl made ↦ rw made (tone_loop-Logged has_pcap tone after 0 ts ensured)
      | inr refused ↦ rw refused ensured
    ]
