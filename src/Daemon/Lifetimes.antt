-- ===== src/Daemon/Lifetimes.antt =====
-- src/reacjackd.c: the daemon gives back its pcap handle and its ring.
use Prim.Native.String.{String}
use reac_jack.Common.{
  Bool, Bool-cases, Buffer, List, Option, [], arith, false, if◌then◌else◌, inl, inr, leb, refl,
  some, suc, sym, true, u64, zero, ℕ, ℤ, ◌&&◌, ◌++◌, ◌+◌, ◌∙◌, ◌∷◌, ◌≡◌,
}
use reac_jack.Decode.{Float}
use reac_jack.Ring.{Ring}
use reac_jack.Lifetimes.{IsClean, is_acquired, pcap_handle, perform_all, shared_ring}
use reac_jack.Daemon.{
  Moment, ReacDaemon, Tick, due_frames, ensure_ring, print_status, run_capture, run_tone, send_due,
  tone_loop, tone_packet,
}
use reac_jack.Daemon.Acquired.{
  Logged, acquired, print_status-Logged, run_capture-Logged, run_tone-Logged,
}
use reac_jack.Daemon.Arguments.{Settings, daemon_settings, go}
use reac_jack.Daemon.Startup.{
  Answers, Exit, PcapAnswers, capture_open, close_daemon, daemon_main, first_daemon, is_created,
  run_daemon,
}

tone_packet-is_created :
    (tone : ℕ → Buffer Float) (now : ℕ) (d : ReacDaemon) (sent : ℕ)
    → is_created (tone_packet tone now d sent) ≡ is_created d
unfolding tone_packet
tone_packet-is_created tone now d sent = ground arith

send_due-is_created :
    (fuel : ℕ) (tone : ℕ → Buffer Float) (now : ℕ) (d : ReacDaemon) (sent due : ℕ)
    → is_created (send_due fuel tone now d sent due).1 ≡ is_created d
unfolding send_due
send_due-is_created zero tone now d sent due = refl
send_due-is_created (suc fuel) tone now d sent due =
    let rest =
      send_due-is_created fuel tone now (tone_packet tone now d sent) (u64 (sent + 12)) due
      ∙ tone_packet-is_created tone now d sent in
    elim (Bool-cases (leb (u64 (sent + 12)) due)) [ inl e ↦ rw e rest | inr e ↦ rw e refl ]

tone_loop-is_created :
    (tone : ℕ → Buffer Float) (d : ReacDaemon) (sent : ℕ) (ts : List Tick)
    → is_created (tone_loop tone d sent ts) ≡ is_created d
unfolding tone_loop print_status
tone_loop-is_created tone d sent [] = refl
tone_loop-is_created tone d sent (t ∷ ts) =
    let due = due_frames t.elapsed in
    let (sent', d') = send_due (due + 1) tone t.now d sent due in
    let reported : ReacDaemon = if t.status_due then (print_status d' false).2 else d' in
    let same : is_created reported ≡ is_created d' = elim (Bool-cases t.status_due) [
      | inl e ↦ rw e refl
      | inr e ↦ rw e refl
    ] in
    tone_loop-is_created tone reported sent' ts
    ∙ same
    ∙ send_due-is_created (due + 1) tone t.now d sent due

-- Tone mode ends well just when there is a ring.
run_tone-is_created :
    (create : ℕ → Option (Ring Float)) (tone : ℕ → Buffer Float) (d : ReacDaemon) (ts : List Tick)
    → is_created d ≡ false
    → let (ended_well, after) = run_tone create tone d ts in is_created after ≡ ended_well
unfolding run_tone ensure_ring
run_tone-is_created create tone d ts none_yet =
    let (created, d') = ensure_ring create d d.channels in
    let same : is_created d' ≡ created = ground arith in
    elim (Bool-cases created) [
      | inl e ↦ rw e (tone_loop-is_created tone d' 0 ts ∙ same ∙ e)
      | inr e ↦ rw e (same ∙ e)
    ]

-- What `run_daemon` is right with.
IsRight : Answers → Settings → Exit → Type 0
IsRight a s x =
    IsClean x.actions
    × (s.tone_mode ≡ true
        → (is_acquired pcap_handle x.actions ≡ false)
          × (is_acquired shared_ring x.actions ≡ x.ended_well))
    × (s.tone_mode ≡ false
        → (is_acquired pcap_handle x.actions ≡ a.pcap.creates)
          × (x.ended_well ≡ true → a.pcap.creates && a.pcap.activates && a.pcap.is_ethernet ≡ true))

close_daemon_lem :
    (has_pcap ring_created : Bool)
    → let actions = acquired has_pcap ring_created ++ close_daemon has_pcap ring_created in
      IsClean actions
      × (is_acquired pcap_handle actions ≡ has_pcap)
      × (is_acquired shared_ring actions ≡ ring_created)
unfolding close_daemon perform_all
close_daemon_lem true true = (refl, refl, refl)
close_daemon_lem true false = (refl, refl, refl)
close_daemon_lem false true = (refl, refl, refl)
close_daemon_lem false false = (refl, refl, refl)

-- What a daemon that has noted what it has goes on to do at its end.
Logged-closed :
    (has_pcap : Bool) (d : ReacDaemon)
    → Logged has_pcap d
    → let actions = d.actions ++ close_daemon d.pcap (is_created d) in
      IsClean actions
      × (is_acquired pcap_handle actions ≡ has_pcap)
      × (is_acquired shared_ring actions ≡ is_created d)
Logged-closed has_pcap d l =
    let handle = l.handle in
    let noted = l.noted in rw (handle, noted) (close_daemon_lem has_pcap (is_created d))

print_status-is_created :
    (d : ReacDaemon) (capturing : Bool) → is_created (print_status d capturing).2 ≡ is_created d
unfolding print_status
print_status-is_created d capturing = refl

run_capture-opened :
    (create : ℕ → Option (Ring Float)) (opened : Bool) (d : ReacDaemon) (ms : List Moment)
    → (run_capture create opened d ms).0 ≡ true
    → opened ≡ true
unfolding run_capture
run_capture-opened create true d ms h = refl
run_capture-opened create false d ms h = absurd (ground arith)

-- A capture that is opened notes the handle that `pcap_create` gave.
capture_open_lem :
    (p : PcapAnswers) (d : ReacDaemon)
    → Logged false d
    → is_created d ≡ false
    → let (opened, d') = capture_open p d in
      Logged p.creates d' × (opened ≡ p.creates && p.activates && p.is_ethernet)
unfolding capture_open
capture_open_lem p d l no_ring =
    let handle = l.handle in
    let noted = l.noted in (record { handle = ground arith; noted = ground arith }, ground arith)

run_daemon-IsRight : (a : Answers) (s : Settings) → IsRight a s (run_daemon a s)
unfolding IsRight run_daemon
run_daemon-IsRight a s =
    let d = first_daemon s in
    let nothing : Logged false d = record { handle = refl; noted = refl } in
    let (opened, with_pcap) = capture_open a.pcap d in
    elim (Bool-cases s.tone_mode) [
      | inl tone ↦
          let toned = run_tone-is_created a.create a.tone d a.ticks refl in
          let d' = (run_tone a.create a.tone d a.ticks).1 in
          let logged = run_tone-Logged false a.create a.tone d a.ticks nothing in
          let (clean, pcap, ring) =
            Logged-closed false (print_status d' false).2
              (print_status-Logged false d' false logged) in
          rw tone (
            clean,
            λ e. (pcap, ring ∙ print_status-is_created d' false ∙ toned),
            λ e. absurd (ground arith),
          )
      | inr capturing ↦
          let (open_logged, open_all) = capture_open_lem a.pcap d nothing refl in
          let d' = (run_capture a.create opened with_pcap a.moments).1 in
          let logged =
            run_capture-Logged a.pcap.creates a.create opened with_pcap a.moments open_logged in
          let (clean, pcap, ring) =
            Logged-closed a.pcap.creates (print_status d' d'.pcap).2
              (print_status-Logged a.pcap.creates d' d'.pcap logged) in
          rw capturing (
            clean,
            λ e. absurd (ground arith),
            λ e. (
              pcap,
              λ h. sym open_all ∙ run_capture-opened a.create opened with_pcap a.moments h,
            ),
          )
    ]

-- Whatever the command line, pcap and the creation of the ring give: a daemon that gets past its
-- command line acquires nothing twice and gives back, once, all that it acquired. To play a tone it
-- opens no capture, and it ends well just when it had its ring; to capture it has a pcap handle just
-- when one was made, and it ends well only with a handle that was activated and is of Ethernet.
pub daemon_main_lifetimes :
    (strtol : String → ℤ) (a : Answers) (args : List String) (s : Settings) (x : Exit)
    → daemon_settings strtol args ≡ go s
    → daemon_main strtol a args ≡ some x
    → IsClean x.actions
      × (s.tone_mode ≡ true
          → (is_acquired pcap_handle x.actions ≡ false)
            × (is_acquired shared_ring x.actions ≡ x.ended_well))
      × (s.tone_mode ≡ false
          → (is_acquired pcap_handle x.actions ≡ a.pcap.creates)
            × (x.ended_well ≡ true
                → a.pcap.creates && a.pcap.activates && a.pcap.is_ethernet ≡ true))
unfolding IsRight daemon_main
daemon_main_lifetimes strtol a args s x settings e =
    let same : x ≡ run_daemon a s = ground arith in rw same (run_daemon-IsRight a s)
