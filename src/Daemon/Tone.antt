-- ===== src/Daemon/Tone.antt =====
-- src/reacjackd.c: the tone mode keeps up with the clock.
use native.Mathlib.Decide.{dec_lt}
use reac_jack.Common.{
  Buffer, arith, false, leb, suc, true, u64, zero, ℕ, ◌*◌, ◌+◌, ◌<◌, ◌^◌, ◌≡◌, ◌≤◌,
}
use reac_jack.Decode.{Float, frames_per_packet}
use reac_jack.Daemon.{ReacDaemon, send_due, tone_packet}

-- With enough fuel the inner loop of `run_tone` ends when less than a packet is due: it has sent
-- whole packets, each counted as received, and no more than are due. (The frame count is taken not
-- to wrap.)
pub send_due_lem :
    (fuel : ℕ) (tone : ℕ → Buffer Float) (now : ℕ) (d : ReacDaemon) (sent due : ℕ)
    → due + frames_per_packet < 2 ^ 64
    → d.received_packets + fuel < 2 ^ 64
    → sent ≤ due
    → due < sent + fuel * frames_per_packet
    → let (sent', d') = send_due fuel tone now d sent due in
      (sent' ≤ due)
      × (due < sent' + frames_per_packet)
      × (sent' + frames_per_packet * d.received_packets
          ≡ sent + frames_per_packet * d'.received_packets)
unfolding send_due tone_packet
send_due_lem zero tone now d sent due fits counts below enough = absurd (omega arith)
send_due_lem (suc fuel) tone now d sent due fits counts below enough =
    elim (dec_lt due (sent + frames_per_packet)) [
      | yes done ↦
          let stop : leb (u64 (sent + frames_per_packet)) due ≡ false = ground arith in
          rw stop (below, done, omega arith)
      | no more ↦
          let next : u64 (sent + frames_per_packet) ≡ sent + frames_per_packet = omega arith in
          let one : (tone_packet tone now d sent).received_packets ≡ d.received_packets + 1 =
            omega arith in
          let go : leb (sent + frames_per_packet) due ≡ true = ground arith in
          let rest =
            send_due_lem fuel tone now (tone_packet tone now d sent) (sent + frames_per_packet) due
              fits (omega arith) (omega arith) (omega arith) in
          rw (next, go) (rest.0, rest.1, omega arith)
    ]
