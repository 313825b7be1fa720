-- ===== src/Daemon/Ready.antt =====
-- src/reacjackd.c: what the daemon's ring is before and after each packet.
pub mod Captures
use native.Mathlib.Decide.{dec_lt}
use Prim.Native.String.{String}
use reac_jack.Common.{
  Bool, Buffer, Option, [], ap, arith, refl, some, suc, u64, ℕ, ◌%◌, ◌*◌, ◌+◌, ◌<◌, ◌^◌, ◌∙◌, ◌≡◌,
}
use reac_jack.Decode.{Float}
use reac_jack.Ring.{Header, Return, Ring, done, failed, write}
use reac_jack.Ring.Valid.{IsValid, fill}
use reac_jack.Ring.Write.{write_appends, write_overruns}
use reac_jack.Ring.Clock.{publish_clock}
use reac_jack.Ring.Handle.{Objects, create, fresh}
use reac_jack.Daemon.{ReacDaemon, daemon_ring_frames, daemon_sample_rate, write_packet}

-- A valid ring of `channels` channels with a clock that can be published, for `left` packets more.
pub record IsReady (channels left : ℕ) (r : Ring Float) : Type 0 where
  pub valid : IsValid r
  pub rows : r.channels ≡ channels
  pub even : r.clock_seq % 2 ≡ 0
  pub sequence : r.clock_seq + 2 * left < 2 ^ 64
  pub position : r.write_pos + 12 * left < 2 ^ 64

abbrev pub AllReady : ℕ → ReacDaemon → Type 0
AllReady left d = (r : Ring Float) → d.ring ≡ some r → IsReady d.channels left r

-- The ring that the daemon creates under its name.
abbrev pub created : Float → Objects Float → String → Bool → Bool → Bool → ℕ → Option (Ring Float)
created silence objects name opens sized maps channels =
    (create silence objects (some name) daemon_sample_rate channels daemon_ring_frames opens sized
      maps).0

pub created-IsReady :
    (silence : Float) (objects : Objects Float) (name : String) (opens sized maps : Bool)
    (channels left : ℕ) (r : Ring Float)
    → 12 * left < 2 ^ 64
    → created silence objects name opens sized maps channels ≡ some r
    → IsReady channels left r
unfolding create
created-IsReady silence objects name opens sized maps channels left r small e =
    let same : r ≡ fresh silence 48000 channels 48000 = ground arith in
    rw same (record {
      valid = omega arith;
      rows = refl;
      even = refl;
      sequence = omega arith;
      position = omega arith;
    })

-- What follows the call of `shared_audio_write`, as a function of what it gave.
abbrev behind_write : ℕ → Return × Ring Float → Ring Float
behind_write now (status, r) = elim status [
  | failed ↦ record r { header = record r.header { dropped_packets = u64 (r.dropped_packets + 1) } }
  | done ↦ record r { header = publish_clock r.header now r.write_pos }
]

write_packet-behind_write :
    (r : Ring Float) (arrays : Buffer (Buffer Float)) (now : ℕ)
    → write_packet r arrays now ≡ behind_write now (write r arrays 12)
unfolding write_packet
write_packet-behind_write r arrays now = refl

-- A packet that fits is published, and one that does not is counted.
pub write_packet-IsReady :
    (r : Ring Float) (arrays : Buffer (Buffer Float)) (now channels left : ℕ)
    → IsReady channels (suc left) r
    → IsReady channels left (write_packet r arrays now)
unfolding write_packet publish_clock
write_packet-IsReady r arrays now channels left t =
    let v = t.valid in
    let position = t.position in
    let sequence = t.sequence in
    let even = t.even in
    elim (dec_lt r.capacity_frames (fill r + 12)) [
      | yes full ↦
          rw (write_packet-behind_write r arrays now, write_overruns r arrays 12 v full)
            (record {
              valid = omega arith;
              rows = t.rows;
              even = even;
              sequence = omega arith;
              position = omega arith;
            })
      | no room ↦
          let (status, appended, header, valid) =
            write_appends r arrays 12 v (omega arith) (omega arith) in
          let seq = ap (λ (h : Header). h.clock_seq) header in
          let end = ap (λ (h : Header). h.write_pos) header in
          rw (write_packet, status)
            (record {
              valid = record {
                has_room = valid.has_room;
                capacity_fits = valid.capacity_fits;
                ordered = valid.ordered;
                within = valid.within;
                position_fits = valid.position_fits;
              };
              rows = ap (λ (h : Header). h.channels) header ∙ t.rows;
              even = omega arith;
              sequence = omega arith;
              position = omega arith;
            })
    ]
