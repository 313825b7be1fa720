-- ===== src/Ring/Threads/Begins.antt =====
-- src/shared_audio.c: the begin of a write keeps the ring and what the writer's thread has.
use reac_jack.Common.{
  Bool-cases, Buffer, ap, arith, inl, inr, ltb, ltb→le, refl, ℕ, ◌+◌, ◌-◌, ◌<◌, ◌^◌, ◌∙◌, ◌≡◌,
}
use reac_jack.Ring.{writable_frames}
use reac_jack.Ring.Valid.{writable_frames_lem}
use reac_jack.Ring.Threads.{System, Writer, begin_write, resting, writing}
use reac_jack.Ring.Threads.Shared.{Stored, WriterInv}
use reac_jack.Ring.Threads.Writes.{Kept, idle-Kept}

module _ {A : Type 0} (s : System A) (left : ℕ) (inv : Stored s.ring s.put) where
  -- A call that takes all its frames has put down nothing yet; one that takes none counts an
  -- overrun.
  start-Kept :
      (channels : Buffer (Buffer A)) (frames : ℕ)
      → s.writer ≡ resting
      → s.ring.write_pos + (frames + left) < 2 ^ 64
      → Kept s left (begin_write s resting channels frames)
  unfolding begin_write
  start-Kept channels frames e small = elim (Bool-cases (ltb (writable_frames s.ring) frames)) [
    | inl full ↦
        let v = inv.valid in
        rw (full, begin_write)
          (record {
            ring = record {
              valid = record {
                has_room = v.has_room;
                capacity_fits = v.capacity_fits;
                ordered = v.ordered;
                within = v.within;
                position_fits = v.position_fits;
              };
              stored = inv.stored;
            };
            thread = rw e (omega arith);
            rows = refl;
            start = refl;
            grows = omega arith;
            old = λ c p h. refl;
            reader = refl;
          })
    | inr fits ↦
        let v = inv.valid in
        let ordered = v.ordered in
        let within = v.within in
        let fill = writable_frames_lem s.ring v in
        let room = ltb→le (writable_frames s.ring) frames fits in
        rw (fits, begin_write)
          (record {
            ring = record {
              valid = v;
              stored = λ c p hc lo hi. inv.stored c p hc lo hi ∙ ground arith;
            };
            thread = record {
              here = refl;
              channel = omega arith;
              frame = omega arith;
              room = omega arith;
              small = omega arith;
              given = λ c i h. ground (
                arith,
                ap (channels c)
                    (let back : s.ring.write_pos + i - s.ring.write_pos ≡ i = omega arith in back),
              );
              copied = λ c i hc hi t. absurd (ground arith);
            };
            rows = refl;
            start = refl;
            grows = omega arith;
            old = λ c p h. ground arith;
            reader = refl;
          })
  ]

  pub begin_write-Kept :
      (writer : Writer A) (channels : Buffer (Buffer A)) (frames : ℕ)
      → s.writer ≡ writer
      → WriterInv s.ring s.put (frames + left) writer
      → Kept s left (begin_write s writer channels frames)
  unfolding begin_write
  begin_write-Kept resting channels frames e w = start-Kept channels frames e w
  begin_write-Kept (writing channels' frames' at ch j) channels frames e w = idle-Kept s left inv (
      rw e (record {
        here = w.here;
        channel = w.channel;
        frame = w.frame;
        room = w.room;
        small = let small = w.small in omega arith;
        given = w.given;
        copied = w.copied;
      }))
