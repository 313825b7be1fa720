-- ===== src/Ring/Threads/Writes.antt =====
-- src/shared_audio.c: every step of the writer's thread keeps the invariant of Shared.
use native.Mathlib.Decide.{dec_lt, ℕ_discrete}
use reac_jack.Common.{
  Buffer, ap, arith, eq→==, inl, inr, ne→==, refl, sym, u64, ℕ, ◌%◌, ◌+◌, ◌-◌, ◌<◌, ◌∙◌, ◌≡◌, ◌≢◌,
  ◌≤◌,
}
use reac_jack.Ring.Valid.{sample_at}
use reac_jack.Ring.Threads.{System, Writer, place, resting, write_next, writing}
use reac_jack.Ring.Threads.Shared.{
  Stored, WriterInv, Writing, place_lem, sample_at-with_sample, sample_at-with_sample_self,
  with_sample-IsValid,
}

-- What a step of the writer's thread has kept, for `left` frames that are still to be asked for.
pub record Kept {A : Type 0} (s : System A) (left : ℕ) (s' : System A) : Type 0 where
  pub ring : Stored s'.ring s'.put
  pub thread : WriterInv s'.ring s'.put left s'.writer
  pub rows : s'.ring.channels ≡ s.ring.channels
  pub start : s'.ring.read_pos ≡ s.ring.read_pos
  pub grows : s.ring.write_pos ≤ s'.ring.write_pos
  pub old : (c p : ℕ) → p < s.ring.write_pos → s'.put c p ≡ s.put c p
  pub reader : s'.reader ≡ s.reader

module _ {A : Type 0} (s : System A) (channels : Buffer (Buffer A)) (frames at ch j left : ℕ)
    (inv : Stored s.ring s.put) (w : Writing s.ring s.put channels frames at ch j left) where
  -- The release store: the frames behind the position join the ring.
  publish-Kept : ch ≡ s.ring.channels → Kept s left (write_next s (writing channels frames at ch j))
  unfolding write_next
  publish-Kept last =
      let r = s.ring in
      let v = inv.valid in
      let ordered = v.ordered in
      let small = w.small in
      let room = w.room in
      let here = w.here in
      let end : u64 (at + frames) ≡ r.write_pos + frames = ground arith in
      rw (eq→== ch r.channels last, end, write_next)
        (record {
          ring = record {
            valid = record {
              has_room = v.has_room;
              capacity_fits = v.capacity_fits;
              ordered = omega arith;
              within = omega arith;
              position_fits = omega arith;
            };
            stored = λ c p hc lo hi. elim (dec_lt p r.write_pos) [
              | yes held ↦ inv.stored c p hc lo held
              | no new ↦
                  let split : r.write_pos + (p - r.write_pos) ≡ p = omega arith in
                  let seen =
                    w.copied c (p - r.write_pos) hc (omega arith)
                      (let in_row : c < ch = omega arith in ground arith) in
                  ap (sample_at r c) (sym split) ∙ seen ∙ ap (s.put c) split
            ];
          };
          thread = omega arith;
          rows = refl;
          start = refl;
          grows = omega arith;
          old = λ c p h. refl;
          reader = refl;
        })

  -- The next round of the loop over the channels.
  next_channel-Kept :
      ch ≢ s.ring.channels
      → j ≡ frames
      → Kept s left (write_next s (writing channels frames at ch j))
  unfolding write_next
  next_channel-Kept more full =
      let r = s.ring in
      let channel = w.channel in
      rw (ne→== ch r.channels more, eq→== j frames full, write_next)
        (record {
          ring = inv;
          thread = record {
            here = w.here;
            channel = omega arith;
            frame = omega arith;
            room = w.room;
            small = w.small;
            given = w.given;
            copied = λ c i hc hi t. w.copied c i hc hi (ground arith);
          };
          rows = refl;
          start = refl;
          grows = omega arith;
          old = λ c p h. refl;
          reader = refl;
        })

  copy-Kept :
      ch ≢ s.ring.channels
      → j ≢ frames
      → Kept s left (write_next s (writing channels frames at ch j))
  unfolding write_next
  copy-Kept more open_end =
      let r = s.ring in
      let v = inv.valid in
      let channel = w.channel in
      let frame = w.frame in
      let room = w.room in
      let ordered = v.ordered in
      let spot : place r.capacity_frames at frames j ≡ (r.write_pos + j) % r.capacity_frames =
        ap (λ (t : ℕ). place r.capacity_frames t frames j) w.here
        ∙ place_lem r frames j v room (omega arith) in
      let untouched = λ (c p : ℕ) (lo : r.read_pos ≤ p) (hi : p < r.read_pos + r.capacity_frames).
        sample_at-with_sample r ch c p (r.write_pos + j) (channels ch j) v lo hi (omega arith)
          (omega arith) in
      rw (ne→== ch r.channels more, ne→== j frames open_end, spot, write_next)
        (record {
          ring = record {
            valid = with_sample-IsValid r ch (r.write_pos + j) (channels ch j) v;
            stored = λ c p hc lo hi.
                untouched c p lo (omega arith) (inr (λ e. absurd (omega arith)))
                ∙ inv.stored c p hc lo hi;
          };
          thread = record {
            here = w.here;
            channel = channel;
            frame = omega arith;
            room = room;
            small = w.small;
            given = w.given;
            copied = λ c i hc hi t. elim (ℕ_discrete c ch) [
              | no other ↦
                  untouched c (r.write_pos + i) (omega arith) (omega arith) (inl other)
                  ∙ w.copied c i hc hi (ground arith)
              | yes this ↦ elim (ℕ_discrete i j) [
                | no earlier ↦
                    untouched c (r.write_pos + i) (omega arith) (omega arith)
                      (inr (λ e. earlier (omega arith)))
                    ∙ w.copied c i hc hi (ground arith)
                | yes now ↦
                    rw (this, now)
                      (sample_at-with_sample_self r ch (r.write_pos + j) (channels ch j)
                        ∙ sym (w.given ch j (omega arith)))
              ]
            ];
          };
          rows = refl;
          start = refl;
          grows = omega arith;
          old = λ c p h. refl;
          reader = refl;
        })

module _ {A : Type 0} (s : System A) (left : ℕ) (inv : Stored s.ring s.put) where
  pub idle-Kept : WriterInv s.ring s.put left s.writer → Kept s left s
  idle-Kept w = record {
    ring = inv;
    thread = w;
    rows = refl;
    start = refl;
    grows = omega arith;
    old = λ c p h. refl;
    reader = refl;
  }

  -- Whatever its next step is.
  pub write_next-Kept :
      (writer : Writer A)
      → s.writer ≡ writer
      → WriterInv s.ring s.put left writer
      → Kept s left (write_next s writer)
  unfolding write_next
  write_next-Kept resting e w = idle-Kept (rw e w)
  write_next-Kept (writing channels frames at ch j) e w = elim (ℕ_discrete ch s.ring.channels) [
    | yes last ↦ publish-Kept s channels frames at ch j left inv w last
    | no more ↦ elim (ℕ_discrete j frames) [
      | yes full ↦ next_channel-Kept s channels frames at ch j left inv w more full
      | no open_end ↦ copy-Kept s channels frames at ch j left inv w more open_end
    ]
  ]
