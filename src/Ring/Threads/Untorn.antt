-- ===== src/Ring/Threads/Untorn.antt =====
-- src/shared_audio.c: however the steps of the writer's and of the reader's thread interleave,
-- the reader gets what the writer put.
use mathlib.Core.Path.{subst}
use reac_jack.Ring.{Ring}
use reac_jack.Common.{
  Buffer, List, [], arith, refl, sym, ℕ, ◌*◌, ◌+◌, ◌<◌, ◌^◌, ◌∙◌, ◌∷◌, ◌≡◌, ◌≤◌, ◌⊎◌,
}
use reac_jack.Ring.Valid.{IsValid}
use reac_jack.Ring.Threads.{
  dropping, seeking, Move, Reader, System, Writer, all_asked, asked, copies, drop_call, move, moves,
  read_step, read_call, reading, resting, returned, seek_call, start, waiting, write_step,
  write_call, writing,
}
use reac_jack.Ring.Threads.Shared.{Stored, WriterInv}
use reac_jack.Ring.Threads.Writes.{Kept, write_next-Kept}
use reac_jack.Ring.Threads.Begins.{begin_write-Kept}
use reac_jack.Ring.Threads.Skips.{drop_frames-ReadKept, seek-ReadKept}
use reac_jack.Ring.Threads.Reads.{ReadKept, begin_read-ReadKept, read_next-ReadKept}
use reac_jack.Ring.Threads.Output.{Output, ReaderInv}

module _ {A : Type 0} (silence : A) where
  record Inv (left : ℕ) (s : System A) : Type 0 where
    ring : Stored s.ring s.put
    writer : WriterInv s.ring s.put left s.writer
    reader : ReaderInv silence s.ring s.put s.reader

  -- What the reader has is below the writer's position, where the writer puts nothing any more.
  old-Output :
      (channels n at f ch end : ℕ) (put put' : Buffer (Buffer A)) (out : Buffer A)
      (out_channels frames : ℕ)
      → ((c p : ℕ) → p < end → put' c p ≡ put c p)
      → at + n ≤ end
      → Output silence channels put out out_channels frames n at ch f
      → Output silence channels put' out out_channels frames n at ch f
  old-Output channels n at f ch end put put' out out_channels frames old below o = record {
    copied = λ c i p q t. o.copied c i p q t ∙ sym (old c (at + i) (omega arith));
    silent = o.silent;
  }

  module _ (s s' : System A) (left : ℕ) (k : Kept s left s') where
    Kept-ReaderInv :
        (reader : Reader A)
        → s.ring.read_pos ≤ s.ring.write_pos
        → ReaderInv silence s.ring s.put reader
        → ReaderInv silence s'.ring s'.put reader
    Kept-ReaderInv waiting v t = tt
    Kept-ReaderInv (dropping drop) v t = let start = k.start in let grows = k.grows in omega arith
    Kept-ReaderInv (seeking position) v t =
        let start = k.start in let grows = k.grows in (omega arith, omega arith)
    Kept-ReaderInv (reading out out_channels frames n at ch f) v t =
        let here = t.here in
        let available = t.available in
        let start = k.start in
        let grows = k.grows in
        record {
          here = omega arith;
          available = omega arith;
          request = t.request;
          channel = rw (k.rows) (t.channel);
          frame = t.frame;
          output = rw (k.rows) (
              old-Output s.ring.channels n at f ch s.ring.write_pos s.put s'.put out out_channels
                frames k.old (omega arith) t.output);
        }
    Kept-ReaderInv (returned out out_channels frames n at) v t =
        let moved = t.moved in
        let start = k.start in
        record {
          moved = omega arith;
          request = t.request;
          output = rw (k.rows) (
              old-Output s.ring.channels n at 0 (copies s.ring.channels out_channels)
                s.ring.write_pos s.put s'.put out out_channels frames k.old (omega arith) t.output);
        }

    Kept-Inv : (left' : ℕ) → Inv left' s → Inv left s'
    Kept-Inv left' i =
        let ring = i.ring in
        let valid = ring.valid in
        record {
          ring = k.ring;
          writer = k.thread;
          reader = rw (k.reader) (Kept-ReaderInv s.reader (valid.ordered) (i.reader));
        }

  module _ (s s' : System A) (left : ℕ) (k : ReadKept silence s s') where
    ReadKept-WriterInv :
        (writer : Writer A)
        → WriterInv s.ring s.put left writer
        → WriterInv s'.ring s'.put left writer
    ReadKept-WriterInv resting w = let end = k.end in omega arith
    ReadKept-WriterInv (writing channels frames at ch j) w =
        let here = w.here in
        let room = w.room in
        let small = w.small in
        let channel = w.channel in
        let end = k.end in
        let start = k.start in
        let lap = k.lap in
        let rows = k.rows in
        record {
          here = omega arith;
          channel = omega arith;
          frame = w.frame;
          room = omega arith;
          small = omega arith;
          given = λ c i h. rw (k.put, k.end) (w.given c i h);
          copied =
              λ c i p q t. rw (k.samples, k.put, k.end, k.lap) (w.copied c i (omega arith) q t);
        }

    ReadKept-Inv : Inv left s → Inv left s'
    ReadKept-Inv i = record {
      ring = rw (k.put) (k.ring);
      writer = rw (k.writer) (ReadKept-WriterInv s.writer (i.writer));
      reader = rw (k.put) (k.thread);
    }

  none_asked : (s : System A) (left : ℕ) → Inv (0 + left) s → Inv left s
  none_asked s left i = subst (λ (n : ℕ). Inv n s) (omega arith) i

  -- Any move of either thread keeps the invariant.
  move-Inv :
      (s : System A) (m : Move A) (left : ℕ) → Inv (asked m + left) s → Inv left (move silence s m)
  unfolding move
  move-Inv s (write_call channels frames) left i =
      Kept-Inv s _ left (begin_write-Kept s left (i.ring) s.writer channels frames refl (i.writer))
        (frames + left) i
  move-Inv s write_step left i =
      let plain = none_asked s left i in
      Kept-Inv s _ left (write_next-Kept s left (i.ring) s.writer refl (plain.writer)) left plain
  move-Inv s read_step left i =
      ReadKept-Inv s _ left (read_next-ReadKept silence s (i.ring) s.reader refl (i.reader))
        (none_asked s left i)
  move-Inv s (read_call out out_channels frames) left i =
      ReadKept-Inv s _ left
        (begin_read-ReadKept silence s (i.ring) s.reader out out_channels frames refl (i.reader))
        (none_asked s left i)
  move-Inv s (drop_call target_fill tolerance) left i =
      ReadKept-Inv s _ left
        (drop_frames-ReadKept silence s (i.ring) s.reader target_fill tolerance refl (i.reader))
        (none_asked s left i)
  move-Inv s (seek_call target_fill) left i =
      ReadKept-Inv s _ left (seek-ReadKept silence s (i.ring) s.reader target_fill refl (i.reader))
        (none_asked s left i)

  moves-Inv :
      (s : System A) (ms : List (Move A)) → Inv (all_asked ms) s → Inv 0 (moves silence s ms)
  unfolding moves
  moves-Inv s [] i = i
  moves-Inv s (m ∷ ms) i = moves-Inv (move silence s m) ms (move-Inv s m (all_asked ms) i)

  start-Inv : (r : Ring A) (left : ℕ) → IsValid r → r.write_pos + left < 2 ^ 64 → Inv left (start r)
  start-Inv r left v h = record {
    ring = record { valid = v; stored = λ c p hc lo hi. refl };
    writer = h;
    reader = tt;
  }

  -- However the steps of a writer and of a reader interleave, from a valid ring, calls of either
  -- thread, drops and seeks in any order, the ring is valid after each of them; and when a read is over,
  -- each sample that it gave is the one that the writer put at this channel and position, which the
  -- frames that the ring held count as; the others of the frames asked for are silence; and just the
  -- frames given have left the ring. (The positions are taken not to wrap.)
  pub moves_untorn :
      (r : Ring A) (ms : List (Move A))
      → IsValid r
      → r.write_pos + all_asked ms < 2 ^ 64
      → let s = moves silence (start r) ms in
        IsValid s.ring
        × ((out : Buffer A) (out_channels frames n at : ℕ)
            → s.reader ≡ returned out out_channels frames n at
            → ((c i : ℕ)
                → c < copies s.ring.channels out_channels
                → i < n
                → out (i * out_channels + c) ≡ s.put c (at + i))
              × ((c i : ℕ)
                  → c < out_channels
                  → i < frames
                  → (copies s.ring.channels out_channels ≤ c) ⊎ (n ≤ i)
                  → out (i * out_channels + c) ≡ silence)
              × (n ≤ frames)
              × (s.ring.read_pos ≡ at + n))
  moves_untorn r ms v h =
      let i = moves-Inv (start r) ms (start-Inv r (all_asked ms) v h) in
      let ring = i.ring in
      (
        ring.valid,
        λ out out_channels frames n at e.
            let gave : ReaderInv silence (moves silence (start r) ms).ring
                (moves silence (start r) ms).put (returned out out_channels frames n at) =
              subst
                (λ (x : Reader A).
                  ReaderInv silence (moves silence (start r) ms).ring
                    (moves silence (start r) ms).put x)
                e (i.reader) in
            let output = gave.output in
            (
              λ c k p q. output.copied c k p q (ground arith),
              output.silent,
              gave.request,
              sym (gave.moved),
            ),
      )
