-- ===== src/Ring/Threads/Reads.antt =====
-- src/shared_audio.c: the steps of the reader's thread keep what it has and the ring.
use native.Mathlib.Decide.{ℕ_discrete}
use native.Mathlib.Nat.{mod-lt}
use reac_jack.Common.{
  Buffer, ap, arith, eq→==, memset-at, ne→==, refl, u32, u64, ℕ, ◌%◌, ◌*◌, ◌+◌, ◌<◌, ◌∙◌, ◌≡◌, ◌≢◌,
  ◌≤◌,
}
use reac_jack.Common.Modular.{cell-lt}
use reac_jack.Ring.{Header, Ring}
use reac_jack.Ring.Consume.{readable_of_lem}
use reac_jack.Ring.Threads.{
  Reader, dropping, seeking, System, begin_read, copies, load_positions, read_next, reading,
  returned, waiting,
}
use reac_jack.Ring.Threads.Shared.{Stored}
use reac_jack.Ring.Threads.Output.{ReaderInv, Reading, copied-Output}

module _ {A : Type 0} (silence : A) where
  -- What a step of the reader's thread has kept.
  pub record ReadKept (s s' : System A) : Type 0 where
    pub ring : Stored s'.ring s.put
    pub thread : ReaderInv silence s'.ring s.put s'.reader
    pub rows : s'.ring.channels ≡ s.ring.channels
    pub lap : s'.ring.capacity_frames ≡ s.ring.capacity_frames
    pub end : s'.ring.write_pos ≡ s.ring.write_pos
    pub start : s.ring.read_pos ≤ s'.ring.read_pos
    pub samples : s'.ring.samples ≡ s.ring.samples
    pub writer : s'.writer ≡ s.writer
    pub put : s'.put ≡ s.put

  -- From a later read position to the same write position the ring is as stored.
  pub moved-Stored :
      (r : Ring A) (put : Buffer (Buffer A)) (h : Header)
      → Stored r put
      → h.channels ≡ r.channels
      → h.capacity_frames ≡ r.capacity_frames
      → h.write_pos ≡ r.write_pos
      → r.read_pos ≤ h.read_pos
      → h.read_pos ≤ r.write_pos
      → Stored (record r { header = h }) put
  moved-Stored r put h inv rows lap end later within =
      let v = inv.valid in
      let has_room = v.has_room in
      let capacity_fits = v.capacity_fits in
      let before = v.within in
      let position_fits = v.position_fits in
      record {
        valid = record {
          has_room = omega arith;
          capacity_fits = omega arith;
          ordered = omega arith;
          within = omega arith;
          position_fits = omega arith;
        };
        stored = λ c p hc lo hi.
            ap (λ (k : ℕ). r.samples (c * k + p % k)) lap
            ∙ inv.stored c p (omega arith) (omega arith) (omega arith);
      }

  module _ (s : System A) (inv : Stored s.ring s.put) where
    pub rest-ReadKept : ReaderInv silence s.ring s.put s.reader → ReadKept s s
    rest-ReadKept t = record {
      ring = inv;
      thread = t;
      rows = refl;
      lap = refl;
      end = refl;
      start = omega arith;
      samples = refl;
      writer = refl;
      put = refl;
    }

    -- A step of the reader's own that stores no position.
    pub own-ReadKept :
        (reader : Reader A)
        → ReaderInv silence s.ring s.put reader
        → ReadKept s (record s { reader = reader })
    own-ReadKept reader t = record {
      ring = inv;
      thread = t;
      rows = refl;
      lap = refl;
      end = refl;
      start = omega arith;
      samples = refl;
      writer = refl;
      put = refl;
    }

    -- The store of a drop or of a seek: the position has moved on.
    skip-ReadKept :
        (h : Header)
        → h.channels ≡ s.ring.channels
        → h.capacity_frames ≡ s.ring.capacity_frames
        → h.write_pos ≡ s.ring.write_pos
        → s.ring.read_pos ≤ h.read_pos
        → h.read_pos ≤ s.ring.write_pos
        → ReadKept s (record s { ring = record s.ring { header = h }; reader = waiting })
    skip-ReadKept h rows lap end later within = record {
      ring = moved-Stored s.ring s.put h inv rows lap end later within;
      thread = tt;
      rows = rows;
      lap = lap;
      end = end;
      start = later;
      samples = refl;
      writer = refl;
      put = refl;
    }

    module _ (out : Buffer A) (out_channels frames n at ch f : ℕ)
        (t : Reading silence s.ring s.put out out_channels frames n at ch f) where
      -- The release store: the frames leave the ring.
      finish-ReadKept :
          ch ≡ copies s.ring.channels out_channels
          → ReadKept s (read_next s (reading out out_channels frames n at ch f))
      unfolding read_next
      finish-ReadKept last =
          let r = s.ring in
          let here = t.here in
          let available = t.available in
          let v = inv.valid in
          let fits = v.position_fits in
          let end : u64 (at + n) ≡ r.read_pos + n = ground arith in
          let output = t.output in
          rw (eq→== ch (copies r.channels out_channels) last, end, read_next)
            (record {
              ring = moved-Stored r s.put _ inv refl refl refl (omega arith) (omega arith);
              thread = record {
                moved = omega arith;
                request = t.request;
                output = record {
                  copied = λ c i p q u. output.copied c i p q (ground arith);
                  silent = output.silent;
                };
              };
              rows = refl;
              lap = refl;
              end = refl;
              start = omega arith;
              samples = refl;
              writer = refl;
              put = refl;
            })

      next_row-ReadKept :
          ch ≢ copies s.ring.channels out_channels
          → f ≡ n
          → ReadKept s (read_next s (reading out out_channels frames n at ch f))
      unfolding read_next
      next_row-ReadKept more full =
          let r = s.ring in
          let channel = t.channel in
          let output = t.output in
          rw (ne→== ch (copies r.channels out_channels) more, eq→== f n full, read_next)
            (own-ReadKept _ (record {
              here = t.here;
              available = t.available;
              request = t.request;
              channel = omega arith;
              frame = omega arith;
              output = record {
                copied = λ c i p q u. output.copied c i p q (ground arith);
                silent = output.silent;
              };
            }))

      load-ReadKept :
          ch ≢ copies s.ring.channels out_channels
          → f ≢ n
          → ReadKept s (read_next s (reading out out_channels frames n at ch f))
      unfolding read_next
      load-ReadKept more open_end =
          let r = s.ring in
          let v = inv.valid in
          let fits = v.position_fits in
          let capacity_fits = v.capacity_fits in
          let channel = t.channel in
          let frame = t.frame in
          let here = t.here in
          let available = t.available in
          let below = mod-lt (r.read_pos + f) {m = r.capacity_frames} v.has_room in
          let position : u64 (at + f) ≡ r.read_pos + f = ground arith in
          let index : u32 ((r.read_pos + f) % r.capacity_frames)
              ≡ (r.read_pos + f) % r.capacity_frames =
            ground arith in
          let row : ch < copies r.channels out_channels = omega arith in
          rw
            (
              ne→== ch (copies r.channels out_channels) more,
              ne→== f n open_end,
              position,
              index,
              read_next,
            )
            (own-ReadKept _ (record {
              here = here;
              available = available;
              request = t.request;
              channel = channel;
              frame = omega arith;
              output =
                  copied-Output silence r s.put out out_channels frames n at ch f _ t.output row
                    (omega arith)
                    (inv.stored ch (r.read_pos + f) (ground arith) (omega arith) (omega arith)
                      ∙ ap (s.put ch) (omega arith));
            }))

    -- Whatever its next step is.
    pub read_next-ReadKept :
        (reader : Reader A)
        → s.reader ≡ reader
        → ReaderInv silence s.ring s.put reader
        → ReadKept s (read_next s reader)
    unfolding read_next
    read_next-ReadKept waiting e t = rest-ReadKept (rw e t)
    read_next-ReadKept (returned out out_channels frames n at) e t = rest-ReadKept (rw e t)
    read_next-ReadKept (dropping drop) e t =
        let v = inv.valid in
        let fits = v.position_fits in skip-ReadKept _ refl refl refl (omega arith) (omega arith)
    read_next-ReadKept (seeking position) e t = skip-ReadKept _ refl refl refl t.0 t.1
    read_next-ReadKept (reading out out_channels frames n at ch f) e t =
        elim (ℕ_discrete ch (copies s.ring.channels out_channels)) [
          | yes last ↦ finish-ReadKept out out_channels frames n at ch f t last
          | no more ↦ elim (ℕ_discrete f n) [
            | yes full ↦ next_row-ReadKept out out_channels frames n at ch f t more full
            | no open_end ↦ load-ReadKept out out_channels frames n at ch f t more open_end
          ]
        ]

    -- The head of a read: no more than the ring holds, and silence so far.
    load_positions-Reading :
        (out : Buffer A) (out_channels frames : ℕ)
        → ReaderInv silence s.ring s.put (load_positions silence s.ring out out_channels frames)
    unfolding load_positions
    load_positions-Reading out out_channels frames =
        let v = inv.valid in
        let ordered = v.ordered in
        let amount = readable_of_lem s.ring frames v in
        record {
          here = refl;
          available = omega arith;
          request = omega arith;
          channel = omega arith;
          frame = omega arith;
          output = record {
            copied = λ c i p q t. absurd (ground arith);
            silent = λ c i p q w. ground (
              arith,
              memset-at out 0 silence (frames * out_channels) (i * out_channels + c),
              cell-lt out_channels i frames c p q,
            );
          };
        }

    pub begin_read-ReadKept :
        (reader : Reader A) (out : Buffer A) (out_channels frames : ℕ)
        → s.reader ≡ reader
        → ReaderInv silence s.ring s.put reader
        → ReadKept s (begin_read silence s reader out out_channels frames)
    unfolding begin_read
    begin_read-ReadKept waiting out out_channels frames e t =
        own-ReadKept _ (load_positions-Reading out out_channels frames)
    begin_read-ReadKept (returned out' out_channels' frames' n at) out out_channels frames e t =
        own-ReadKept _ (load_positions-Reading out out_channels frames)
    begin_read-ReadKept reader out out_channels frames e t = rest-ReadKept (rw e t)
