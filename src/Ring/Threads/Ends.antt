-- ===== src/Ring/Threads/Ends.antt =====
-- src/shared_audio.c: neither thread waits for the other: a call ends by its own steps, in a
-- number that its arguments determine, whatever the other thread does between them.
use mathlib.Core.List.{List}
use native.Mathlib.Decide.{ℕ_discrete}
use mathlib.Core.Path.{subst}
use reac_jack.Ring.Threads.Alike.{Alike, IsBusy, reads_made, rest-Alike}
use reac_jack.Ring.{readable_of}
use reac_jack.Common.{
  Buffer, List, [], ap, arith, eq→==, ne→==, refl, suc, sym, ℕ, ◌*◌, ◌+◌, ◌-◌, ◌<◌, ◌∙◌, ◌∷◌, ◌≡◌,
  ◌≤◌,
}
use reac_jack.Ring.Threads.{
  Move, Reader, System, begin_read, copies, drop_call, load_positions, move, moves, read_step,
  read_call, read_next, reading, returned, seek_call, waiting, write_step, write_call,
}

-- The steps that a call that reads has still to make, of a ring of `channels` channels.
abbrev pub reads_left : ℕ → ℕ → ℕ → ℕ → ℕ → ℕ
reads_left channels out_channels n ch f = (copies channels out_channels - ch) * (n + 1) - f + 1

row_less :
    (rows ch n : ℕ) → ch < rows → (rows - ch) * (n + 1) ≡ (rows - (ch + 1)) * (n + 1) + (n + 1)
row_less rows ch n h =
    let below = rows - (ch + 1) in
    let one_more : rows - ch ≡ below + 1 = omega arith in
    let product : (below + 1) * (n + 1) ≡ below * (n + 1) + (n + 1) = grind arith in
    ap (λ (d : ℕ). d * (n + 1)) one_more ∙ product

module _ {A : Type 0} (silence : A) where
  -- A call that reads is on its way, with `left` steps to make.
  record IsReading (s : System A) (out_channels frames n at left : ℕ) : Type 0 where
    out : Buffer A
    ch : ℕ
    f : ℕ
    stands : s.reader ≡ reading out out_channels frames n at ch f
    channel : ch ≤ copies s.ring.channels out_channels
    frame : f ≤ n
    amount : left ≡ reads_left s.ring.channels out_channels n ch f

  abbrev IsReturned : System A → ℕ → ℕ → ℕ → ℕ → Type 0
  IsReturned s out_channels frames n at =
      (out : Buffer A) × (s.reader ≡ returned out out_channels frames n at)

  -- One step: one less to make, and after the last the call has returned.
  access_last :
      (s : System A) (out : Buffer A) (out_channels frames n at ch f : ℕ)
      → ch ≤ copies s.ring.channels out_channels
      → f ≤ n
      → reads_left s.ring.channels out_channels n ch f ≡ 1
      → IsReturned
          (read_next s (reading out out_channels frames n at ch f))
          out_channels
          frames
          n
          at
  unfolding read_next
  access_last s out out_channels frames n at ch f hc hf one =
      let done : ch ≡ copies s.ring.channels out_channels = grind arith in
      (out, rw (eq→== ch (copies s.ring.channels out_channels) done, read_next))

  access-IsReading :
      (s : System A) (out : Buffer A) (out_channels frames n at ch f left : ℕ)
      → ch ≤ copies s.ring.channels out_channels
      → f ≤ n
      → suc (suc left) ≡ reads_left s.ring.channels out_channels n ch f
      → IsReading
          (read_next s (reading out out_channels frames n at ch f))
          out_channels
          frames
          n
          at
          (suc left)
  unfolding read_next
  access-IsReading s out out_channels frames n at ch f left hc hf amount =
      elim (ℕ_discrete ch (copies s.ring.channels out_channels)) [
        | yes last ↦ absurd (ground arith)
        | no more ↦ elim (ℕ_discrete f n) [
          | yes full ↦
              rw (ne→== ch (copies s.ring.channels out_channels) more, eq→== f n full, read_next)
                (record {
                  out = out;
                  ch = ch + 1;
                  f = 0;
                  stands = refl;
                  channel = omega arith;
                  frame = omega arith;
                  amount =
                      omega
                        (arith, row_less (copies s.ring.channels out_channels) ch n (omega arith));
                })
          | no open_end ↦
              rw
                (ne→== ch (copies s.ring.channels out_channels) more, ne→== f n open_end, read_next)
                (record {
                  out = _;
                  ch = ch;
                  f = f + 1;
                  stands = refl;
                  channel = hc;
                  frame = omega arith;
                  amount =
                      omega
                        (arith, row_less (copies s.ring.channels out_channels) ch n (omega arith));
                })
        ]
      ]

  Alike-IsReading :
      (s s' : System A) (out_channels frames n at left : ℕ)
      → Alike s s'
      → IsReading s out_channels frames n at left
      → IsReading s' out_channels frames n at left
  unfolding Alike
  Alike-IsReading s s' out_channels frames n at left same t = record {
    out = t.out;
    ch = t.ch;
    f = t.f;
    stands = same.0 ∙ t.stands;
    channel = rw (same.1) (t.channel);
    frame = t.frame;
    amount = rw (same.1) (t.amount);
  }

  rest-IsReading :
      (s : System A) (m : Move A) (out_channels frames n at left : ℕ)
      → reads_made (m ∷ []) ≡ 0
      → IsReading s out_channels frames n at left
      → IsReading (move silence s m) out_channels frames n at left
  unfolding IsBusy
  rest-IsReading s m out_channels frames n at left e t =
      let busy : IsBusy s.reader = rw (t.stands) tt in
      Alike-IsReading s (move silence s m) out_channels frames n at left
        (rest-Alike silence s m e busy) t

  own-IsReading :
      (s : System A) (out_channels frames n at left : ℕ)
      → IsReading s out_channels frames n at (suc (suc left))
      → IsReading (move silence s read_step) out_channels frames n at (suc left)
  unfolding move
  own-IsReading s out_channels frames n at left t =
      subst (λ (q : Reader A). IsReading (read_next s q) out_channels frames n at (suc left))
        (sym (t.stands))
        (access-IsReading s (t.out) out_channels frames n at (t.ch) (t.f) left (t.channel) (t.frame)
          (t.amount))

  left-IsReading :
      {k k' : ℕ} (s : System A) (out_channels frames n at : ℕ)
      → k ≡ k'
      → IsReading s out_channels frames n at k
      → IsReading s out_channels frames n at k'
  left-IsReading s out_channels frames n at e t =
      subst (λ (k : ℕ). IsReading s out_channels frames n at k) e t

  move-IsReading :
      (s : System A) (m : Move A) (ms : List (Move A)) (out_channels frames n at left : ℕ)
      → IsReading s out_channels frames n at (suc (reads_made (m ∷ ms) + left))
      → IsReading (move silence s m) out_channels frames n at (suc (reads_made ms + left))
  move-IsReading s (write_call channels frames') ms out_channels frames n at left t =
      rest-IsReading s (write_call channels frames') out_channels frames n at _ refl t
  move-IsReading s write_step ms out_channels frames n at left t =
      rest-IsReading s write_step out_channels frames n at _ refl t
  move-IsReading s read_step ms out_channels frames n at left t =
      own-IsReading s out_channels frames n at (reads_made ms + left)
        (left-IsReading s out_channels frames n at (omega arith) t)
  move-IsReading s (read_call out out_channels' frames') ms out_channels frames n at left t =
      rest-IsReading s (read_call out out_channels' frames') out_channels frames n at _ refl t
  move-IsReading s (drop_call target_fill tolerance) ms out_channels frames n at left t =
      rest-IsReading s (drop_call target_fill tolerance) out_channels frames n at _ refl t
  move-IsReading s (seek_call target_fill) ms out_channels frames n at left t =
      rest-IsReading s (seek_call target_fill) out_channels frames n at _ refl t

  -- So many steps later it has so many less to make.
  moves-IsReading :
      (s : System A) (ms : List (Move A)) (out_channels frames n at left : ℕ)
      → IsReading s out_channels frames n at (suc (reads_made ms + left))
      → IsReading (moves silence s ms) out_channels frames n at (suc left)
  unfolding moves
  moves-IsReading s [] out_channels frames n at left t =
      left-IsReading s out_channels frames n at (omega arith) t
  moves-IsReading s (m ∷ ms) out_channels frames n at left t =
      moves-IsReading (move silence s m) ms out_channels frames n at left
        (move-IsReading s m ms out_channels frames n at left t)

  last_access :
      (s : System A) (out_channels frames n at : ℕ)
      → IsReading s out_channels frames n at 1
      → IsReturned (move silence s read_step) out_channels frames n at
  unfolding move
  last_access s out_channels frames n at t =
      subst (λ (q : Reader A). IsReturned (read_next s q) out_channels frames n at) (sym (t.stands))
        (access_last s (t.out) out_channels frames n at (t.ch) (t.f) (t.channel) (t.frame)
          (sym (t.amount)))

  -- The reader waits for nothing: a read that begins when `n` frames can be read of those asked
  -- for returns with these `n` at its own step of number `copies * (n + 1) + 1`, one for each copy, one
  -- for each channel's end and one for the store of the position, wherever the writer stands then,
  -- and whatever it does, or does not do, between these steps.
  pub read_ends :
      (s : System A) (out : Buffer A) (out_channels frames : ℕ) (ms : List (Move A))
      → s.reader ≡ waiting
      → reads_made ms ≡ copies s.ring.channels out_channels * (readable_of s.ring frames + 1)
      → let s' = moves silence (move silence s (read_call out out_channels frames)) ms in
        (out' : Buffer A) × ((move silence s' read_step).reader
          ≡ returned out' out_channels frames (readable_of s.ring frames) s.ring.read_pos)
  unfolding move load_positions
  read_ends s out out_channels frames ms e amount =
      last_access _ out_channels frames (readable_of s.ring frames) s.ring.read_pos (
        moves-IsReading _ ms out_channels frames (readable_of s.ring frames) s.ring.read_pos 0 (
          rw (e, begin_read)
            (record {
              out = _;
              ch = 0;
              f = 0;
              stands = refl;
              channel = omega arith;
              frame = omega arith;
              amount =
                  let rows : copies s.ring.channels out_channels - 0
                      ≡ copies s.ring.channels out_channels =
                    omega arith in
                  omega (arith, amount, ap (λ (k : ℕ). k * (readable_of s.ring frames + 1)) rows);
            })))
