-- ===== src/Ring/History.antt =====
-- src/shared_audio.c: the ring as its clients see it, over any sequence of writes and reads.
use native.Mathlib.Decide.{dec_lt}
use reac_jack.Common.{
  ℕ, ◌+◌, ◌^◌, ◌≤◌, ◌<◌, ◌≡◌, sym, ap, ◌∙◌, arith, List, [], ◌∷◌, ◌++◌, Buffer, tabulate,
}
use mathlib.Core.List.{append_assoc, append-nil}
use reac_jack.Ring.{Ring, Header, done, failed, write, read}
use reac_jack.Ring.Write.{write_appends, write_overruns}
use reac_jack.Ring.Read.{read_lem}
use reac_jack.Ring.Valid.{IsValid, fill, contents}

-- A call of the writer or of the reader; a read goes to the arrays given.
pub data Call (A : Type 0) : Type 0 where
  writes : Buffer (Buffer A) → ℕ → Call A
  reads : Buffer (Buffer A) → ℕ → Call A

module _ {A : Type 0} (silence : A) where
  pub step : Ring A → Call A → Ring A
  step r (writes channels frames) = (write r channels frames).1
  step r (reads outs frames) = (read silence r outs frames).2

  -- What a call puts into a channel: all its frames if the writer is told 0, else nothing.
  pub given_by : Ring A → Call A → ℕ → List A
  given_by r (writes channels frames) ch = elim (write r channels frames).0 [
    | done ↦ tabulate frames (channels ch)
    | failed ↦ []
  ]
  given_by r (reads outs frames) ch = []

  -- What it takes out: as many frames of its array as the reader is told.
  pub taken_by : Ring A → Call A → ℕ → List A
  taken_by r (writes channels frames) ch = []
  taken_by r (reads outs frames) ch =
      let (n, outs', r') = read silence r outs frames in tabulate n (outs' ch)

  pub run : Ring A → List (Call A) → Ring A
  run r [] = r
  run r (c ∷ cs) = run (step r c) cs

  pub given : Ring A → List (Call A) → ℕ → List A
  given r [] ch = []
  given r (c ∷ cs) ch = given_by r c ch ++ given (step r c) cs ch

  pub taken : Ring A → List (Call A) → ℕ → List A
  taken r [] ch = []
  taken r (c ∷ cs) ch = taken_by r c ch ++ taken (step r c) cs ch

  -- The frames that a sequence of calls wants to write.
  abbrev pub offered : List (Call A) → ℕ
  offered [] = 0
  offered (writes channels frames ∷ cs) = frames + offered cs
  offered (reads outs frames ∷ cs) = offered cs

  -- What one call keeps of a ring.
  record Keeps (r : Ring A) (c : Call A) : Type 0 where
    valid : IsValid (step r c)
    rows : (step r c).channels ≡ r.channels
    moved : (step r c).write_pos + offered [] ≤ r.write_pos + offered (c ∷ [])
    flow :
        (ch : ℕ)
        → ch < r.channels
        → contents r ch ++ given_by r c ch ≡ taken_by r c ch ++ contents (step r c) ch

  accepted-Keeps :
      (r : Ring A) (channels : Buffer (Buffer A)) (frames : ℕ)
      → IsValid r
      → fill r + frames ≤ r.capacity_frames
      → r.write_pos + frames < 2 ^ 64
      → Keeps r (writes channels frames)
  unfolding step given_by taken_by
  accepted-Keeps r channels frames v room h =
      let facts = write_appends r channels frames v room h in
      record {
        valid = facts.3;
        rows = ap (λ (h : Header). h.channels) facts.2;
        moved = omega (arith, ap (λ (h : Header). h.write_pos) facts.2);
        flow = λ ch p. rw (facts.0, given_by) (sym (facts.1 ch p));
      }

  refused-Keeps :
      (r : Ring A) (channels : Buffer (Buffer A)) (frames : ℕ)
      → IsValid r
      → r.capacity_frames < fill r + frames
      → Keeps r (writes channels frames)
  unfolding step given_by taken_by
  refused-Keeps r channels frames v full =
      let call = write_overruns r channels frames v full in
      record {
        valid = rw (call, step) (omega arith);
        rows = rw (call, step);
        moved = rw (call, step) (omega arith);
        flow = λ ch p. rw (call, step, given_by) (append-nil (contents r ch));
      }

  step-Keeps :
      (r : Ring A) (c : Call A) → IsValid r → r.write_pos + offered (c ∷ []) < 2 ^ 64 → Keeps r c
  unfolding step given_by taken_by
  step-Keeps r (writes channels frames) v h = elim (dec_lt r.capacity_frames (fill r + frames)) [
    | yes full ↦ refused-Keeps r channels frames v full
    | no room ↦ accepted-Keeps r channels frames v (omega arith) (omega arith)
  ]
  step-Keeps r (reads outs frames) v h =
      let facts = read_lem silence r outs frames v in
      record {
        valid = facts.5;
        rows = ap (λ (h : Header). h.channels) facts.4;
        moved = omega (arith, ap (λ (h : Header). h.write_pos) facts.4);
        flow = λ ch p. append-nil (contents r ch) ∙ facts.1 ch p;
      }

  offered_cons :
      (c : Call A) (cs : List (Call A)) → offered (c ∷ cs) ≡ offered (c ∷ []) + offered cs
  offered_cons (writes channels frames) cs = omega arith
  offered_cons (reads outs frames) cs = omega arith

  -- The ring is a queue for each channel: over any calls, from a valid ring, the frames that it
  -- held and those that the writer was told it took are, in order, those that the reader got and
  -- those that it holds at the end; and it is valid then. (The positions are taken not to wrap.)
  pub run-queue :
      (r : Ring A) (cs : List (Call A))
      → IsValid r
      → r.write_pos + offered cs < 2 ^ 64
      → IsValid (run r cs)
        × ((ch : ℕ)
            → ch < r.channels
            → contents r ch ++ given r cs ch ≡ taken r cs ch ++ contents (run r cs) ch)
  unfolding run given taken
  run-queue r [] v h = (v, λ ch p. append-nil (contents r ch))
  run-queue r (c ∷ cs) v h =
      let first = step-Keeps r c v (omega (arith, offered_cons c cs)) in
      let rest =
        run-queue (step r c) cs first.valid (omega (arith, offered_cons c cs, first.moved)) in
      (
        rest.0,
        λ ch p.
            sym (append_assoc (contents r ch) _ _)
            ∙ ap (λ l. l ++ given (step r c) cs ch) (first.flow ch p)
            ∙ append_assoc (taken_by r c ch) _ _
            ∙ ap (λ l. taken_by r c ch ++ l) (rest.1 ch (rw first.rows p))
            ∙ sym (append_assoc (taken_by r c ch) _ _),
      )
