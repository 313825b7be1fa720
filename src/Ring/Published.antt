-- ===== src/Ring/Published.antt =====
-- src/shared_audio.c: a reader of the clock never sees half of a publication.
use reac_jack.Common.Bit.{and_low}
use reac_jack.Ring.{Header}
use reac_jack.Common.{
  Buffer, ap, arith, bit_and, if◌then◌else◌, inl, inr, refl, some, suc, sym, zero, ℕ, ◌%◌, ◌*◌, ◌+◌,
  ◌-◌, ◌/◌, ◌<◌, ◌==◌, ◌^◌, ◌∙◌, ◌≡◌, ◌≢◌, ◌≤◌, ◌⊎◌,
}
use reac_jack.Ring.Clock.{Writer, get_clock, get_clock_from, publish_clock, publishing, store}

-- What the memory holds after `k` stores.
record Progress (times positions : Buffer ℕ) (k : ℕ) (w : Writer) : Type 0 where
  clock : w.memory.clock_seq ≡ (if k % 4 == 0 then 2 * (k / 4) else 2 * (k / 4) + 1)
  loaded : k % 4 ≢ 0 → w.seq ≡ 2 * (k / 4)
  time_now : 2 ≤ k % 4 → w.memory.clock_host_time ≡ times (k / 4)
  time_before : k % 4 < 2 → 4 ≤ k → w.memory.clock_host_time ≡ times (k / 4 - 1)
  place_now : 3 ≤ k % 4 → w.memory.clock_sample_pos ≡ positions (k / 4)
  place_before : k % 4 < 3 → 4 ≤ k → w.memory.clock_sample_pos ≡ positions (k / 4 - 1)

step-Progress :
    (times positions : Buffer ℕ) (k : ℕ) (w : Writer)
    → suc k < 2 ^ 64
    → Progress times positions k w
    → Progress times positions (suc k) (store w (times (k / 4)) (positions (k / 4)) (k % 4))
step-Progress times positions k w h p = record {
  clock = let c = p.clock in let l = p.loaded in ground arith;
  loaded = let c = p.clock in let l = p.loaded in ground arith;
  time_now = let t = p.time_now in ground arith;
  time_before = let t = p.time_now in let b = p.time_before in ground arith;
  place_now = let t = p.place_now in ground arith;
  place_before = let t = p.place_now in let b = p.place_before in ground arith;
}

publishing-Progress :
    (times positions : Buffer ℕ) (h : Header) (k : ℕ)
    → h.clock_seq ≡ 0
    → k < 2 ^ 64
    → Progress times positions k (publishing times positions h k)
publishing-Progress times positions h zero e b = record {
  clock = e;
  loaded = λ ne. ground arith;
  time_now = λ le. ground arith;
  time_before = λ lt le. ground arith;
  place_now = λ le. ground arith;
  place_before = λ lt le. ground arith;
}
publishing-Progress times positions h (suc k) e b =
    step-Progress times positions k (publishing times positions h k) b
      (publishing-Progress times positions h k e (omega arith))

-- How an attempt of `shared_audio_get_clock` comes to a result.
get_clock_from-cases :
    (memory : Buffer Header) (left at t p : ℕ)
    → get_clock_from memory (suc left) at ≡ some (t, p)
    → (get_clock_from memory left (at + 1) ≡ some (t, p))
      ⊎ (get_clock_from memory left (at + 4) ≡ some (t, p))
      ⊎ (((memory at).clock_seq ≢ 0)
          × ((memory at).clock_seq % 2 ≡ 0)
          × ((memory (at + 3)).clock_seq ≡ (memory at).clock_seq)
          × ((memory (at + 1)).clock_host_time ≡ t)
          × ((memory (at + 2)).clock_sample_pos ≡ p))
unfolding get_clock_from
get_clock_from-cases memory left at t p g =
    let parity : bit_and ((memory at).clock_seq) 1 ≡ (memory at).clock_seq % 2 =
      and_low 1 ((memory at).clock_seq) in
    ground arith

-- What a reader may see: the last publication complete at some load from `at` on.
pub record Seen (times positions schedule : Buffer ℕ) (at t p : ℕ) : Type 0 where
  pub index : ℕ
  pub load : ℕ
  pub since : at ≤ load
  pub complete : schedule load ≡ 4 * (index + 1)
  pub time : t ≡ times index
  pub place : p ≡ positions index

module _ (times positions : Buffer ℕ) (h : Header) (schedule : Buffer ℕ) where
  abbrev pub seen_memory : Buffer Header
  seen_memory n = (publishing times positions h (schedule n)).memory

  -- Loads that find the same even number, not 0, at both ends see one publication.
  untorn :
      (at seq : ℕ)
      → h.clock_seq ≡ 0
      → ((m n : ℕ) → m ≤ n → schedule m ≤ schedule n)
      → ((n : ℕ) → schedule n < 2 ^ 64)
      → seq ≢ 0
      → seq % 2 ≡ 0
      → (seen_memory at).clock_seq ≡ seq
      → (seen_memory (at + 3)).clock_seq ≡ seq
      → Seen times positions schedule at
          ((seen_memory (at + 1)).clock_host_time)
          ((seen_memory (at + 2)).clock_sample_pos)
  untorn at seq e mono bound nz even first last =
      let a = publishing-Progress times positions h (schedule at) e (bound at) in
      let b = publishing-Progress times positions h (schedule (at + 1)) e (bound (at + 1)) in
      let c = publishing-Progress times positions h (schedule (at + 2)) e (bound (at + 2)) in
      let d = publishing-Progress times positions h (schedule (at + 3)) e (bound (at + 3)) in
      let ab = mono at (at + 1) (omega arith) in
      let bc = mono (at + 1) (at + 2) (omega arith) in
      let cd = mono (at + 2) (at + 3) (omega arith) in
      let ca = a.clock in
      let cd' = d.clock in
      let start : schedule at ≡ 2 * seq = ground arith in
      let end : schedule (at + 3) ≡ 2 * seq = ground arith in
      record {
        index = schedule at / 4 - 1;
        load = at;
        since = omega arith;
        complete = omega arith;
        time = b.time_before (omega arith) (omega arith) ∙ ap times (omega arith);
        place = c.place_before (omega arith) (omega arith) ∙ ap positions (omega arith);
      }

  later :
      {t p : ℕ} (at k : ℕ)
      → Seen times positions schedule (at + k) t p
      → Seen times positions schedule at t p
  later at k s = record {
    index = s.index;
    load = s.load;
    since = let since = s.since in omega arith;
    complete = s.complete;
    time = s.time;
    place = s.place;
  }

  get_clock_from-Seen :
      (left at t p : ℕ)
      → h.clock_seq ≡ 0
      → ((m n : ℕ) → m ≤ n → schedule m ≤ schedule n)
      → ((n : ℕ) → schedule n < 2 ^ 64)
      → get_clock_from seen_memory left at ≡ some (t, p)
      → Seen times positions schedule at t p
  unfolding get_clock_from
  get_clock_from-Seen zero at t p e mono bound g = absurd (ground arith)
  get_clock_from-Seen (suc left) at t p e mono bound g =
      elim (get_clock_from-cases seen_memory left at t p g) [
        | inl odd ↦ later at 1 (get_clock_from-Seen left (at + 1) t p e mono bound odd)
        | inr (inl torn) ↦ later at 4 (get_clock_from-Seen left (at + 4) t p e mono bound torn)
        | inr (inr (nz, even, same, time, place)) ↦
            rw (sym time, sym place) (untorn at _ e mono bound nz even refl same)
      ]

  -- However the stores of a writer that publishes one observation after the other and the loads of
  -- `shared_audio_get_clock` interleave: a time and a position that it returns were published
  -- together, and were the last complete publication at some moment of the call. (The sequence
  -- number starts at 0 and is taken not to wrap.)
  pub get_clock-Seen :
      (t p : ℕ)
      → h.clock_seq ≡ 0
      → ((m n : ℕ) → m ≤ n → schedule m ≤ schedule n)
      → ((n : ℕ) → schedule n < 2 ^ 64)
      → get_clock seen_memory ≡ some (t, p)
      → Seen times positions schedule 0 t p
  get_clock-Seen t p e mono bound g = get_clock_from-Seen 16 0 t p e mono bound g

pub get_clock_from-stable :
    (h : Header) (left at : ℕ)
    → h.clock_seq ≢ 0
    → h.clock_seq % 2 ≡ 0
    → get_clock_from (λ n. h) (suc left) at ≡ some (h.clock_host_time, h.clock_sample_pos)
unfolding get_clock_from
get_clock_from-stable h left at nz even =
    let parity : bit_and (h.clock_seq) 1 ≡ h.clock_seq % 2 = and_low 1 (h.clock_seq) in ground arith

-- A clock that is published without interruption is read back, from any valid state of the
-- sequence number: even, and two short of wrapping.
pub get_clock-publish_clock :
    (h : Header) (host_time sample_pos : ℕ)
    → h.clock_seq % 2 ≡ 0
    → h.clock_seq + 2 < 2 ^ 64
    → get_clock (λ n. publish_clock h host_time sample_pos) ≡ some (host_time, sample_pos)
unfolding publish_clock
get_clock-publish_clock h host_time sample_pos even fits =
    get_clock_from-stable (publish_clock h host_time sample_pos) 15 0 (omega arith) (omega arith)
