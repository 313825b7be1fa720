-- ===== src/Counter.antt =====
-- The 16-bit packet counter of a REAC stream, which the three receivers follow in the same way:
-- src/reacjackd.c, src/reacjack-pw.c (`note_counter`) and src/reacjack.c (`note_packet_counter`).
use reac_jack.Common.{
  Bool, List, [], arith, if◌then◌else◌, ltb, refl, sub16, true, u16, u64, ℕ, ◌!=◌, ◌&&◌, ◌+◌, ◌<◌,
  ◌^◌, ◌∷◌, ◌≡◌,
}

pub record Counter : Type 0 where
  pub lost : ℕ
  pub last_counter : ℕ
  pub have_last_counter : Bool

-- `gap < 32768 ? gap : 1`
abbrev pub lost_by : ℕ → ℕ
lost_by gap = if ltb gap 32768 then gap else 1

-- `note_counter`
unfoldable pub note_counter : Counter → ℕ → Counter
note_counter c counter =
    let expected = u16 (c.last_counter + 1) in
    let missed = u64 (c.lost + lost_by (sub16 counter expected)) in
    record {
      lost = if c.have_last_counter && (counter != expected) then missed else c.lost;
      last_counter = counter;
      have_last_counter = true;
    }

abbrev pub note_all : Counter → List ℕ → Counter
note_all c [] = c
note_all c (n ∷ ns) = note_all (note_counter c n) ns

-- The counters of the packets that arrive when the sender's last was `counter` and, before each,
-- so many packets are lost.
abbrev pub arriving : ℕ → List ℕ → List ℕ
arriving counter [] = []
arriving counter (gap ∷ gaps) = let next = u16 (counter + 1 + gap) in next ∷ arriving next gaps

abbrev pub total : List ℕ → ℕ
total [] = 0
total (gap ∷ gaps) = gap + total gaps

-- No gap is 32768 or more.
abbrev pub AreShort : List ℕ → Type 0
AreShort [] = Unit {0}
AreShort (gap ∷ gaps) = (gap < 32768) × AreShort gaps

note_counter-gap :
    (c : Counter) (gap : ℕ)
    → c.have_last_counter ≡ true
    → c.last_counter < 2 ^ 16
    → gap < 32768
    → c.lost + gap < 2 ^ 64
    → (note_counter c (u16 (c.last_counter + 1 + gap))).lost ≡ c.lost + gap
unfolding note_counter
note_counter-gap c gap have small short fits = ground arith

-- From the first packet on, while gaps stay below 32768 packets, the count of lost packets, taken
-- not to wrap, is exactly the number of packets that did not arrive, across every wrap of the
-- 16-bit counter.
pub note_all-lost :
    (c : Counter) (gaps : List ℕ)
    → c.have_last_counter ≡ true
    → c.last_counter < 2 ^ 16
    → AreShort gaps
    → c.lost + total gaps < 2 ^ 64
    → (note_all c (arriving c.last_counter gaps)).lost ≡ c.lost + total gaps
unfolding note_counter
note_all-lost c [] have small short fits = omega arith
note_all-lost c (gap ∷ gaps) have small short fits =
    let one = note_counter-gap c gap have small short.0 (omega arith) in
    let next = note_counter c (u16 (c.last_counter + 1 + gap)) in
    let rest = note_all-lost next gaps refl (omega arith) short.1 (omega arith) in omega arith
