-- ===== src/Transport/Session/Touches.antt =====
-- src/reacjackd.c and src/coreaudio/ReacJackDriver.c: what each call of the host does to the ring
-- that the daemon and the plug-in share.
use mathlib.Core.Path.{subst}
use text.Mathlib.TextPositions.{eq_refl}
use reac_jack.Common.{
  Bool, Bool-cases, Buffer, Option, arith, inl, inr, none, refl, some, sym, true, ℕ, ◌==◌, ◌∙◌, ◌≡◌,
}
use reac_jack.Decode.{Float}
use reac_jack.Ring.{Ring, read_regulated, seek_to_fill}
use reac_jack.Ring.Handle.{Objects, open_ring}
use reac_jack.Ring.Leaves.{Leaves, read_regulated-Leaves, seek_to_fill-Leaves}
use reac_jack.Driver.{channel_count, device, fill_tolerance, ring_name, target_fill}
use reac_jack.Driver.Float64.{Float64}
use reac_jack.Driver.Device.{Device, get_zero_time_stamp, start_io, stop_io}
use reac_jack.Driver.Operation.{Operation, do_io_operation, read_input}
use reac_jack.Daemon.Ready.{AllReady, IsReady}
use reac_jack.Daemon.Ready.Captures.{one-AllReady, option_cases}
use reac_jack.Transport.Session.{Both, hosted, looked_up, named, observed, stored}

Leaves-IsReady :
    (r r' : Ring Float) (channels left : ℕ)
    → IsReady channels left r
    → Leaves r r'
    → IsReady channels left r'
Leaves-IsReady r r' channels left t l =
    let sequence = t.sequence in
    let position = t.position in
    let even = t.even in
    let sequence' = l.sequence in
    let position' = l.position in
    record {
      valid = l.valid;
      rows = l.rows ∙ t.rows;
      even = omega arith;
      sequence = omega arith;
      position = omega arith;
    }

-- What a call of the host has done to the ring that is mapped.
pub data Touched (shared after : Option (Ring Float)) : Type 0 where
  unmapped : after ≡ none → Touched shared after
  touched :
      (r r' : Ring Float) → shared ≡ some r → after ≡ some r' → Leaves r r' → Touched shared after

-- What is opened under the ring's name is the daemon's ring, once it has one.
open_ring-named :
    (objects : Objects Float) (own r : Ring Float) (maps : Bool)
    → open_ring (named objects (some own)) (some ring_name) maps ≡ some r
    → own ≡ r
unfolding open_ring
open_ring-named objects own r maps opened = ground (arith, eq_refl ring_name)

module _ {R : Float64} where
  -- The daemon's ring is ready for `left` packets more, and a plug-in that is linked has it mapped
  -- or none.
  pub record Shared (left : ℕ) (b : Both R) : Type 0 where
    pub ready : AllReady left b.daemon
    pub same : b.linked ≡ true → (r : Ring Float) → b.plugin.ring ≡ some r → b.daemon.ring ≡ some r

  linked-Shared :
      (left : ℕ) (b : Both R) (plugin : Device R Float)
      → AllReady left b.daemon
      → (r' : Ring Float) → plugin.ring ≡ some r'
      → b.linked ≡ true
      → Touched b.daemon.ring plugin.ring
      → Shared left (hosted b plugin)
  linked-Shared left b plugin t r' e' linked (unmapped none_left) = absurd (ground arith)
  linked-Shared left b plugin t r' e' linked (touched r r'' e e'' l) =
      let same : hosted b plugin
          ≡ record b { plugin = plugin; daemon = record b.daemon { ring = some r'' } } =
        rw (e'', linked) refl in
      subst (λ (b : Both R). Shared left b) (sym same)
        (record {
          ready =
              one-AllReady (record b.daemon { ring = some r'' }) r'' left refl
                (Leaves-IsReady r r'' b.daemon.channels left (t r e) l);
          same = λ k r f. ground arith;
        })

  pub hosted-Shared :
      (left : ℕ) (b : Both R) (plugin : Device R Float)
      → AllReady left b.daemon
      → (b.linked ≡ true → Touched b.daemon.ring plugin.ring)
      → Shared left (hosted b plugin)
  hosted-Shared left b plugin t after = elim (option_cases plugin.ring) [
    | inl e ↦
        let same : hosted b plugin ≡ record b { plugin = plugin } = rw e refl in
        subst (λ (b : Both R). Shared left b) (sym same)
          (record { ready = t; same = λ l r f. ground arith })
    | inr (r', e') ↦ elim (Bool-cases b.linked) [
      | inl linked ↦ linked-Shared left b plugin t r' e' linked (after linked)
      | inr apart ↦
          let same : hosted b plugin
              ≡ record b { plugin = plugin; objects = stored b.objects b.daemon.ring r' } =
            rw (e', apart) refl in
          subst (λ (b : Both R). Shared left b) (sym same)
            (record { ready = t; same = λ l r f. ground arith })
    ]
  ]

  -- The ring is as it was.
  kept-Touched :
      (left : ℕ) (b : Both R) (after : Option (Ring Float))
      → Shared left b
      → after ≡ b.plugin.ring
      → b.linked ≡ true
      → Touched b.daemon.ring after
  kept-Touched left b after s same linked = elim (option_cases b.plugin.ring) [
    | inl e ↦ unmapped (same ∙ e)
    | inr (r, e) ↦
        let there = s.same linked r e in
        let t = s.ready r there in
        touched r r there (same ∙ e)
          (record { valid = t.valid; rows = refl; position = refl; sequence = refl })
  ]

  pub stop-Touched :
      (left : ℕ) (b : Both R)
      → Shared left b
      → b.linked ≡ true
      → Touched b.daemon.ring ((stop_io b.plugin true device).1.ring)
  unfolding stop_io
  stop-Touched left b s linked = elim (option_cases ((stop_io b.plugin true device).1.ring)) [
    | inl e ↦ unmapped e
    | inr (r, e) ↦ kept-Touched left b _ s (ground arith) linked
  ]

  pub stamp-Touched :
      (left : ℕ) (b : Both R) (now : ℕ)
      → Shared left b
      → b.linked ≡ true
      → Touched b.daemon.ring
          ((get_zero_time_stamp b.plugin true device true (observed b.plugin.ring) now).1.ring)
  unfolding get_zero_time_stamp
  stamp-Touched left b now s linked = kept-Touched left b _ s (ground arith) linked

  -- A first start maps what has the name: the daemon's ring, if it is linked.
  pub start-Touched :
      (left : ℕ) (b : Both R) (now : ℕ) (maps : Bool)
      → Shared left b
      → (looked_up b).linked ≡ true
      → let opened = open_ring (named b.objects b.daemon.ring) (some ring_name) maps in
        Touched b.daemon.ring ((start_io b.plugin true device now opened).1.ring)
  unfolding start_io
  start-Touched left b now maps s linked =
      let opened = open_ring (named b.objects b.daemon.ring) (some ring_name) maps in
      elim (Bool-cases (b.plugin.running == 0)) [
        | inr later ↦ kept-Touched left b _ s (ground arith) (ground arith)
        | inl first ↦ elim (option_cases opened) [
          | inl e ↦ unmapped (ground arith)
          | inr (r, e) ↦ elim (option_cases b.daemon.ring) [
            | inl absent ↦ absurd (ground arith)
            | inr (own, there) ↦
                let same : own ≡ r = open_ring-named b.objects own r maps (
                  subst
                    (λ (o : Option (Ring Float)).
                      open_ring (named b.objects o) (some ring_name) maps ≡ some r)
                    there e) in
                let t = s.ready own there in
                touched own (seek_to_fill own target_fill).1 there
                  (let sought : opened ≡ some own = ground arith in ground arith)
                  (seek_to_fill-Leaves own target_fill t.valid)
          ]
        ]
      ]

  pub cycle-Touched :
      (silence : Float) (left : ℕ) (b : Both R) (op : Operation) (buffer : Option (Buffer Float))
      (frames : ℕ)
      → Shared left b
      → b.linked ≡ true
      → Touched b.daemon.ring
          ((do_io_operation silence b.plugin true device op buffer frames).1.ring)
  unfolding do_io_operation
  cycle-Touched silence left b read_input (some buffer) frames s linked =
      elim (option_cases b.plugin.ring) [
        | inl e ↦ kept-Touched left b _ s (rw e refl) linked
        | inr (r, e) ↦
            let there = s.same linked r e in
            let t = s.ready r there in
            touched r
              (read_regulated silence r buffer channel_count frames target_fill fill_tolerance).2
              there (rw e refl)
              (read_regulated-Leaves silence r buffer channel_count frames target_fill
                fill_tolerance t.valid (omega arith) (omega arith))
      ]
  cycle-Touched silence left b op buffer frames s linked = kept-Touched left b _ s refl linked
