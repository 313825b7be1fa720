-- ===== src/Transport/Session/Attached.antt =====
-- src/reacjackd.c and src/coreaudio/ReacJackDriver.c: a plug-in that has opened the daemon's ring
-- stays with it.
use mathlib.Core.Path.{subst}
use reac_jack.Common.{
  Bool, Bool-cases, List, Option, [], arith, inl, inr, not, refl, some, sym, true, ℕ, ◌!=◌, ◌∷◌,
  ◌≡◌,
}
use reac_jack.Decode.{
  Float, Outputs, PacketView, Status, decode_samples, not_reac, ok, parse_packet, zero_view,
}
use reac_jack.Ring.{Ring}
use reac_jack.Driver.{ring_name}
use reac_jack.Driver.Float64.{Float64}
use reac_jack.Driver.Device.{Device}
use reac_jack.Daemon.{
  Capture, ReacDaemon, accept_decoded, accept_packet, accept_parsed, break_loop, capture_round,
  ensure_ring, failure, packet, timeout,
}
use reac_jack.Daemon.Startup.{is_created}
use reac_jack.Daemon.Ready.{created}
use reac_jack.Daemon.Ready.Captures.{option_cases}
use reac_jack.Transport.Session.{
  Both, Turn, captured, cycled, happen, happens, hosted, looked_up, stamped, started, stopped,
}

ensure_ring-is_created :
    (create : ℕ → Option (Ring Float)) (d : ReacDaemon) (channels : ℕ)
    → is_created d ≡ true
    → is_created (ensure_ring create d channels).1 ≡ true
unfolding ensure_ring
ensure_ring-is_created create d channels there = ground arith

accept_decoded-is_created :
    (now : ℕ) (d : ReacDaemon) (counter : ℕ) (decoded : Status × Option Outputs)
    → is_created d ≡ true
    → is_created (accept_decoded now d counter decoded) ≡ true
unfolding accept_decoded
accept_decoded-is_created now d counter (ok, some outs) there = ground arith
accept_decoded-is_created now d counter (status, decoded) there = there

accept_packet-is_created :
    (create : ℕ → Option (Ring Float)) (now : ℕ) (d : ReacDaemon) (view : PacketView)
    → is_created d ≡ true
    → is_created (accept_packet create now d view).1 ≡ true
unfolding accept_packet
accept_packet-is_created create now d view there =
    let ensured = ensure_ring-is_created create d view.channels there in
    let after = (ensure_ring create d view.channels).1 in
    let decoded =
      decode_samples view.payload view.payload_size view.channels 12 (some after.storage) in
    let accepted = accept_decoded-is_created now after view.counter decoded ensured in
    elim (Bool-cases (not (ensure_ring create d view.channels).0)) [
      | inl refused ↦ rw refused ensured
      | inr made ↦ elim (Bool-cases (view.channels != after.channels)) [
        | inl other ↦ rw (made, other) ensured
        | inr same ↦ rw (made, same) accepted
      ]
    ]

capture_round-is_created :
    (create : ℕ → Option (Ring Float)) (now : ℕ) (d : ReacDaemon) (given : Capture)
    → is_created d ≡ true
    → is_created (capture_round create now d given).1 ≡ true
unfolding capture_round
capture_round-is_created create now d timeout there = there
capture_round-is_created create now d break_loop there = there
capture_round-is_created create now d failure there = there
capture_round-is_created create now d (packet bytes caplen) there =
    go (parse_packet (some bytes) caplen (some zero_view))
  where
    go :
        (parsed : Status × Option PacketView)
        → is_created (accept_parsed create now d parsed).1 ≡ true
    go (not_reac, view) = there
    go (ok, some view) = accept_packet-is_created create now d view there
    go (status, view) = there

module _ {R : Float64} where
  -- The daemon has a ring, and it is what the plug-in opened last.
  pub record IsAttached (b : Both R) : Type 0 where
    pub linked : b.linked ≡ true
    pub there : is_created b.daemon ≡ true

  hosted-IsAttached :
      (b : Both R) (plugin : Device R Float) → IsAttached b → IsAttached (hosted b plugin)
  hosted-IsAttached b plugin a = elim (option_cases plugin.ring) [
    | inl e ↦
        let same : hosted b plugin ≡ record b { plugin = plugin } = rw e refl in
        subst (λ (b : Both R). IsAttached b) (sym same)
          (record { linked = a.linked; there = a.there })
    | inr (r, e) ↦
        let linked = a.linked in
        let same : hosted b plugin
            ≡ record b { plugin = plugin; daemon = record b.daemon { ring = some r } } =
          rw (e, linked) refl in
        subst (λ (b : Both R). IsAttached b) (sym same) (record { linked = linked; there = refl })
  ]

  -- The start of a first client, once the daemon has a ring, attaches the plug-in.
  pub start-IsAttached :
      (silence : Float) (b : Both R) (now : ℕ) (maps : Bool)
      → b.plugin.running ≡ 0
      → is_created b.daemon ≡ true
      → IsAttached (happen silence b (started now maps))
  unfolding happen
  start-IsAttached silence b now maps idle there =
      hosted-IsAttached (looked_up b) _ (record { linked = rw idle there; there = there })

  happen-IsAttached :
      (silence : Float) (b : Both R) (e : Turn) → IsAttached b → IsAttached (happen silence b e)
  unfolding happen
  happen-IsAttached silence b (captured now opens sized maps given) a = record {
    linked = a.linked;
    there =
        capture_round-is_created (created silence b.objects ring_name opens sized maps) now b.daemon
          given a.there;
  }
  happen-IsAttached silence b (started now maps) a =
      let linked = a.linked in
      let there = a.there in
      hosted-IsAttached (looked_up b) _ (record { linked = ground arith; there = there })
  happen-IsAttached silence b stopped a = hosted-IsAttached b _ a
  happen-IsAttached silence b (stamped now) a = hosted-IsAttached b _ a
  happen-IsAttached silence b (cycled op buffer frames) a = hosted-IsAttached b _ a

  pub happens-IsAttached :
      (silence : Float) (b : Both R) (es : List Turn)
      → IsAttached b
      → IsAttached (happens silence b es)
  unfolding happens
  happens-IsAttached silence b [] a = a
  happens-IsAttached silence b (e ∷ es) a =
      happens-IsAttached silence (happen silence b e) es (happen-IsAttached silence b e a)
