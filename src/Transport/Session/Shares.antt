-- ===== src/Transport/Session/Shares.antt =====
-- src/reacjackd.c and src/coreaudio/ReacJackDriver.c: the ring that they share stays in order.
use mathlib.Core.Path.{subst}
use reac_jack.Common.{
  Bool, List, [], arith, false, length, some, suc, true, ℕ, ◌*◌, ◌+◌, ◌<◌, ◌^◌, ◌∷◌, ◌≡◌,
}
use reac_jack.Decode.{Float}
use reac_jack.Ring.{Ring}
use reac_jack.Driver.{ring_name}
use reac_jack.Driver.Float64.{Float64}
use reac_jack.Daemon.Startup.{is_created}
use reac_jack.Daemon.Ready.{AllReady, created, created-IsReady}
use reac_jack.Daemon.Ready.Captures.{
  Creates, capture_round-AllReady, fewer-AllReady, none_left-AllReady,
}
use reac_jack.Transport.Session.Attached.{happens-IsAttached, start-IsAttached}
use reac_jack.Transport.Session.{
  Both, Turn, captured, cycled, happen, happens, looked_up, stamped, started, stopped,
}
use reac_jack.Transport.Session.Touches.{
  Shared, cycle-Touched, hosted-Shared, stamp-Touched, start-Touched, stop-Touched,
}

module _ {R : Float64} where
  happen-Shared :
      (silence : Float) (b : Both R) (e : Turn) (left : ℕ)
      → 12 * suc left < 2 ^ 64
      → Shared (suc left) b
      → Shared left (happen silence b e)
  unfolding happen
  happen-Shared silence b (captured now opens sized maps given) left small s =
      let create = created silence b.objects ring_name opens sized maps in
      let creates : Creates create = λ channels left r less given.
        created-IsReady silence b.objects ring_name opens sized maps channels left r less given in
      record {
        ready = capture_round-AllReady create now b.daemon given left small creates s.ready;
        same = λ l r e. ground arith;
      }
  happen-Shared silence b (started now maps) left small s =
      hosted-Shared left (looked_up b) _ (fewer-AllReady b.daemon left s.ready)
        (start-Touched (suc left) b now maps s)
  happen-Shared silence b stopped left small s =
      hosted-Shared left b _ (fewer-AllReady b.daemon left s.ready) (stop-Touched (suc left) b s)
  happen-Shared silence b (stamped now) left small s =
      hosted-Shared left b _ (fewer-AllReady b.daemon left s.ready)
        (stamp-Touched (suc left) b now s)
  happen-Shared silence b (cycled op buffer frames) left small s =
      hosted-Shared left b _ (fewer-AllReady b.daemon left s.ready)
        (cycle-Touched silence (suc left) b op buffer frames s)

  happens-Shared :
      (silence : Float) (b : Both R) (es : List Turn) (left : ℕ)
      → 12 * (length es + left) < 2 ^ 64
      → Shared (length es + left) b
      → Shared left (happens silence b es)
  unfolding happens
  happens-Shared silence b [] left small s = subst (λ n. Shared n b) (omega arith) s
  happens-Shared silence b (e ∷ es) left small s =
      let more : suc (length es) + left ≡ suc (length es + left) = omega arith in
      happens-Shared silence (happen silence b e) es left (omega arith) (
        happen-Shared silence b e (length es + left) (omega arith) (subst (λ n. Shared n b) more s))

  -- The daemon and the plug-in run side by side, from a daemon that has no ring or one in order, and
  -- a plug-in that has not opened this ring: it may have mapped what an earlier writer left under
  -- the name, which may be anything. After any rounds of the daemon, whatever pcap gives, and any
  -- starts, stops, timestamps and IO operations of the host between them, in any order, the daemon's
  -- ring, if there is one, is valid, of the daemon's width, with an even clock number. If then a
  -- first client starts when the daemon has its ring, what the plug-in has mapped from there on,
  -- after any further rounds and calls, is this ring, if anything is mapped. (There are so few
  -- rounds and calls that the frames of as many packets fit a position.)
  pub happens_together :
      (silence : Float) (b : Both R) (es es' : List Turn) (now : ℕ) (maps : Bool)
      → 12 * (length es + suc (length es')) < 2 ^ 64
      → AllReady (length es + suc (length es')) b.daemon
      → b.linked ≡ false
      → let before = happens silence b es in
        let after = happens silence (happen silence before (started now maps)) es' in
        AllReady 0 before.daemon
        × AllReady 0 after.daemon
        × (before.plugin.running ≡ 0
            → is_created before.daemon ≡ true
            → (r : Ring Float) → after.plugin.ring ≡ some r
            → after.daemon.ring ≡ some r)
  happens_together silence b es es' now maps small ready apart =
      let n = suc (length es') in
      let before = happens silence b es in
      let s =
        happens-Shared silence b es n small
          (record { ready = ready; same = λ l r e. ground arith }) in
      let next = happen silence before (started now maps) in
      let begun = happen-Shared silence before (started now maps) (length es') (omega arith) s in
      let t =
        happens-Shared silence next es' 0 (omega arith)
          (subst (λ n. Shared n next) (omega arith) begun) in
      (
        none_left-AllReady before.daemon n s.ready,
        t.ready,
        λ idle there.
            let a =
              happens-IsAttached silence next es'
                (start-IsAttached silence before now maps idle there) in
            t.same a.linked,
      )
