-- ===== src/Pipewire/Lifetimes.antt =====
-- src/reacjack-pw.c: the PipeWire client gives back all that it acquires, in an order that is safe.
use reac_jack.Common.{[], arith, false, none, true, ℕ, ◌≡◌}
use reac_jack.Lifetimes.{IsClean, is_acquired, perform_all, stream}
use reac_jack.Pipewire.Startup.{PwAnswers, PwSettings, pw_main}

-- Whatever the system, PipeWire and the user answer: if a stream that is made can be connected, the
-- client acquires nothing twice, releases nothing that its thread or its stream still uses, and
-- holds nothing when `main` ends, on every path. If a stream is made and cannot be connected,
-- its loop is destroyed while it stands.
pub pw_main_lifetimes :
    {A : Type 0} (link : ℕ) (silence : A) (s : PwSettings) (a : PwAnswers)
    → let (ended_well, actions, ring) = pw_main link silence s a in
      (a.connects ≡ true → IsClean actions)
      × (is_acquired stream actions ≡ true → a.connects ≡ false → perform_all actions [] ≡ none)
unfolding pw_main perform_all
pw_main_lifetimes link silence s a = (λ e. ground arith, λ e e'. ground arith)
