-- ===== src/Jack/Lifetimes.antt =====
-- src/reacjack.c: the client gives back all that it acquires, in an order that is safe.
use reac_jack.Common.{[], arith, false, none, true, ℕ, ◌≡◌}
use reac_jack.Lifetimes.{IsClean, perform_all}
use reac_jack.Jack.Startup.{Answers, reac_main}

-- Whatever the system, the libraries and the user answer: if the capture thread can be made, the
-- client acquires nothing twice, releases nothing that a running thread, JACK or another resource
-- still uses, and holds nothing when `main` ends, on every path. If the thread cannot be made where
-- the start-up got so far, `main` joins a thread that there is not.
pub reac_main_lifetimes :
    (link ports : ℕ) (a : Answers)
    → let (ended_well, w) = reac_main link ports a in
      (a.makes_thread ≡ true → IsClean w.actions)
      × (ended_well ≡ true → a.makes_thread ≡ false → perform_all w.actions [] ≡ none)
unfolding reac_main perform_all
reac_main_lifetimes link ports a = (λ e. ground arith, λ e e'. ground arith)
