-- ===== src/Inspector/Tests.antt =====
-- A ring with a published clock under the name "/r".
use text.Mathlib.Text.{◌==◌ as str_eq}
use reac_jack.Common.{[], if◌then◌else◌, none, refl, some, true, ℕ, ◌∷◌, ◌≡◌}
use reac_jack.Ring.{Ring}
use reac_jack.Ring.Handle.{Objects, fresh, open_ring}
use reac_jack.Inspector.{ctl_main, print_ring, status}

abbrev seen : Ring ℕ
seen =
    let new = fresh 0 48000 2 64 in
    record new {
      header = record new.header {
        write_pos = 50;
        read_pos = 20;
        clock_seq = 4;
        clock_host_time = 77;
        clock_sample_pos = 50;
      };
    }

abbrev objects : Objects ℕ
objects n = if str_eq n "/r" then some (record { bytes = 100000; memory = seen }) else none

ctl_main_prints :
    let (ending, printed) = ctl_main ("-n" ∷ "/r" ∷ []) objects true [] in
    (ending ≡ status 0) × (printed ≡ print_ring "/r" seen (λ n. seen.header) ∷ [])
unfolding ctl_main open_ring
ctl_main_prints = (refl, refl)
