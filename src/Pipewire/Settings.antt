-- ===== src/Pipewire/Settings.antt =====
-- src/reacjack-pw.c: what the start-up hands to the run.
use Prim.Native.String.{String}
use text.Mathlib.Text.{◌==◌ as str_eq}
use reac_jack.Decode.{max_channels}
use reac_jack.Common.{Bool-cases, List, [], arith, inl, inr, refl, some, ℕ, ℤ, ◌∷◌, ◌≡◌}
use reac_jack.Interfaces.{printed}
use reac_jack.Decode.Samples.{IsSupported}
use reac_jack.Daemon.Arguments.{
  Parsed, bad_channels, bad_usage, channels_of, channels_of-IsSupported, go, is_unsupported,
}
use reac_jack.Pipewire.{AudioRing}
use reac_jack.Pipewire.Write.{IsValid, fill}
use reac_jack.Pipewire.Startup.{PwAnswers, PwSettings, first_settings, parse_pw, pw_main}

-- The channel counts that the loop over the arguments can leave.
abbrev IsFitting : Parsed PwSettings → Type 0
IsFitting (go s) = IsSupported s.channels
IsFitting p = Unit {0}

parse_pw-IsFitting :
    (strtol : String → ℤ) (bytes_of : String → List ℕ) (s : PwSettings) (args : List String)
    → IsSupported s.channels
    → IsFitting (parse_pw strtol bytes_of s args)
unfolding parse_pw
parse_pw-IsFitting strtol bytes_of s [] h = h
parse_pw-IsFitting strtol bytes_of s (a ∷ []) h = tt
parse_pw-IsFitting strtol bytes_of s (a ∷ b ∷ rest) h = elim (Bool-cases (str_eq a "-i")) [
  | inl e ↦
      rw e (
        parse_pw-IsFitting strtol bytes_of (record s { interface = printed 16 (bytes_of b) }) rest
          h)
  | inr e ↦ rw e (elim (Bool-cases (str_eq a "-c")) [
    | inl e ↦ rw e (elim (Bool-cases (is_unsupported (strtol b))) [
      | inl bad ↦ rw bad tt
      | inr good ↦ rw good (
          parse_pw-IsFitting strtol bytes_of (record s { channels = channels_of (strtol b) }) rest
            (channels_of-IsSupported (strtol b) good))
    ])
    | inr e ↦ rw e tt
  ])
]

fitting : (p : Parsed PwSettings) (s : PwSettings) → IsFitting p → p ≡ go s → IsSupported s.channels
fitting (go s') s h e = let same : s' ≡ s = ground arith in rw (← same) h
fitting bad_usage s h e = absurd (ground arith)
fitting bad_channels s h e = absurd (ground arith)

-- The ring that a run works on, if `main` takes the arguments and comes to one: it has a channel
-- count that the decoder supports, it is valid, and it holds nothing of its 96000 frames.
pub pw_main_ring :
    {A : Type 0} (strtol : String → ℤ) (bytes_of : String → List ℕ) (args : List String) (link : ℕ)
    (silence : A) (s : PwSettings) (a : PwAnswers) (r : AudioRing A)
    → parse_pw strtol bytes_of first_settings args ≡ go s
    → (pw_main link silence s a).2 ≡ some r
    → IsSupported r.channels × IsValid r × (fill r ≡ 0) × (r.capacity_frames ≡ 96000)
unfolding pw_main
pw_main_ring strtol bytes_of args link silence s a r taken e =
    let forty : IsSupported max_channels = record {
      positive = omega arith;
      at_most = omega arith;
      even = refl;
    } in
    let supported =
      fitting _ s (parse_pw-IsFitting strtol bytes_of first_settings args forty) taken in
    let width : r.channels ≡ s.channels = ground arith in
    let size : r.capacity_frames ≡ 96000 = ground arith in
    let read : r.read_pos ≡ 0 = ground arith in
    let written : r.write_pos ≡ 0 = ground arith in
    (rw width supported, omega arith, omega arith, size)
