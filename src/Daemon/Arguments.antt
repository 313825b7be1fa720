-- ===== src/Daemon/Arguments.antt =====
-- src/reacjackd.c: the command line.
use Prim.Native.String.{String}
use text.Mathlib.Text.{◌==◌ as str_eq}
use reac_jack.Common.{
  Bool, Bool-cases, List, Option, [], arith, false, if◌then◌else◌, inl, inr, ltb, negsuc, none, not,
  pos, refl, some, true, u16, ℕ, ℤ, ◌!=◌, ◌%◌, ◌&&◌, ◌==◌, ◌||◌, ◌∷◌, ◌≡◌, ◌⊎◌,
}
use reac_jack.Decode.{max_channels}
use reac_jack.Decode.Samples.{IsSupported}

-- What `main` of the daemon has read.
pub record Settings : Type 0 where
  pub interface : Option String
  pub ring_name : String
  pub tone_mode : Bool
  pub channels : ℕ

-- The outcome: go on with the settings, or exit with status 1.
pub data Parsed (S : Type 0) : Type 0 where
  go : S → Parsed S
  bad_usage bad_channels : Parsed S

-- `channels <= 0 || channels > REAC_MAX_CHANNELS || (channels % 2) != 0`, of a `long`
abbrev pub is_unsupported : ℤ → Bool
is_unsupported (pos n) = n == 0 || ltb max_channels n || (n % 2) != 0
is_unsupported (negsuc n) = true

abbrev pub channels_of : ℤ → ℕ
channels_of (pos n) = u16 n
channels_of (negsuc n) = 0

-- The loop over `argv`; `strtol` is the C library's in base 10.
unfoldable pub parse_daemon : (String → ℤ) → Settings → List String → Parsed Settings
parse_daemon strtol s [] = go s
parse_daemon strtol s (a ∷ []) =
    if str_eq a "-tone" then go (record s { tone_mode = true }) else bad_usage
parse_daemon strtol s (a ∷ b ∷ rest) =
    let with_interface = parse_daemon strtol (record s { interface = some b }) rest in
    let with_name = parse_daemon strtol (record s { ring_name = b }) rest in
    let with_tone = parse_daemon strtol (record s { tone_mode = true }) (b ∷ rest) in
    let with_channels = parse_daemon strtol (record s { channels = channels_of (strtol b) }) rest in
    if str_eq a "-i"
    then with_interface
    else if str_eq a "-n"
    then with_name
    else if str_eq a "-tone"
    then with_tone
    else if str_eq a "-c"
    then (if is_unsupported (strtol b) then bad_channels else with_channels)
    else bad_usage

abbrev pub initial : Settings
initial = record {
  interface = none;
  ring_name = "/reacjack-audio";
  tone_mode = false;
  channels = 0;
}

abbrev pub is_missing : Option String → Bool
is_missing none = true
is_missing (some name) = false

-- The checks behind the loop.
abbrev pub check_daemon : Parsed Settings → Parsed Settings
check_daemon (go s) =
    if not s.tone_mode && is_missing s.interface
    then bad_usage
    else if s.tone_mode && (s.channels == 0)
    then go (record s { channels = 2 })
    else go s
check_daemon bad_usage = bad_usage
check_daemon bad_channels = bad_channels

-- `main` of the daemon up to the signal handlers
abbrev pub daemon_settings : (String → ℤ) → List String → Parsed Settings
daemon_settings strtol args = check_daemon (parse_daemon strtol initial args)

abbrev pub HasChannels : ℕ → Type 0
HasChannels n = (n ≡ 0) ⊎ IsSupported n

abbrev Keeps : Parsed Settings → Type 0
Keeps (go s) = HasChannels s.channels
Keeps p = Unit {0}

pub channels_of-IsSupported : (z : ℤ) → is_unsupported z ≡ false → IsSupported (channels_of z)
channels_of-IsSupported (pos n) h = record {
  positive = ground arith;
  at_most = ground arith;
  even = ground arith;
}
channels_of-IsSupported (negsuc n) h = absurd (ground arith)

parse_daemon-Keeps :
    (strtol : String → ℤ) (s : Settings) (args : List String)
    → HasChannels s.channels
    → Keeps (parse_daemon strtol s args)
unfolding parse_daemon
parse_daemon-Keeps strtol s [] h = h
parse_daemon-Keeps strtol s (a ∷ []) h = elim (Bool-cases (str_eq a "-tone")) [
  | inl e ↦ rw e h
  | inr e ↦ rw e tt
]
parse_daemon-Keeps strtol s (a ∷ b ∷ rest) h = elim (Bool-cases (str_eq a "-i")) [
  | inl e ↦ rw e (parse_daemon-Keeps strtol (record s { interface = some b }) rest h)
  | inr e ↦ rw e (elim (Bool-cases (str_eq a "-n")) [
    | inl e ↦ rw e (parse_daemon-Keeps strtol (record s { ring_name = b }) rest h)
    | inr e ↦ rw e (elim (Bool-cases (str_eq a "-tone")) [
      | inl e ↦ rw e (parse_daemon-Keeps strtol (record s { tone_mode = true }) (b ∷ rest) h)
      | inr e ↦ rw e (elim (Bool-cases (str_eq a "-c")) [
        | inl e ↦ rw e (elim (Bool-cases (is_unsupported (strtol b))) [
          | inl bad ↦ rw bad tt
          | inr good ↦ rw good (
              parse_daemon-Keeps strtol (record s { channels = channels_of (strtol b) }) rest
                (inr (channels_of-IsSupported (strtol b) good)))
        ])
        | inr e ↦ rw e tt
      ])
    ])
  ])
]

present : (name : Option String) → is_missing name ≡ false → (n : String) × (name ≡ some n)
present none h = absurd (ground arith)
present (some n) h = (n, refl)

two-IsSupported : IsSupported 2
two-IsSupported = record { positive = omega arith; at_most = omega arith; even = refl }

IsSound : Settings → Type 0
IsSound s =
    HasChannels s.channels
    × (s.tone_mode ≡ true → IsSupported s.channels)
    × (s.tone_mode ≡ false → (name : String) × (s.interface ≡ some name))

kept-IsSound :
    (s : Settings)
    → HasChannels s.channels
    → (not s.tone_mode && is_missing s.interface) ≡ false
    → (s.tone_mode && (s.channels == 0)) ≡ false
    → IsSound s
unfolding IsSound
kept-IsSound s k named toned = (
  k,
  λ t. elim k [ inl nothing ↦ absurd (ground arith) | inr fine ↦ fine ],
  λ t. present s.interface (ground arith),
)

check_daemon-IsSound :
    (p : Parsed Settings) (s : Settings) → Keeps p → check_daemon p ≡ go s → IsSound s
unfolding IsSound
check_daemon-IsSound (go s0) s k e =
    elim (Bool-cases (not s0.tone_mode && is_missing s0.interface)) [
      | inl bad ↦ absurd (ground arith)
      | inr named ↦ elim (Bool-cases (s0.tone_mode && (s0.channels == 0))) [
        | inl nothing ↦
            let same : s ≡ record s0 { channels = 2 } = ground arith in
            rw same
              (inr two-IsSupported, λ t. two-IsSupported, λ f. present s0.interface (ground arith))
        | inr toned ↦ let same : s ≡ s0 = ground arith in rw same (kept-IsSound s0 k named toned)
      ]
    ]
check_daemon-IsSound bad_usage s k e = absurd (ground arith)
check_daemon-IsSound bad_channels s k e = absurd (ground arith)

-- The settings that the daemon starts with: a channel count that is given is one that the decoder
-- supports; without one the first packet decides, unless it is to play a tone, where there always
-- is one; and to capture there is an interface.
pub daemon_settings_sound :
    (strtol : String → ℤ) (args : List String) (s : Settings)
    → daemon_settings strtol args ≡ go s
    → HasChannels s.channels
      × (s.tone_mode ≡ true → IsSupported s.channels)
      × (s.tone_mode ≡ false → (name : String) × (s.interface ≡ some name))
unfolding IsSound
daemon_settings_sound strtol args s e =
    check_daemon-IsSound (parse_daemon strtol initial args) s
      (parse_daemon-Keeps strtol initial args (inl refl)) e
