-- ===== src/Jack/Display.antt =====
-- src/reacjack.c: what the client displays: the times and fill that `process` leaves, the levels of
-- the display loop in `main`, and its start. The texts are values; their lengths are arguments.
use Prim.Native.String.{String}
use text.Mathlib.Text.{◌==◌ as str_eq}
use reac_jack.Common.{
  Bool, List, [], ap, ap₂, arith, false, if◌then◌else◌, ltb, lt→ltb, not, refl, sub64, suc,
  tabulate, tabulate_ext, true, u64, zero, ℕ, ◌*◌, ◌+◌, ◌==◌, ◌||◌, ◌∙◌, ◌∷◌, ◌≡◌, ◌≤◌,
}
use reac_jack.Decode.{bytes_per_sample}
use reac_jack.Jack.{err_ok}
use reac_jack.Jack.ByteRing.{Behaves, ByteRing}
use reac_jack.Jack.Capture.{PacketRing}
use reac_jack.Jack.Client.{Client, note_packet_counter}
use reac_jack.Jack.Meter.{Double, Meter}

-- What the display does with numbers beyond the metering, and its constants: 0.0000001, -120, 20,
-- -80, -6, -12, -60 and 1000.
pub record Decibels (D : Double) : Type 0 where
  pub le : D.W → D.W → Bool
  pub sub : D.W → D.W → D.W
  pub is_finite : D.W → Bool
  pub log10 : D.W → D.W
  pub least_value : D.W
  pub no_level : D.W
  pub twenty : D.W
  pub inactive : D.W
  pub red : D.W
  pub yellow : D.W
  pub green : D.W
  pub thousand : D.W

-- `sizeof(values)`
abbrev pub values_bytes : ℕ
values_bytes = 8192

-- The loop over `argv`, on `doMeasure`.
abbrev pub parse_silent : Bool → List String → Bool
parse_silent do_measure [] = do_measure
parse_silent do_measure (a ∷ args) =
    parse_silent (if str_eq a "-silent" then false else do_measure) args

-- A line of a channel: its number, and if it is active its levels with their colours, and the
-- dynamics.
pub data ChannelLine (W : Type 0) : Type 0 where
  quiet_line : ℕ → ChannelLine W
  level_line : (number col1 : ℕ) (rms : W) (col2 : ℕ) (peak dynamics : W) → ChannelLine W

-- The globals of the display that `process` sets.
pub record Times (D : Double) : Type 0 where
  pub current_samples_per_period : ℕ
  pub data_amount : ℕ
  pub space_amount : ℕ
  pub last_ts : D.W
  pub last_jack_time : D.W

module _ (D : Double) (E : Decibels D) where
  abbrev pub sample_to_db : D.W → D.W
  sample_to_db value =
      if E.le value E.least_value || not (E.is_finite value)
      then E.no_level
      else D.mul E.twenty (E.log10 value)

  abbrev pub colour : D.W → ℕ
  colour db =
      if D.lt E.red db
      then 31
      else if D.lt E.yellow db
      then 33
      else if D.lt E.green db
      then 32
      else 34

  -- A channel's line; `active[ch]` is `'*'` just when it has levels.
  abbrev pub channel_line : Meter D → ℕ → ChannelLine D.W
  channel_line m ch =
      let rms_db = sample_to_db (m.channel_rms ch) in
      let peak_db = sample_to_db (m.channel_peak ch) in
      if D.lt rms_db E.inactive
      then quiet_line (ch + 1)
      else level_line (ch + 1) (colour rms_db) rms_db (colour peak_db) peak_db
          (E.sub peak_db rms_db)

  -- The loop over the channels from `ch` on, as long as there is room in the text; `printed` is
  -- what `snprintf` returns for a line.
  unfoldable pub channel_lines :
      (ChannelLine D.W → ℕ) → Meter D → ℕ → ℕ → ℕ → List (ChannelLine D.W)
  channel_lines printed m zero ch offset = []
  channel_lines printed m (suc left) ch offset =
      let line = channel_line m ch in
      let rest = channel_lines printed m left (ch + 1) (offset + printed line) in
      if ltb offset values_bytes then line ∷ rest else []

  -- `process` up to its guard on the fill, on the globals of the display; `now` is the frame time
  -- of JACK, and `packet_time` the milliseconds of a packet.
  abbrev pub note_times : {J : ByteRing} → ℕ → D.W → Client J → ℕ → ℕ → Times D → Times D
  note_times {J} sample_rate packet_time app nframes now t =
      let seen = record t {
        current_samples_per_period = nframes;
        data_amount = J.read_space app.ring;
        space_amount = J.write_space app.ring;
      } in
      let buffer_size = u64 (nframes * app.current_channels * bytes_per_sample) in
      if app.current_channels == 0 || app.data_size == 0
      then seen
      else if ltb app.process_buffer_bytes buffer_size
      then seen
      else if app.process_start_time == 0
      then seen
      else record seen {
        last_jack_time =
            D.div (D.mul E.thousand (D.of_nat (sub64 now app.process_start_time)))
              (D.of_nat sample_rate);
        last_ts = D.mul (D.of_nat app.received_packages) packet_time;
      }

  -- If no line has more than 128 bytes and there is room for so many from `offset` on, no channel is
  -- left out of the display.
  channel_lines_all :
      (printed : ChannelLine D.W → ℕ) (m : Meter D) (left ch offset : ℕ)
      → ((line : ChannelLine D.W) → printed line ≤ 128)
      → offset + 128 * left ≤ 8192
      → channel_lines printed m left ch offset ≡ tabulate left (λ i. channel_line m (ch + i))
  unfolding channel_lines
  channel_lines_all printed m zero ch offset short room = refl
  channel_lines_all printed m (suc left) ch offset short room =
      let line = channel_line m ch in
      let rest =
        channel_lines_all printed m left (ch + 1) (offset + printed line) short
          (omega (arith, short line)) in
      let there : ltb offset 8192 ≡ true = lt→ltb offset 8192 (omega arith) in
      rw there (
        ap₂ ◌∷◌ (ap (λ (n : ℕ). channel_line m n) (omega arith))
          (rest ∙ tabulate_ext left _ _ (λ i h. ap (λ (n : ℕ). channel_line m n) (omega arith))))

-- The globals that `main` sets anew when it starts to display, two seconds in; `captureErrors` and
-- the kernel's part stand with the packet socket's ring.
unfoldable pub start_counting : {J : ByteRing} → Client J → PacketRing → Client J × PacketRing
start_counting {J} app r = (
  record app {
    ring = J.reset app.ring;
    counter = record app.counter { lost = 0; have_last_counter = false };
    net_buffer_underrun = 0;
    jack_buffer_underrun = 0;
    malformed_packets = 0;
    received_packages = 0;
    error = err_ok;
    process_start_time = 0;
  },
  record r { malformed_packets = 0; capture_errors = 0 },
)

-- The first packet behind that start is not taken for a gap, and the bytes of the ring are gone.
start_counting_anew :
    {J : ByteRing} (app : Client J) (r : PacketRing) (counter : ℕ)
    → Behaves J
    → let (app', r') = start_counting app r in
      ((note_packet_counter app'.counter counter).lost ≡ 0) × (J.contents app'.ring ≡ [])
unfolding start_counting note_packet_counter
start_counting_anew app r counter b = (refl, b.reset_empties app.ring)
