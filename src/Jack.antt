-- ===== src/Jack.antt =====
-- src/reacjack.c: the JACK client. Its capture thread puts payloads into a byte ring of JACK's, and
-- its process callback decodes them out of it into the ports.
pub mod ByteRing
pub mod Client
pub mod Capture
pub mod Backend
pub mod Play
pub mod Flow
pub mod Startup
pub mod Lifetimes
pub mod Meter
pub mod Display
pub mod Callback
mod Tests
use mathlib.Core.Option
use reac_jack.Common.{[], ℕ}

-- `ReacError`
pub data Error : Type 0 where
  err_ok err_capture err_ring_read err_short_packet err_bad_packet_size err_too_many_channels :
      Error
  err_jack_buffer_too_large err_jack_port : Error
