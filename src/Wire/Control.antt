-- ===== src/Wire/Control.antt =====
-- What the control frames of mpquic_trans/internal/wire share; each has a child module. A writer appends
-- its bytes to the buffer, so it returns them. The parsers skip the type byte, which the session has
-- looked at before.
pub mod WindowUpdate
pub mod Blocked
pub mod RstStream
pub mod Goaway
pub mod ConnectionClose
pub mod Ping
pub mod StopWaiting
pub mod RoundTrip
mod Tests
use agg_deliv.Common.{ℕ, List}

-- protocol.MaxPacketSize
abbrev pub max_packet_size : ℕ
max_packet_size = 1350

-- What a writer does: it writes the bytes, returns an error after some bytes, or panics.
pub data WriteError : Type 0 where
  reason_phrase_too_long : WriteError
  packet_number_not_set : WriteError
  least_unacked_higher_than_packet_number : WriteError
  packet_number_len_not_set : WriteError

pub data Written : Type 0 where
  done : List ℕ → Written
  refused : WriteError → List ℕ → Written
  panic : Written
