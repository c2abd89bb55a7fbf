-- ===== src/Wire/Control/Goaway.antt =====
-- mpquic_trans/internal/wire/goaway_frame.go: the GOAWAY frame.
use agg_deliv.Common.{ℕ, ◌+◌, ◌%◌, ◌^◌, List, [], ◌∷◌, ◌++◌, ltb, if◌then◌else◌, length}
use agg_deliv.Protocol.Version.{VersionNumber}
use agg_deliv.Wire.Reader.{
  Reader, ◌>>=◌, ◌>>◌, return, fail, read_byte, read_full, invalid_goaway_data,
}
use agg_deliv.Wire.ByteOrder.{get_byte_order, read_uint16, read_uint32, write_uint16, write_uint32}
use agg_deliv.Wire.Control.{max_packet_size}

pub record GoawayFrame : Type 0 where
  pub error_code : ℕ
  pub last_good_stream : ℕ
  pub reason_phrase : List ℕ

unfoldable pub write : GoawayFrame → VersionNumber → List ℕ
write f version =
    (0x03 ∷ [])
    ++ write_uint32 (get_byte_order version) f.error_code
    ++ write_uint32 (get_byte_order version) f.last_good_stream
    ++ write_uint16 (get_byte_order version) (length f.reason_phrase % 2 ^ 16)
    ++ f.reason_phrase

unfoldable pub parse : VersionNumber → Reader GoawayFrame
unfolding read_byte
parse version = do
  read_byte
  error_code ← read_uint32 (get_byte_order version)
  last_good_stream ← read_uint32 (get_byte_order version)
  reason_phrase_len ← read_uint16 (get_byte_order version)
  let whole = read_full reason_phrase_len >>= λ reason_phrase. return (record {
    error_code = error_code;
    last_good_stream = last_good_stream;
    reason_phrase = reason_phrase;
  })
  if ltb max_packet_size reason_phrase_len then fail invalid_goaway_data else whole

unfoldable pub min_length : GoawayFrame → ℕ
min_length f = 1 + 4 + 4 + 2 + length f.reason_phrase
