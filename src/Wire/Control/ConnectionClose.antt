-- ===== src/Wire/Control/ConnectionClose.antt =====
-- mpquic_trans/internal/wire/connection_close_frame.go: the CONNECTION_CLOSE frame.
use agg_deliv.Common.{ℕ, ◌+◌, ◌%◌, ◌^◌, List, [], ◌∷◌, ◌++◌, ltb, if◌then◌else◌, length}
use agg_deliv.Protocol.Version.{VersionNumber}
use agg_deliv.Wire.Reader.{
  Reader, ◌>>=◌, ◌>>◌, return, fail, read_byte, read_full, invalid_connection_close_data,
}
use agg_deliv.Wire.ByteOrder.{get_byte_order, read_uint16, read_uint32, write_uint16, write_uint32}
use agg_deliv.Wire.Control.{max_packet_size, Written, done, refused, reason_phrase_too_long}

pub record ConnectionCloseFrame : Type 0 where
  pub error_code : ℕ
  pub reason_phrase : List ℕ

-- The type byte and the error code are in the buffer when the phrase is found too long.
unfoldable pub write : ConnectionCloseFrame → VersionNumber → Written
write f version =
    let start = (0x02 ∷ []) ++ write_uint32 (get_byte_order version) f.error_code in
    if ltb 65535 (length f.reason_phrase)
    then refused reason_phrase_too_long start
    else done (
        start
        ++ write_uint16 (get_byte_order version) (length f.reason_phrase % 2 ^ 16)
        ++ f.reason_phrase)

unfoldable pub parse : VersionNumber → Reader ConnectionCloseFrame
unfolding read_byte
parse version = do
  read_byte
  error_code ← read_uint32 (get_byte_order version)
  reason_phrase_len ← read_uint16 (get_byte_order version)
  let whole = read_full reason_phrase_len >>= λ reason_phrase.
      return (record { error_code = error_code; reason_phrase = reason_phrase })
  if ltb max_packet_size reason_phrase_len then fail invalid_connection_close_data else whole

unfoldable pub min_length : ConnectionCloseFrame → ℕ
min_length f = 1 + 4 + 2 + length f.reason_phrase
