-- ===== src/Wire/Control/RstStream.antt =====
-- mpquic_trans/internal/wire/rst_stream_frame.go: the RST_STREAM frame.
use agg_deliv.Common.{ℕ, ◌+◌, List, [], ◌∷◌, ◌++◌}
use agg_deliv.Protocol.Version.{VersionNumber}
use agg_deliv.Wire.Reader.{Reader, ◌>>=◌, ◌>>◌, return, read_byte}
use agg_deliv.Wire.ByteOrder.{get_byte_order, read_uint32, read_uint64, write_uint32, write_uint64}

pub record RstStreamFrame : Type 0 where
  pub stream_id : ℕ
  pub error_code : ℕ
  pub byte_offset : ℕ

unfoldable pub write : RstStreamFrame → VersionNumber → List ℕ
write f version =
    (0x01 ∷ [])
    ++ write_uint32 (get_byte_order version) f.stream_id
    ++ write_uint64 (get_byte_order version) f.byte_offset
    ++ write_uint32 (get_byte_order version) f.error_code

unfoldable pub parse : VersionNumber → Reader RstStreamFrame
unfolding read_byte
parse version = do
  read_byte
  sid ← read_uint32 (get_byte_order version)
  byte_offset ← read_uint64 (get_byte_order version)
  error_code ← read_uint32 (get_byte_order version)
  return (record { stream_id = sid; error_code = error_code; byte_offset = byte_offset })

unfoldable pub min_length : RstStreamFrame → ℕ
min_length f = 1 + 4 + 8 + 4
