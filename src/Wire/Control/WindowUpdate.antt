-- ===== src/Wire/Control/WindowUpdate.antt =====
-- mpquic_trans/internal/wire/window_update_frame.go: the WINDOW_UPDATE frame.
use agg_deliv.Common.{ℕ, ◌+◌, List, [], ◌∷◌, ◌++◌}
use agg_deliv.Protocol.Version.{VersionNumber}
use agg_deliv.Wire.Reader.{Reader, ◌>>=◌, ◌>>◌, return, read_byte}
use agg_deliv.Wire.ByteOrder.{get_byte_order, read_uint32, read_uint64, write_uint32, write_uint64}

pub record WindowUpdateFrame : Type 0 where
  pub stream_id : ℕ
  pub byte_offset : ℕ

unfoldable pub write : WindowUpdateFrame → VersionNumber → List ℕ
write f version =
    (0x04 ∷ [])
    ++ write_uint32 (get_byte_order version) f.stream_id
    ++ write_uint64 (get_byte_order version) f.byte_offset

unfoldable pub parse : VersionNumber → Reader WindowUpdateFrame
unfolding read_byte
parse version = do
  read_byte
  sid ← read_uint32 (get_byte_order version)
  byte_offset ← read_uint64 (get_byte_order version)
  return (record { stream_id = sid; byte_offset = byte_offset })

unfoldable pub min_length : WindowUpdateFrame → ℕ
min_length f = 1 + 4 + 8
