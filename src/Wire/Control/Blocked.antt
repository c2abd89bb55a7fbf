-- ===== src/Wire/Control/Blocked.antt =====
-- mpquic_trans/internal/wire/blocked_frame.go: the BLOCKED frame.
use agg_deliv.Common.{ℕ, ◌+◌, List, [], ◌∷◌, ◌++◌}
use agg_deliv.Protocol.Version.{VersionNumber}
use agg_deliv.Wire.Reader.{Reader, ◌>>=◌, ◌>>◌, return, read_byte}
use agg_deliv.Wire.ByteOrder.{get_byte_order, read_uint32, write_uint32}

pub record BlockedFrame : Type 0 where
  pub stream_id : ℕ

unfoldable pub write : BlockedFrame → VersionNumber → List ℕ
write f version = (0x05 ∷ []) ++ write_uint32 (get_byte_order version) f.stream_id

unfoldable pub parse : VersionNumber → Reader BlockedFrame
unfolding read_byte
parse version = do
  read_byte
  sid ← read_uint32 (get_byte_order version)
  return (record { stream_id = sid })

unfoldable pub min_length : BlockedFrame → ℕ
min_length f = 1 + 4
