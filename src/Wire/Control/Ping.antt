-- ===== src/Wire/Control/Ping.antt =====
-- mpquic_trans/internal/wire/ping_frame.go: the PING frame.
use agg_deliv.Common.{ℕ, List, [], ◌∷◌}
use agg_deliv.Protocol.Version.{VersionNumber}
use agg_deliv.Wire.Reader.{Reader, ◌>>◌, return, read_byte}

pub record PingFrame : Type 0 where

unfoldable pub write : PingFrame → VersionNumber → List ℕ
write f version = 0x07 ∷ []

unfoldable pub parse : VersionNumber → Reader PingFrame
unfolding read_byte
parse version = do read_byte; return (record {})

unfoldable pub min_length : PingFrame → ℕ
min_length f = 1
