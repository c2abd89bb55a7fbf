-- ===== src/Protocol.antt =====
-- The package mpquic_trans/internal/protocol.
pub mod PacketNumber
pub mod Version
