-- ===== src/Wire.antt =====
-- The package mpquic_trans/internal/wire, and the byte orders of mpquic_trans/internal/utils.
pub mod AckFrame
pub mod Reader
pub mod ByteOrder
pub mod Control
pub mod StreamFrame
