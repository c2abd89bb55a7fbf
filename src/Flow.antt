-- ===== src/Flow.antt =====
-- The package mpquic_trans/internal/flowcontrol.
pub mod Controller
pub mod Manager
