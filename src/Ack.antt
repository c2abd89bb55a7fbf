-- ===== src/Ack.antt =====
-- The package mpquic_trans/ackhandler.
pub mod History
pub mod Receiver
pub mod StopWaiting
pub mod Packet
pub mod Sent
