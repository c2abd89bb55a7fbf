-- ===== src/Scheduler.antt =====
-- mpquic_trans/scheduler.go: the choice of a path for the next packet, and the retransmissions of all paths.
pub mod Paths
pub mod Select
pub mod Bandwidth
pub mod LeastQuota
pub mod LeastRtt
pub mod Retransmission
pub mod Hands
pub mod Drawn
pub mod Drain
mod Tests
