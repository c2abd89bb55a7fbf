-- ===== src/Sending.antt =====
-- The parts that pace and number what is sent: mpquic_trans/packet_number_generator.go,
-- mpquic_trans/congestion/prr_sender.go and hybrid_slow_start.go.
pub mod PacketNumberGenerator
pub mod PrrSender
pub mod HybridSlowStart
mod Tests
