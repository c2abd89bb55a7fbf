-- ===== src/Ack/Sent.antt =====
-- mpquic_trans/ackhandler/sent_packet_handler.go: the packets of a path that are in flight, what an ACK
-- acknowledges, what is lost, and what is queued to be sent again.
pub mod State
pub mod Detection
pub mod Handler
pub mod Calls
pub mod Timeout
pub mod Packets
pub mod Ranges
pub mod Acked
pub mod Removal
pub mod Validity
pub mod Backoff
mod Tests
