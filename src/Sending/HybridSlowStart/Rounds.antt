-- ===== src/Sending/HybridSlowStart/Rounds.antt =====
-- The rounds of the hybrid slow start.
use agg_deliv.Common.{ℕ, ◌+◌, ltb, ◌==◌, Bool, ◌&&◌}
use agg_deliv.Sending.HybridSlowStart.{
  HybridSlowStart, min_rtt_increase_threshold, hybrid_start_min_samples,
}

is_found : ℕ → ℕ → ℕ → Bool
is_found count min_rtt least =
    count == hybrid_start_min_samples && ltb (min_rtt + min_rtt_increase_threshold min_rtt) least
