-- ===== src/Sending/HybridSlowStart.antt =====
-- mpquic_trans/congestion/hybrid_slow_start.go. Durations are numbers of nanoseconds that are not negative
-- and whose sums stay below 2 ^ 63.
pub mod Rounds
use agg_deliv.Common.{
  ℕ, zero, suc, ◌+◌, ◌-◌, ◌*◌, ◌/◌, ◌%◌, ◌^◌, ◌<◌, ◌≤◌, ◌≡◌, Option, none, some, ltb, leb, ◌==◌,
  if◌then◌else◌, add64, sub64, u64_mod, List, [], ◌∷◌, arith, ◌⊎◌, inl, inr, refl, ◌∙◌, Bool, true,
  false, ◌||◌, ◌&&◌, not, length,
}

pub record HybridSlowStart : Type 0 where
  pub end_packet_number : ℕ
  pub last_sent_packet_number : ℕ
  pub started : Bool
  pub current_min_rtt : ℕ
  pub rtt_sample_count : ℕ
  pub hystart_found : Bool

abbrev pub hybrid_start_low_window : ℕ
hybrid_start_low_window = 16

abbrev pub hybrid_start_min_samples : ℕ
hybrid_start_min_samples = 8

abbrev pub hybrid_start_delay_factor_exp : ℕ
hybrid_start_delay_factor_exp = 3

abbrev pub hybrid_start_delay_min_threshold_us : ℕ
hybrid_start_delay_min_threshold_us = 4000

abbrev pub hybrid_start_delay_max_threshold_us : ℕ
hybrid_start_delay_max_threshold_us = 16000

abbrev pub min_int64 : ℕ → ℕ → ℕ
min_int64 a b = if ltb a b then a else b

abbrev pub max_int64 : ℕ → ℕ → ℕ
max_int64 a b = if ltb b a then a else b

unfoldable pub start_receive_round : HybridSlowStart → ℕ → HybridSlowStart
start_receive_round s last_sent = record s {
  end_packet_number = last_sent;
  current_min_rtt = 0;
  rtt_sample_count = 0;
  started = true;
}

unfoldable pub is_end_of_round : HybridSlowStart → ℕ → Bool
is_end_of_round s ack = ltb s.end_packet_number ack

-- The increase of the least RTT, in nanoseconds, that ends slow start.
unfoldable pub min_rtt_increase_threshold : ℕ → ℕ
min_rtt_increase_threshold min_rtt =
    max_int64
      (min_int64 (min_rtt / 1000 / 2 ^ hybrid_start_delay_factor_exp)
        hybrid_start_delay_max_threshold_us)
      hybrid_start_delay_min_threshold_us
    * 1000

-- The first samples of a round.
unfoldable pub take_sample : HybridSlowStart → ℕ → HybridSlowStart
take_sample s latest_rtt =
    let count = (s.rtt_sample_count + 1) % 2 ^ 32 in
    if leb count hybrid_start_min_samples
      && (s.current_min_rtt == 0 || ltb latest_rtt s.current_min_rtt)
    then record s { rtt_sample_count = count; current_min_rtt = latest_rtt }
    else record s { rtt_sample_count = count }

-- The test that is made once in a round.
unfoldable pub detect : HybridSlowStart → ℕ → HybridSlowStart
unfolding min_rtt_increase_threshold
detect s min_rtt =
    if s.rtt_sample_count == hybrid_start_min_samples
      && ltb (min_rtt + min_rtt_increase_threshold min_rtt) s.current_min_rtt
    then record s { hystart_found = true }
    else s

unfoldable pub start_if_needed : HybridSlowStart → HybridSlowStart
unfolding start_receive_round
start_if_needed s = if s.started then s else start_receive_round s s.last_sent_packet_number

pub record Decision : Type 0 where
  pub state : HybridSlowStart
  pub exits : Bool

unfoldable pub should_exit_slow_start : HybridSlowStart → ℕ → ℕ → ℕ → Decision
unfolding take_sample detect start_if_needed
should_exit_slow_start s latest_rtt min_rtt congestion_window =
    let begun = start_if_needed s in
    if begun.hystart_found
    then record { state = begun; exits = true }
    else let seen = detect (take_sample begun latest_rtt) min_rtt in
      record {
        state = seen;
        exits = leb hybrid_start_low_window congestion_window && seen.hystart_found;
      }

unfoldable pub on_packet_sent : HybridSlowStart → ℕ → HybridSlowStart
on_packet_sent s packet_number = record s { last_sent_packet_number = packet_number }

unfoldable pub on_packet_acked : HybridSlowStart → ℕ → HybridSlowStart
unfolding is_end_of_round
on_packet_acked s acked = if is_end_of_round s acked then record s { started = false } else s

unfoldable pub restart : HybridSlowStart → HybridSlowStart
restart s = record s { started = false; hystart_found = false }

-- The state after the samples of one round, under one least RTT and one window.
unfoldable pub samples : HybridSlowStart → ℕ → ℕ → List ℕ → HybridSlowStart
unfolding should_exit_slow_start
samples s min_rtt window [] = s
samples s min_rtt window (rtt ∷ rtts) =
    samples (Decision.state (should_exit_slow_start s rtt min_rtt window)) min_rtt window rtts

-- The least sample, where `least` is the least before, 0 for none.
unfoldable pub least_sample : ℕ → List ℕ → ℕ
least_sample least [] = least
least_sample least (rtt ∷ rtts) =
    least_sample (if least == 0 then rtt else min_int64 rtt least) rtts
