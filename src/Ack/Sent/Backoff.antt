-- ===== src/Ack/Sent/Backoff.antt =====
-- The timeout of retransmission and its back-off.
use native.Mathlib.Nat.{pow-suc}
use agg_deliv.Common.{
  ℕ, zero, suc, ◌+◌, ◌-◌, ◌*◌, ◌%◌, ◌^◌, ◌≤◌, ◌<◌, ◌≡◌, false, if◌then◌else◌, ltb, ◌==◌, refl,
  arith, ap, ◌∙◌, u64_mod,
}
use agg_deliv.Ack.Sent.State.{
  Congestion, SentPacketHandler, compute_rto_timeout, default_rto_timeout, min_rto_timeout,
  max_rto_timeout, update_loss_detection_alarm, next_alarm, is_empty, max, min_duration,
  max_duration, min_retransmission_time,
}

double_suc : (t n : ℕ) → t * 2 ^ suc n ≡ 2 * (t * 2 ^ n)
double_suc t n = omega (arith, ap (λ (p : ℕ). t * p) (pow-suc 2 n))

double : (t n : ℕ) → t * 2 ^ (n + 1) ≡ 2 * (t * 2 ^ n)
double t n =
    let next : n + 1 ≡ suc n = omega arith in ap (λ (k : ℕ). t * 2 ^ k) next ∙ double_suc t n

at_least : (t n : ℕ) → t ≤ t * 2 ^ n
at_least t zero = omega arith
at_least t (suc n) = omega (arith, at_least t n, double_suc t n)

-- Without an overflow the shifted timeout is only capped.
capped :
    (m : ℕ)
    → m < 2 ^ 63
    → min_duration (m % u64_mod) max_rto_timeout
      ≡ (if ltb max_rto_timeout m then max_rto_timeout else m)
capped m small = let same : m % u64_mod ≡ m = omega arith in rw same (ground arith)

shifted_out : (j : ℕ) → 500_000_000 * 2 ^ (j + 56) % u64_mod ≡ 0
shifted_out zero = refl
shifted_out (suc j) =
    let next : suc j + 56 ≡ suc (j + 56) = omega arith in
    rw next (omega (arith, double_suc 500_000_000 (j + 56), shifted_out j))

module _ {C : Type 0} (cc : Congestion C) where
  -- The timeout before the back-off.
  abbrev pub first_timeout : SentPacketHandler C → ℕ
  first_timeout h =
      max
        (if cc.retransmission_delay h.congestion == 0
          then default_rto_timeout
          else cc.retransmission_delay h.congestion)
        min_rto_timeout

  -- While the timeout, doubled for each timeout before and once more, fits 63 bits, it is between 200 ms and
  -- 60 s, and the timeout after it is twice as long, but at most 60 s.
  pub compute_rto_timeout_bounds :
      (h : SentPacketHandler C)
      → first_timeout h * 2 ^ (h.rto_count + 1) < 2 ^ 63
      → (min_rto_timeout ≤ compute_rto_timeout cc h)
        × (compute_rto_timeout cc h ≤ max_rto_timeout)
        × (compute_rto_timeout cc (record h { rto_count = h.rto_count + 1 }) ≡ (
            if ltb max_rto_timeout (2 * compute_rto_timeout cc h)
            then max_rto_timeout
            else 2 * compute_rto_timeout cc h))
  unfolding compute_rto_timeout
  compute_rto_timeout_bounds h small =
      let low : min_rto_timeout ≤ first_timeout h = ground arith in
      let shifted = double (first_timeout h) h.rto_count in
      let large = at_least (first_timeout h) h.rto_count in
      rw
        (
          shifted,
          capped (first_timeout h * 2 ^ h.rto_count) (omega (arith, shifted)),
          capped (2 * (first_timeout h * 2 ^ h.rto_count)) (omega (arith, shifted)),
        )
        (ground (arith, low, large), ground (arith, low, large), ground (arith, low, large))

  -- With the default timeout and 56 or more timeouts before, the shift has dropped every bit.
  compute_rto_timeout_shrinks :
      (h : SentPacketHandler C)
      → cc.retransmission_delay h.congestion ≡ 0
      → 56 ≤ h.rto_count
      → max_duration (compute_rto_timeout cc h) min_retransmission_time ≡ min_retransmission_time
  unfolding compute_rto_timeout
  compute_rto_timeout_shrinks h unmeasured many =
      let count : h.rto_count ≡ (h.rto_count - 56) + 56 = omega arith in
      let zero_left : 500_000_000 * 2 ^ h.rto_count % u64_mod ≡ 0 =
        ap (λ (n : ℕ). 500_000_000 * 2 ^ n % u64_mod) count ∙ shifted_out (h.rto_count - 56) in
      rw (unmeasured, zero_left) refl

  -- If packets are tracked, none waits for its loss time, no round trip was measured, so that the timeout
  -- before the back-off is the default of 500 ms, and there were 56 or more timeouts in a row, then the
  -- alarm is set to 200 ms after the last packet was sent, not to 60 s.
  pub update_loss_detection_alarm-shrinks :
      (h : SentPacketHandler C)
      → is_empty h.packet_history ≡ false
      → h.loss_time ≡ 0
      → cc.smoothed_rtt h.congestion ≡ 0
      → cc.retransmission_delay h.congestion ≡ 0
      → 56 ≤ h.rto_count
      → (update_loss_detection_alarm cc h).alarm ≡ h.last_sent_time + min_retransmission_time
  unfolding update_loss_detection_alarm next_alarm
  update_loss_detection_alarm-shrinks h tracked no_loss unmeasured no_delay many =
      let timeout = compute_rto_timeout_shrinks h no_delay many in
      rw (tracked, no_loss, unmeasured) (ap (λ (d : ℕ). h.last_sent_time + d) timeout)
