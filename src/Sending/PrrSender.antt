-- ===== src/Sending/PrrSender.antt =====
-- mpquic_trans/congestion/prr_sender.go. A duration is a number; InfDuration is the largest of int64.
use native.Mathlib.Nat.{mod-eq_of_lt}
use agg_deliv.Common.{
  ℕ, ◌+◌, ◌-◌, ◌*◌, ◌%◌, ◌^◌, ◌<◌, ◌≤◌, ◌≡◌, ltb, leb, ◌==◌, if◌then◌else◌, add64, u64_mod, arith,
  ◌⊎◌, ◌||◌,
}

pub record PrrSender : Type 0 where
  pub bytes_sent_since_loss : ℕ
  pub bytes_delivered_since_loss : ℕ
  pub ack_count_since_loss : ℕ
  pub bytes_in_flight_before_loss : ℕ

abbrev pub default_tcp_mss : ℕ
default_tcp_mss = 1460

abbrev pub inf_duration : ℕ
inf_duration = 2 ^ 63 - 1

abbrev mul64 : ℕ → ℕ → ℕ
mul64 a b = a * b % u64_mod

unfoldable pub on_packet_sent : PrrSender → ℕ → PrrSender
on_packet_sent p sent_bytes = record p {
  bytes_sent_since_loss = add64 p.bytes_sent_since_loss sent_bytes;
}

unfoldable pub on_packet_lost : PrrSender → ℕ → PrrSender
on_packet_lost p bytes_in_flight = record {
  bytes_sent_since_loss = 0;
  bytes_in_flight_before_loss = bytes_in_flight;
  bytes_delivered_since_loss = 0;
  ack_count_since_loss = 0;
}

unfoldable pub on_packet_acked : PrrSender → ℕ → PrrSender
on_packet_acked p acked_bytes = record p {
  bytes_delivered_since_loss = add64 p.bytes_delivered_since_loss acked_bytes;
  ack_count_since_loss = add64 p.ack_count_since_loss 1;
}

unfoldable pub time_until_send : PrrSender → ℕ → ℕ → ℕ → ℕ
time_until_send p congestion_window bytes_in_flight slowstart_threshold =
    if p.bytes_sent_since_loss == 0 || ltb bytes_in_flight default_tcp_mss
    then 0
    else if ltb bytes_in_flight congestion_window
    then (if leb (add64 p.bytes_delivered_since_loss (mul64 p.ack_count_since_loss default_tcp_mss))
          p.bytes_sent_since_loss
        then inf_duration
        else 0)
    else if ltb (mul64 p.bytes_sent_since_loss p.bytes_in_flight_before_loss)
        (mul64 p.bytes_delivered_since_loss slowstart_threshold)
    then 0
    else inf_duration

-- What happens in a recovery period: an ACK of some bytes, or a packet of `size` bytes that is sent when
-- TimeUntilSend allows it, under a congestion window and with some bytes in flight.
pub data Step : PrrSender → PrrSender → Type 0 where
  acked : (p : PrrSender) (bytes : ℕ) → bytes < 2 ^ 62 → Step p (on_packet_acked p bytes)
  sent :
      (p : PrrSender) (size window in_flight threshold : ℕ)
      → size ≤ default_tcp_mss
      → default_tcp_mss ≤ in_flight
      → in_flight < window
      → time_until_send p window in_flight threshold ≡ 0
      → Step p (on_packet_sent p size)

-- The counts stay below bounds that keep the sums from wrapping.
unfoldable pub IsSmall : PrrSender → Type 0
IsSmall p =
    (p.bytes_sent_since_loss < 2 ^ 62)
    × (p.bytes_delivered_since_loss < 2 ^ 62)
    × (p.ack_count_since_loss < 2 ^ 48)

-- PRR-SSRB: what was sent since the loss exceeds what was delivered, with one segment for each ACK, by at
-- most one segment.
unfoldable pub IsLimited : PrrSender → Type 0
IsLimited p =
    p.bytes_sent_since_loss
    ≤ p.bytes_delivered_since_loss + p.ack_count_since_loss * default_tcp_mss + default_tcp_mss

Step-IsLimited : {p q : PrrSender} → Step p q → IsSmall p → IsSmall q → IsLimited p → IsLimited q
unfolding IsSmall IsLimited time_until_send on_packet_sent on_packet_acked
Step-IsLimited (acked p bytes h) small small' limited = ground arith
Step-IsLimited (sent p size window in_flight threshold fits flying above allowed) small small'
      limited =
    ground arith

-- A recovery period: steps through states with small counts.
pub data Run : PrrSender → PrrSender → Type 0 where
  start : (p : PrrSender) → IsSmall p → Run p p
  next : {p q r : PrrSender} → Run p q → Step q r → IsSmall r → Run p r

Run-IsSmall : {p q : PrrSender} → Run p q → IsSmall q
Run-IsSmall (start p small) = small
Run-IsSmall (next run step small) = small

from_IsLimited : {p q : PrrSender} → Run p q → IsLimited p → IsLimited q
from_IsLimited (start p small) limited = limited
from_IsLimited (next run step small) limited =
    Step-IsLimited step (Run-IsSmall run) small (from_IsLimited run limited)

-- In a recovery period that OnPacketLost starts, with counts too small to wrap, in which packets of at most
-- a segment are sent only when TimeUntilSend allows it, under a congestion window above the bytes in flight,
-- which are at least a segment, the bytes sent stay within the bytes delivered, one segment for each ACK
-- and one more segment.
pub Run-IsLimited :
    (p q : PrrSender) (bytes_in_flight : ℕ) → Run (on_packet_lost p bytes_in_flight) q → IsLimited q
unfolding IsLimited on_packet_lost
Run-IsLimited p q bytes_in_flight run = from_IsLimited run (ground arith)

-- TimeUntilSend outside of SSRB, where the window is at most the bytes in flight and some bytes were sent,
-- allows a packet exactly if the bytes delivered, scaled by the threshold, exceed the bytes sent, scaled by
-- the bytes that were in flight, for products below 2 ^ 64; it returns 0 or the infinite duration.
pub time_until_send-proportional :
    (p : PrrSender) (window in_flight threshold : ℕ)
    → 0 < p.bytes_sent_since_loss
    → default_tcp_mss ≤ in_flight
    → window ≤ in_flight
    → p.bytes_sent_since_loss * p.bytes_in_flight_before_loss < u64_mod
    → p.bytes_delivered_since_loss * threshold < u64_mod
    → ((time_until_send p window in_flight threshold ≡ 0)
        × (p.bytes_sent_since_loss * p.bytes_in_flight_before_loss
            < p.bytes_delivered_since_loss * threshold))
      ⊎ ((time_until_send p window in_flight threshold ≡ inf_duration)
          × (p.bytes_delivered_since_loss * threshold
              ≤ p.bytes_sent_since_loss * p.bytes_in_flight_before_loss))
unfolding time_until_send
time_until_send-proportional p window in_flight threshold sent_some flying full h1 h2 =
    ground (arith, mod-eq_of_lt h1, mod-eq_of_lt h2)
