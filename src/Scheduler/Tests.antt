-- ===== src/Scheduler/Tests.antt =====
-- The scheduler on sessions of three paths.
use mathlib.Core.List.{Permᴰ}
use mathlib.Core.List.Permᴰ
use agg_deliv.Common.{
  if_cases, ◌%◌, ℕ, ◌+◌, ◌-◌, ◌*◌, ◌/◌, ◌<◌, ◌≡◌, true, false, List, [], ◌∷◌, Option, none, some,
  refl, arith, ◌⊎◌, inl, inr, ltb, ◌==◌, if◌then◌else◌, u64_mod,
}
use agg_deliv.Ack.Packet.{
  Packet, ping, EncryptionLevel, encryption_secure, encryption_forward_secure,
}
use agg_deliv.Ack.Sent.State.{Congestion}
use agg_deliv.Ack.Sent.Handler.{new_sent_packet_handler}
use agg_deliv.Flow.Controller.{FlowController}
use agg_deliv.Scheduler.Paths.{
  PathState, initial_path_id, path_of, skips, sending_allowed, smoothed_rtt,
}
use agg_deliv.Scheduler.Select.{
  chosen, Weights, Quota, quota_of, select_path_large_bandwidth, select_path_round_robin,
  select_path_low_latency,
}
use agg_deliv.Scheduler.Bandwidth.{AreSkipped, IsFirstOr, select_path_large_bandwidth_lem}
use agg_deliv.Scheduler.LeastQuota.{IsAmong, AreUsed, select_path_round_robin_lem}
use agg_deliv.Scheduler.LeastRtt.{AreMeasured, IsFastest, select_path_low_latency_lem}
use agg_deliv.Scheduler.Retransmission.{Session, Retransmission, get_retransmission}
use agg_deliv.Scheduler.Drain.{AreOrders, Drains, get_retransmission_lem}

-- Congestion control whose state is a round trip time and the bytes of its window.
pub record Steady : Type 0 where
  pub rtt : ℕ
  pub window : ℕ

abbrev steady : Congestion Steady
steady = record {
  on_packet_sent = λ now bytes n length retransmittable c. c;
  maybe_exit_slow_start = λ c. c;
  on_packet_acked = λ n length bytes c. c;
  on_packet_lost = λ n length bytes c. c;
  on_retransmission_timeout = λ retransmitted c. c;
  congestion_window = λ c. c.window;
  retransmission_delay = λ c. 2 * c.rtt;
  smoothed_rtt = λ c. c.rtt;
  latest_rtt = λ c. c.rtt;
  update_rtt = λ sample delay now c. record c { rtt = sample };
  reordered = λ d. d * 9 / 8;
}

abbrev a_path : ℕ → ℕ → ℕ → PathState Steady
a_path id rtt in_flight = record {
  path_id = id;
  is_open = true;
  potentially_failed = false;
  sent_packet_handler = record (new_sent_packet_handler (record { rtt = rtt; window = 1000 })) {
    bytes_in_flight = in_flight;
  };
}

abbrev three : List (PathState Steady)
three = a_path 0 10 0 ∷ a_path 1 40 500 ∷ a_path 3 30 600 ∷ []

-- Weights in percent.
abbrev percent : Weights ℕ
percent = record {
  zero = 0;
  add = λ a b. a + b;
  more = λ a b. ltb b a;
  probability = λ id. if id == 1 then 30 else 70;
  thresh = 45;
}

abbrev quotas : List Quota
quotas = (record { path_id = 1; count = 7 }) ∷ (record { path_id = 3; count = 4 }) ∷ []

select_path_large_bandwidth_lem_example :
    (r : Option (PathState Steady)) × (select_path_large_bandwidth steady percent false three
      ≡ chosen r)
    × IsFirstOr steady percent false 0 (path_of initial_path_id three) three r
select_path_large_bandwidth_lem_example =
    select_path_large_bandwidth_lem steady percent false three refl

quotas_small : (id : ℕ) → quota_of id quotas < u64_mod - 1
unfolding quota_of
quotas_small id = ground arith

select_path_round_robin_lem_example :
    ((id : ℕ)
      → quota_of id (select_path_round_robin steady false quotas three).quotas ≡ quota_of id quotas)
    × (((select_path_round_robin steady false quotas three).choice ≡ chosen none)
          × AreSkipped steady false three
        ⊎ ((p : PathState Steady) × ((select_path_round_robin steady false quotas three).choice
              ≡ chosen (some p))
            × IsAmong p three
            × (skips steady false p ≡ false)
            × AreUsed steady false (quota_of p.path_id quotas) quotas three))
select_path_round_robin_lem_example =
    select_path_round_robin_lem steady false quotas three (omega arith) quotas_small

three-AreMeasured : AreMeasured steady false three
unfolding AreMeasured skips sending_allowed new_sent_packet_handler smoothed_rtt
three-AreMeasured = (inl refl, (inr (omega arith), (inr (omega arith), omega arith)))

select_path_low_latency_lem_example :
    ((select_path_low_latency steady false false none quotas three).quotas ≡ quotas)
    × (r : Option (PathState Steady)) × ((select_path_low_latency steady false false none quotas
          three).choice
        ≡ chosen r)
    × IsFastest steady false three r
select_path_low_latency_lem_example =
    select_path_low_latency_lem steady false none quotas three (omega arith) three-AreMeasured

-- The path of 30 ms is chosen.
select_three :
    (select_path_low_latency steady false false none quotas three).choice
    ≡ chosen (some (a_path 3 30 600))
unfolding select_path_low_latency new_sent_packet_handler
select_three = refl

abbrev packet_of : ℕ → EncryptionLevel → Packet
packet_of n level = record {
  packet_number = n;
  frames = ping (record {}) ∷ [];
  length = 100;
  encryption_level = level;
  send_time = 0;
}

abbrev queueing : PathState Steady → List Packet → PathState Steady
queueing p queued = record p {
  sent_packet_handler = record p.sent_packet_handler { retransmission_queue = queued };
}

abbrev window : FlowController
window = record {
  stream_id = 0;
  contributes_to_connection = false;
  bytes_sent = 0;
  send_window = 0;
  bytes_retrans = 0;
  last_window_update_time = 0;
  bytes_read = 0;
  highest_received = 0;
  receive_window = 32768;
  receive_window_increment = 32768;
  max_receive_window_increment = 1048576;
}

-- The second path has queued a packet with and one without forward security.
abbrev session : Session Steady
session = record {
  paths =
      a_path 0 10 0
      ∷ queueing (a_path 1 40 0)
          (packet_of 4 encryption_forward_secure ∷ packet_of 5 encryption_secure ∷ [])
      ∷ queueing (a_path 3 30 0) (packet_of 9 encryption_forward_secure ∷ [])
      ∷ [];
  handshake_complete = false;
  stream_framer = record { retransmission_queue = []; paths_frame = none };
  packer = record { control_frames = []; stop_waiting = λ id. none; ack_frame = λ id. none };
  flow_control_manager = record { streams = []; conn = window };
  last_paths_frame_sent = 0;
}

-- The first two of three paths change their places.
unfoldable swapped : List (PathState Steady) → List (PathState Steady)
swapped (p ∷ q ∷ ps) = q ∷ p ∷ ps
swapped ps = ps

-- In every other round the paths are visited in that order.
abbrev orders : ℕ → List (PathState Steady) → List (PathState Steady)
orders n ps = if n % 2 == 0 then swapped ps else ps

swapped-order : (ps : List (PathState Steady)) → Permᴰ ps (swapped ps)
unfolding swapped
swapped-order [] = Permᴰ.refl []
swapped-order (p ∷ []) = Permᴰ.refl (p ∷ [])
swapped-order (p ∷ q ∷ ps) = Permᴰ.swap refl refl

orders-AreOrders : AreOrders orders
unfolding AreOrders
orders-AreOrders n ps =
    if_cases (Permᴰ ps) (n % 2 == 0) _ _ (λ c. swapped-order ps) (λ c. Permᴰ.refl ps)

get_retransmission_lem_example :
    (r : Retransmission Steady) × (get_retransmission steady orders session 50 ≡ some r)
    × Drains steady session r
get_retransmission_lem_example = get_retransmission_lem steady orders session 50 orders-AreOrders
