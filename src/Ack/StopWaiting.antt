-- ===== src/Ack/StopWaiting.antt =====
-- mpquic_trans/ackhandler/stop_waiting_manager.go. A frame carries its least unacknowledged packet number;
-- the packet packer fills in the other fields later, which are 0 here.
pub mod Runs
mod Tests
use agg_deliv.Common.{
  ℕ, Bool, true, false, ◌&&◌, Option, none, some, ltb, leb, if◌then◌else◌, add64,
}
use agg_deliv.Wire.AckFrame.{AckFrame}
use agg_deliv.Wire.Control.StopWaiting.{StopWaitingFrame}

pub record StopWaitingManager : Type 0 where
  pub largest_least_unacked_sent : ℕ
  pub next_least_unacked : ℕ
  pub last_stop_waiting_frame : Option StopWaitingFrame

abbrev pub new_stop_waiting_manager : StopWaitingManager
new_stop_waiting_manager = record {
  largest_least_unacked_sent = 0;
  next_least_unacked = 0;
  last_stop_waiting_frame = none;
}

abbrev pub frame_for : ℕ → StopWaitingFrame
frame_for n = record { least_unacked = n; packet_number_len = 0; packet_number = 0 }

pub record Got : Type 0 where
  pub manager : StopWaitingManager
  pub frame : Option StopWaitingFrame

abbrev pub is_none : {A : Type 0} → Option A → Bool
is_none none = true
is_none (some a) = false

-- The branch for a frame that is asked for again.
unfoldable pub last_frame : StopWaitingManager → Got
last_frame s =
    if is_none s.last_stop_waiting_frame && ltb 0 s.largest_least_unacked_sent
    then (let swf = some (frame_for s.next_least_unacked) in
        record { manager = record s { last_stop_waiting_frame = swf }; frame = swf })
    else record { manager = s; frame = s.last_stop_waiting_frame }

unfoldable pub get_stop_waiting_frame : StopWaitingManager → Bool → Got
unfolding last_frame
get_stop_waiting_frame s force =
    if leb s.next_least_unacked s.largest_least_unacked_sent
    then (if force then last_frame s else record { manager = s; frame = none })
    else let swf = some (frame_for s.next_least_unacked) in
      record {
        manager = record s {
          largest_least_unacked_sent = s.next_least_unacked;
          last_stop_waiting_frame = swf;
        };
        frame = swf;
      }

unfoldable pub received_ack : StopWaitingManager → AckFrame → StopWaitingManager
received_ack s ack =
    if leb s.next_least_unacked ack.largest_acked
    then record s { next_least_unacked = add64 ack.largest_acked 1 }
    else s

unfoldable pub queued_retransmission : StopWaitingManager → ℕ → StopWaitingManager
queued_retransmission s p =
    if leb s.next_least_unacked p then record s { next_least_unacked = add64 p 1 } else s
