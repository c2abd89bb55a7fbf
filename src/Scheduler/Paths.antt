-- ===== src/Scheduler/Paths.antt =====
-- The paths of a session (mpquic_trans/path.go), as far as the scheduler reads them. The map from
-- identifiers to paths is the list of its paths, in the order in which a loop over the map visits them.
use agg_deliv.Common.{
  ℕ, Bool, true, not, ◌&&◌, List, [], ◌∷◌, Option, none, some, ◌==◌, if◌then◌else◌,
}
use agg_deliv.Ack.Sent.State.{Congestion, SentPacketHandler}
use agg_deliv.Ack.Sent.Timeout

pub record PathState (C : Type 0) : Type 0 where
  pub path_id : ℕ
  pub is_open : Bool
  pub potentially_failed : Bool
  pub sent_packet_handler : SentPacketHandler C

abbrev pub initial_path_id : ℕ
initial_path_id = 0

module _ {C : Type 0} where
  -- `s.paths[id]`, `none` for nil.
  unfoldable pub path_of : ℕ → List (PathState C) → Option (PathState C)
  path_of id [] = none
  path_of id (p ∷ ps) = if p.path_id == id then some p else path_of id ps

module _ {C : Type 0} (cc : Congestion C) where
  unfoldable pub sending_allowed : PathState C → Bool
  unfolding Timeout.sending_allowed
  sending_allowed p = p.is_open && Timeout.sending_allowed cc p.sent_packet_handler

  -- The path's RTT statistics are those of its handler's congestion control.
  unfoldable pub smoothed_rtt : PathState C → ℕ
  smoothed_rtt p = cc.smoothed_rtt p.sent_packet_handler.congestion

  -- The three tests at which a loop over the paths continues with the next one.
  unfoldable pub skips : Bool → PathState C → Bool
  unfolding sending_allowed
  skips has_retransmission p =
      if not has_retransmission && not (sending_allowed p)
      then true
      else if p.potentially_failed
      then true
      else p.path_id == initial_path_id
