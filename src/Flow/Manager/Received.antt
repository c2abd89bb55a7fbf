-- ===== src/Flow/Manager/Received.antt =====
-- Received bytes: the connection counts what its streams count.
use agg_deliv.Common.{
  ℕ, ◌+◌, ◌<◌, ◌≤◌, ◌≡◌, ◌↔◌, ◌⊎◌, inl, inr, false, none, some, arith, u64_mod, Bool-cases,
}
use agg_deliv.Flow.Controller
use agg_deliv.Flow.Controller.{
  FlowController, check_flow_control_violation, increment_highest_received,
}
use agg_deliv.Flow.Controller.Laws.{update_highest_received_lem}
use agg_deliv.Flow.Manager.{
  FlowControlManager, reset_stream, update_highest_received, stream_data_after_termination,
}
use agg_deliv.Flow.Manager.Streams.{find, put, share, received_sum, received_sum-put}

-- The controller of a stream after an offset was received.
abbrev pub advanced : FlowController → ℕ → FlowController
advanced fc offset = (Controller.update_highest_received fc offset).controller

abbrev pub advance : FlowController → ℕ → ℕ
advance fc offset = (Controller.update_highest_received fc offset).increment

advanced_lem :
    (fc : FlowController) (offset : ℕ)
    → ((advanced fc offset).highest_received ≡ fc.highest_received + advance fc offset)
      × ((advanced fc offset).contributes_to_connection ≡ fc.contributes_to_connection)
      × (advance fc offset ≤ offset)
unfolding Controller.update_highest_received
advanced_lem fc offset = ground arith

-- UpdateHighestReceived for a known stream, where it succeeds and the connection's offset and the new one
-- together stay below 2 ^ 64: the stream's controller advances and no other changes, the connection's
-- offset rises by as much as the sum of the offsets of the contributing streams, the stream is within its
-- window and, if it contributes, the connection is within its own.
pub update_highest_received-conserves :
    (f : FlowControlManager) (id offset : ℕ) (fc : FlowController)
    → find id f.streams ≡ some fc
    → f.conn.highest_received + offset < u64_mod
    → (update_highest_received f id offset).error ≡ none
    → ((update_highest_received f id offset).manager.streams
        ≡ put id (advanced fc offset) f.streams)
      × ((update_highest_received f id offset).manager.conn.highest_received
            + received_sum f.streams
          ≡ f.conn.highest_received
            + received_sum (update_highest_received f id offset).manager.streams)
      × ((advanced fc offset).highest_received ≤ (advanced fc offset).receive_window)
      × ((fc.contributes_to_connection ≡ false)
          ⊎ ((update_highest_received f id offset).manager.conn.highest_received
              ≤ f.conn.receive_window))
unfolding update_highest_received check_flow_control_violation increment_highest_received share
update_highest_received-conserves f id offset fc known small fine =
    let (moved, same, most) = advanced_lem fc offset in
    ground (arith, received_sum-put id (advanced fc offset) fc f.streams)

-- For a known stream the call succeeds exactly if the new highest offset of the stream is within its
-- window and, where the stream contributes, the connection's one is within the connection's window.
pub update_highest_received-error :
    (f : FlowControlManager) (id offset : ℕ) (fc : FlowController)
    → find id f.streams ≡ some fc
    → f.conn.highest_received + offset < u64_mod
    → ((update_highest_received f id offset).error ≡ none) ↔ (
        ((advanced fc offset).highest_received ≤ (advanced fc offset).receive_window)
        × ((fc.contributes_to_connection ≡ false)
            ⊎ (f.conn.highest_received + advance fc offset ≤ f.conn.receive_window)))
unfolding update_highest_received check_flow_control_violation increment_highest_received
update_highest_received-error f id offset fc known small =
    let (moved, same, most) = advanced_lem fc offset in (λ e. ground arith, λ e. ground arith)

-- ResetStream for a known stream: an offset below the highest received one is refused, with the manager
-- left as it was; any other offset has the outcome of UpdateHighestReceived.
pub reset_stream-update_highest_received :
    (f : FlowControlManager) (id offset : ℕ) (fc : FlowController)
    → find id f.streams ≡ some fc
    → ((offset < fc.highest_received)
        × (reset_stream f id offset
            ≡ record { manager = f; error = some stream_data_after_termination }))
      ⊎ ((fc.highest_received ≤ offset)
          × (reset_stream f id offset ≡ update_highest_received f id offset))
unfolding reset_stream update_highest_received
reset_stream-update_highest_received f id offset fc known =
    let (rise, top, smaller) = update_highest_received_lem fc offset in
    elim (Bool-cases (Controller.update_highest_received fc offset).smaller_byte_offset) [
      | inl e ↦ inl (smaller.0 e, ground arith)
      | inr e ↦ inr (ground (arith, smaller.1), ground arith)
    ]
