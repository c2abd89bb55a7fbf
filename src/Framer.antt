-- ===== src/Framer.antt =====
-- mpquic_trans/stream_framer.go: the STREAM frames that are sent again. The frame at the head of the queue
-- is changed in place, so the queue after a call holds it as it was left.
pub mod Contents
mod Tests
use agg_deliv.Common.{
  ℕ, Bool, true, false, List, [], ◌∷◌, ◌++◌, Option, none, some, leb, if◌then◌else◌, length, take,
  drop, add64, sub64,
}
use agg_deliv.Wire.StreamFrame.{StreamFrame, min_length}
use agg_deliv.Flow.Manager
use agg_deliv.Flow.Manager.{FlowControlManager, Outcome}

-- The frame that is split off, `none` for nil, and the frame that is left.
pub record SplitOff : Type 0 where
  pub split : Option StreamFrame
  pub left : StreamFrame

unfoldable pub maybe_split_off_frame : StreamFrame → ℕ → SplitOff
maybe_split_off_frame f n =
    if leb (length f.payload) n then record { split = none; left = f } else record {
      split = some (record f { fin_bit = false; payload = take n f.payload });
      left = record f { payload = drop n f.payload; offset = add64 f.offset n };
    }

pub record PoppedFrames : Type 0 where
  pub frames : List StreamFrame
  pub current_len : ℕ
  pub queue : List StreamFrame
  pub manager : FlowControlManager

-- `f.flowControlManager.AddBytesRetrans(frame.StreamID, frame.DataLen())`, whose error is dropped
abbrev pub count_retrans : FlowControlManager → StreamFrame → FlowControlManager
count_retrans m f = Outcome.manager (Manager.add_bytes_retrans m f.stream_id (length f.payload))

abbrev pub with_length : StreamFrame → StreamFrame
with_length f = record f { data_len_present = true }

-- The frame that was split ends the loop, a whole one is taken out of the queue.
unfoldable pub pop_split :
    SplitOff → StreamFrame → List StreamFrame → ℕ → FlowControlManager → PoppedFrames → PoppedFrames
pop_split r f fs len m rest = elim r.split [
  | some piece ↦ record {
    frames = piece ∷ [];
    current_len = add64 len (length piece.payload);
    queue = r.left ∷ fs;
    manager = count_retrans m piece;
  }
  | none ↦ record rest { frames = f ∷ rest.frames }
]

-- The loop, for `max_len` bytes of which `len` are taken.
unfoldable pub pop_loop : ℕ → ℕ → FlowControlManager → List StreamFrame → PoppedFrames
unfolding pop_split maybe_split_off_frame
pop_loop max_len len m [] = record { frames = []; current_len = len; queue = []; manager = m }
pop_loop max_len len m (queued ∷ fs) =
    let f = with_length queued in
    let header_end = add64 len (min_length f) in
    let rest = pop_loop max_len (add64 header_end (length f.payload)) (count_retrans m f) fs in
    if leb max_len header_end
    then record { frames = []; current_len = len; queue = f ∷ fs; manager = m }
    else pop_split (maybe_split_off_frame f (sub64 max_len header_end)) f fs header_end m rest

unfoldable pub maybe_pop_frames_for_retransmission :
    FlowControlManager → List StreamFrame → ℕ → PoppedFrames
unfolding pop_loop
maybe_pop_frames_for_retransmission m queue max_len = pop_loop max_len 0 m queue
