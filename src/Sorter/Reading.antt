-- ===== src/Sorter/Reading.antt =====
-- A sorter over sequences of calls: which bytes are missing, and which can be read.
use mathlib.Core.Path.{subst}
use agg_deliv.Common.{
  ℕ, ◌+◌, ◌≤◌, ◌<◌, ◌≡◌, Bool, true, false, not, ◌&&◌, ◌||◌, List, [], ◌∷◌, ltb, length, arith,
  refl, sym, ap, ◌∙◌,
}
use agg_deliv.Wire.StreamFrame.{StreamFrame}
use agg_deliv.Sorter.{StreamFrameSorter, new_stream_frame_sorter, push, pop, max_byte_count}
use agg_deliv.Sorter.Gaps.{in_gaps, inside, AreGaps, done, Chains, Fits}
use agg_deliv.Sorter.Validity.{Holds, IsValid, IsNoBug, has_too_many_gaps}
use agg_deliv.Sorter.Pushing.{IsArrival, push-Takes}
use agg_deliv.Sorter.Bytes.{push-read_position}
use agg_deliv.Sorter.Progress.{pop-Advances, pops, pops_reach}

-- Whether a byte is one of the frames'.
unfoldable pub received : List StreamFrame → ℕ → Bool
received [] x = false
received (f ∷ fs) x = inside f.offset (f.offset + length f.payload) x || received fs x

-- From a new sorter, by calls of Push and Pop, with the frames that arrived, the last one first. Three kinds of
-- Push are left out: of a frame with data that ends at the largest offset or behind it, of an empty frame over
-- queued data, which it would replace, and one that is refused for the number of gaps, which changes the gaps
-- but does not store the frame.
pub data HasReceived : List StreamFrame → StreamFrameSorter → Type 0 where
  begins : HasReceived [] new_stream_frame_sorter
  arrives :
      {fs : List StreamFrame} {s : StreamFrameSorter} (f : StreamFrame)
      → IsArrival max_byte_count s f
      → has_too_many_gaps (push s f).error ≡ false
      → HasReceived fs s
      → HasReceived (f ∷ fs) (push s f).sorter
  pops_one :
      {fs : List StreamFrame} {s : StreamFrameSorter} → HasReceived fs s → HasReceived fs (pop s).1

pub new-IsValid : IsValid new_stream_frame_sorter
unfolding new_stream_frame_sorter AreGaps Chains Fits
new-IsValid = record {
  low = omega arith;
  ordered = (omega arith, omega arith, refl);
  chained = (done, omega arith);
  fits = λ k f e. cc;
}

-- For calls of Push and Pop on a new sorter in which every frame with data ends
-- below the largest offset, no empty frame arrives at an offset where data is queued, and no frame is refused
-- for the number of gaps: the sorter keeps the invariant. Its gaps are in order and do not touch, frames lie end
-- to end between them, and no queued byte is in a gap.
pub received-IsValid :
    (fs : List StreamFrame) (s : StreamFrameSorter) → HasReceived fs s → IsValid s
received-IsValid fs s begins = new-IsValid
received-IsValid fs s (arrives {fs = gs} {s = t} f a accepted r) =
    let taken = push-Takes max_byte_count t f (omega arith) a (received-IsValid gs t r) in
    subst (λ pos. Holds max_byte_count (push t f).sorter.queued_frames pos (push t f).sorter.gaps)
      (sym (push-read_position t f)) (taken.valid accepted)
received-IsValid fs s (pops_one {s = t} r) =
    (pop-Advances max_byte_count t (omega arith) (received-IsValid fs t r)).valid

-- For calls of Push and Pop on a new sorter in which every frame with data ends
-- below the largest offset, no empty frame arrives at an offset where data is queued, and no frame is refused
-- for the number of gaps: a byte is in a gap exactly if it is below the largest offset and in none of the
-- frames that have arrived, however they were ordered, split and repeated.
pub in_gaps-received :
    (fs : List StreamFrame) (s : StreamFrameSorter) (x : ℕ)
    → HasReceived fs s
    → in_gaps x s.gaps ≡ ltb x max_byte_count && not (received fs x)
unfolding received in_gaps new_stream_frame_sorter
in_gaps-received fs s x begins = ground arith
in_gaps-received fs s x (arrives {fs = gs} {s = t} f a accepted r) =
    let before = in_gaps-received gs t x r in
    let taken = (push-Takes max_byte_count t f (omega arith) a (received-IsValid gs t r)).left x in
    ground arith
in_gaps-received fs s x (pops_one {s = t} r) =
    ap (in_gaps x) (pop-Advances max_byte_count t (omega arith) (received-IsValid fs t r)).same_gaps
    ∙ in_gaps-received fs t x r

-- For calls of Push and Pop on a new sorter in which every frame with data ends
-- below the largest offset, no empty frame arrives at an offset where data is queued, and no frame is refused
-- for the number of gaps: if the next frame also has data that ends below the largest offset, or is empty and
-- arrives where no data is queued, then Push of it returns neither of its two errors for a bug. It finds a
-- gap, and an end gap.
pub push-IsNoBug :
    (fs : List StreamFrame) (s : StreamFrameSorter) (f : StreamFrame)
    → HasReceived fs s
    → IsArrival max_byte_count s f
    → IsNoBug (push s f).error
push-IsNoBug fs s f r a =
    (push-Takes max_byte_count s f (omega arith) a (received-IsValid fs s r)).no_bug

-- For calls of Push and Pop on a new sorter in which every frame with data ends
-- below the largest offset, no empty frame arrives at an offset where data is queued, and no frame is refused
-- for the number of gaps: if every byte before `n`, which is at most the largest offset, is in a frame that has
-- arrived, then after `n` more calls of Pop the read position is `n` or later.
pub pops-received :
    (fs : List StreamFrame) (s : StreamFrameSorter) (n : ℕ)
    → HasReceived fs s
    → n ≤ max_byte_count
    → ((x : ℕ) → x < n → received fs x ≡ true)
    → n ≤ (pops n s).read_position
pops-received fs s n r below there =
    pops_reach max_byte_count n n s (omega arith) below (omega arith)
      (λ x h. let missing = in_gaps-received fs s x r in let arrived = there x h in ground arith)
      (received-IsValid fs s r)
