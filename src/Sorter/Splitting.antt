-- ===== src/Sorter/Splitting.antt =====
-- A list of gaps around the gap at which the search of Push stops.
use agg_deliv.Common.{
  ℕ, suc, ◌≤◌, ◌<◌, ◌≡◌, true, not, ◌&&◌, List, [], ◌∷◌, ◌++◌, some, length, arith,
}
use agg_deliv.Wire.StreamFrame.{StreamFrame}
use agg_deliv.Sorter.{ByteInterval, FrameMap}
use agg_deliv.Sorter.Finding.{AreBefore}
use agg_deliv.Sorter.Gaps.{in_gaps, inside, AreGaps, Chain, done, link, Chain-same, Chains}

-- A gap of the list.
pub AreGaps-at :
    (lo top : ℕ) (before : List ByteInterval) (gap : ByteInterval) (after : List ByteInterval)
    → AreGaps lo top (before ++ gap ∷ after)
    → AreGaps gap.start top (gap ∷ after)
unfolding AreGaps
AreGaps-at lo top [] gap after v = (omega arith, v.1, v.2)
AreGaps-at lo top (g ∷ gs) gap after v = AreGaps-at (suc g.end) top gs gap after v.2

pub Chains-at :
    (q : FrameMap) (pos : ℕ) (before : List ByteInterval) (gap : ByteInterval)
    (after : List ByteInterval)
    → Chains q pos (before ++ gap ∷ after)
    → Chains q gap.end after
unfolding Chains
Chains-at q pos [] gap after c = c.1
Chains-at q pos (g ∷ gs) gap after c = Chains-at q g.end gs gap after c.1

pub in_gaps_at :
    (x : ℕ) (before : List ByteInterval) (gap : ByteInterval) (after : List ByteInterval)
    → gap.start ≤ x
    → x < gap.end
    → in_gaps x (before ++ gap ∷ after) ≡ true
unfolding in_gaps
in_gaps_at x [] gap after from to = ground arith
in_gaps_at x (g ∷ gs) gap after from to =
    let later = in_gaps_at x gs gap after from to in ground arith

-- Other gaps from a gap on.
pub AreGaps-replace :
    (top : ℕ) (gap : ByteInterval) (after gs : List ByteInterval)
    → ((lo : ℕ) → lo ≤ gap.start → AreGaps lo top gs)
    → (lo : ℕ) (before : List ByteInterval) → AreGaps lo top (before ++ gap ∷ after)
    → AreGaps lo top (before ++ gs)
unfolding AreGaps
AreGaps-replace top gap after gs other lo [] v = other lo v.0
AreGaps-replace top gap after gs other lo (g ∷ before) v =
    (v.0, v.1, AreGaps-replace top gap after gs other (suc g.end) before v.2)

pub in_gaps_replace :
    (start end x : ℕ) (before gs gs' : List ByteInterval)
    → AreBefore start before
    → in_gaps x gs' ≡ in_gaps x gs && not (inside start end x)
    → in_gaps x (before ++ gs') ≡ in_gaps x (before ++ gs) && not (inside start end x)
unfolding in_gaps AreBefore
in_gaps_replace start end x [] gs gs' b e = e
in_gaps_replace start end x (g ∷ before) gs gs' b e =
    let later = in_gaps_replace start end x before gs gs' b.1 e in let ends = b.0 in ground arith

pub Chains-replace :
    (q q' : FrameMap) (start : ℕ) (gap : ByteInterval) (after gs : List ByteInterval)
    → ((k : ℕ) → k < start → q' k ≡ q k)
    → ((pos : ℕ) → Chain q gap.start pos → Chains q' pos gs)
    → (lo top pos : ℕ) (before : List ByteInterval) → AreBefore start before
    → AreGaps lo top (before ++ gap ∷ after)
    → Chains q pos (before ++ gap ∷ after)
    → Chains q' pos (before ++ gs)
unfolding Chains AreGaps AreBefore
Chains-replace q q' start gap after gs same other lo top pos [] b v c = other pos c.0
Chains-replace q q' start gap after gs same other lo top pos (g ∷ before) b v c =
    let ends = b.0 in
    let proper = v.1 in
    (
      Chain-same (λ k from to. same k (omega arith)) c.0,
      Chains-replace q q' start gap after gs same other (suc g.end) top g.end before b.1 v.2 c.1,
    )

-- The search of Push stops at some gap, if a frame begins below the end of the last one.
pub AreBefore-all :
    (start lo top : ℕ) (gs : List ByteInterval)
    → lo ≤ top
    → start < top
    → AreGaps lo top gs
    → AreBefore start gs
    → 1 ≤ 0
unfolding AreGaps AreBefore
AreBefore-all start lo top [] low below v b = absurd (omega arith)
AreBefore-all start lo top (g ∷ gs) low below v b =
    let ends = b.0 in AreBefore-all start (suc g.end) top gs (omega arith) below v.2 b.1

-- A frame with data is queued behind each gap but the last.
pub queued_behind :
    (q : FrameMap) (top : ℕ) (gap : ByteInterval) (after : List ByteInterval)
    → gap.end < top
    → AreGaps gap.start top (gap ∷ after)
    → Chains q gap.end after
    → (f : StreamFrame) × (q gap.end ≡ some f) × (0 < length f.payload)
unfolding AreGaps Chains
queued_behind q top gap [] below v c = absurd (omega arith)
queued_behind q top gap (next ∷ rest) below v (done, cs) = absurd (omega (arith, v.2.0))
queued_behind q top gap (next ∷ rest) below v (link f e o h c, cs) = (f, e, h)
