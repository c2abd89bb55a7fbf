-- ===== src/Sorter/Ending.antt =====
-- The gap in which a frame ends, as the loop of Push finds it.
use agg_deliv.Common.{
  ℕ, suc, ◌≤◌, ◌<◌, ◌≡◌, false, List, [], ◌∷◌, none, some, ltb, leb, ◌==◌, if_cases, arith, refl,
  ◌∙◌, ◌⊎◌, inl, inr,
}
use agg_deliv.Wire.StreamFrame.{StreamFrame}
use agg_deliv.Sorter.{
  ByteInterval, FrameMap, erase, EndGap, itself, kept, removed, EndSearch, standing, interval_of,
  end_loop,
}
use agg_deliv.Sorter.Gaps.{in_gaps, AreGaps, Chains, Chains-same, erase_other, in_gaps_past}

-- Where the end gap lies, with the first gap and the frame's end.
unfoldable pub IsBehind : ByteInterval → ℕ → EndGap → Type 0
IsBehind gap end itself = gap.start < gap.end
IsBehind gap end (kept g) = (gap.end < g.start) × (g.start < g.end) × (end < g.end)
IsBehind gap end (removed g) = (gap.end < g.start) × (g.start < g.end) × (g.end ≤ end)

-- Where the loop may stand: at the first gap, or at a later one that begins before the frame's end.
unfoldable pub IsHere : ByteInterval → ℕ → EndGap → Type 0
IsHere gap end itself = (gap.start < gap.end) × (gap.start < end)
IsHere gap end (kept g) = (gap.end < g.start) × (g.start < g.end) × (g.start < end)
IsHere gap end (removed g) = 1 ≤ 0

-- What the loop has found when it stops.
pub record Ends (gap : ByteInterval) (here : EndGap) (gs : List ByteInterval) (end top : ℕ)
    (q : FrameMap) (r : EndSearch) : Type 0 where
  pub succeeds : r.fails ≡ false
  pub behind : IsBehind gap end r.end_gap
  pub reaches : (interval_of gap r.end_gap).start < end
  pub ordered : AreGaps (suc (interval_of gap r.end_gap).end) top r.after
  pub beyond : (interval_of gap r.end_gap).end ≤ end → AreGaps end top r.after
  pub chained : Chains r.queued (interval_of gap r.end_gap).end r.after
  pub untouched : (k : ℕ) → (k < gap.end) ⊎ (end ≤ k) → r.queued k ≡ q k
  pub fewer : (k : ℕ) (f : StreamFrame) → r.queued k ≡ some f → q k ≡ some f
  pub same_gaps :
      (x : ℕ)
      → end ≤ x
      → in_gaps x (interval_of gap here ∷ gs) ≡ in_gaps x (interval_of gap r.end_gap ∷ r.after)

here_reaches :
    (gap : ByteInterval) (end : ℕ) (here : EndGap)
    → IsHere gap end here
    → (interval_of gap here).start < end
unfolding IsHere
here_reaches gap end itself h = h.1
here_reaches gap end (kept g) h = h.2
here_reaches gap end (removed g) h = absurd (omega (arith, h))

here_from :
    (gap : ByteInterval) (end : ℕ) (here : EndGap)
    → IsHere gap end here
    → gap.end ≤ (interval_of gap here).end
unfolding IsHere
here_from gap end itself h = omega arith
here_from gap end (kept g) h = omega (arith, h.0, h.1)
here_from gap end (removed g) h = absurd (omega (arith, h))

pub behind_from :
    (gap : ByteInterval) (end : ℕ) (last : EndGap)
    → IsBehind gap end last
    → gap.end ≤ (interval_of gap last).end
unfolding IsBehind
behind_from gap end itself b = omega arith
behind_from gap end (kept g) b = omega (arith, b.0, b.1)
behind_from gap end (removed g) b = omega (arith, b.0, b.1)

-- The loop stops at a gap that ends behind the frame.
stops_here :
    (gap : ByteInterval) (end : ℕ) (here : EndGap)
    → IsHere gap end here
    → end < (interval_of gap here).end
    → IsBehind gap end here
unfolding IsHere IsBehind
stops_here gap end itself h less = h.0
stops_here gap end (kept g) h less = (h.0, h.1, less)
stops_here gap end (removed g) h less = absurd (omega (arith, h))

-- The loop stops before a gap that begins behind the frame.
stops_before :
    (gap : ByteInterval) (end : ℕ) (here : EndGap)
    → IsHere gap end here
    → (interval_of gap here).end ≤ end
    → IsBehind gap end (standing here)
unfolding IsHere IsBehind
stops_before gap end itself h less = h.0
stops_before gap end (kept g) h less = (h.0, h.1, less)
stops_before gap end (removed g) h less = absurd (omega (arith, h))

standing_interval :
    (gap : ByteInterval) (here : EndGap) → interval_of gap (standing here) ≡ interval_of gap here
standing_interval gap itself = refl
standing_interval gap (kept g) = refl
standing_interval gap (removed g) = refl

stay-Ends :
    (gap : ByteInterval) (here : EndGap) (gs : List ByteInterval) (end top : ℕ) (q : FrameMap)
    → IsHere gap end here
    → end < (interval_of gap here).end
    → AreGaps (suc (interval_of gap here).end) top gs
    → Chains q (interval_of gap here).end gs
    → Ends gap here gs end top q (record { end_gap = here; fails = false; after = gs; queued = q })
stay-Ends gap here gs end top q h less v c = record {
  succeeds = refl;
  behind = stops_here gap end here h less;
  reaches = here_reaches gap end here h;
  ordered = v;
  beyond = λ low. absurd (omega arith);
  chained = c;
  untouched = λ k out. refl;
  fewer = λ k f e. e;
  same_gaps = λ x out. refl;
}

-- The same where the gap is taken from the list, or is the first.
break-Ends :
    (gap : ByteInterval) (here : EndGap) (next : ByteInterval) (rest : List ByteInterval)
    (end top : ℕ) (q : FrameMap) (last : EndGap)
    → IsBehind gap end last
    → interval_of gap last ≡ interval_of gap here
    → IsHere gap end here
    → end ≤ next.start
    → AreGaps (suc (interval_of gap here).end) top (next ∷ rest)
    → Chains q (interval_of gap here).end (next ∷ rest)
    → Ends gap here
        (next ∷ rest)
        end
        top
        q
        (record { end_gap = last; fails = false; after = next ∷ rest; queued = q })
unfolding AreGaps
break-Ends gap here next rest end top q last b same h low v c = record {
  succeeds = refl;
  behind = b;
  reaches = rw same (here_reaches gap end here h);
  ordered = rw same v;
  beyond = λ le. (low, v.1, v.2);
  chained = rw same c;
  untouched = λ k out. refl;
  fewer = λ k f e. e;
  same_gaps = λ x out. rw same refl;
}

pub erase_fewer : (q : FrameMap) (o k : ℕ) (f : StreamFrame) → erase q o k ≡ some f → q k ≡ some f
erase_fewer q o k f =
    if_cases (λ r. r ≡ some f → q k ≡ some f) (k == o) none (q k) (λ c e. cc) (λ c e. e)

-- The loop goes on to the next gap.
further-Ends :
    (gap : ByteInterval) (here : EndGap) (next : ByteInterval) (rest : List ByteInterval)
    (end top : ℕ) (q : FrameMap) (r : EndSearch)
    → IsHere gap end here
    → next.start < end
    → AreGaps (suc (interval_of gap here).end) top (next ∷ rest)
    → Ends gap (kept next) rest end top (erase q (interval_of gap here).end) r
    → Ends gap here (next ∷ rest) end top q r
unfolding AreGaps
further-Ends gap here next rest end top q r h low v ends =
    let o = (interval_of gap here).end in
    let from = here_from gap end here h in
    let between : o < next.start = v.0 in
    record {
      succeeds = ends.succeeds;
      behind = ends.behind;
      reaches = ends.reaches;
      ordered = ends.ordered;
      beyond = ends.beyond;
      chained = ends.chained;
      untouched = λ k out.
          ends.untouched k out
          ∙ erase_other q o k
              (λ e. elim out [ inl less ↦ absurd (omega arith) | inr more ↦ absurd (omega arith) ]);
      fewer = λ k f e. erase_fewer q o k f (ends.fewer k f e);
      same_gaps = λ x out.
          in_gaps_past x (interval_of gap here) (next ∷ rest) (omega arith) ∙ ends.same_gaps x out;
    }

pub end_loop-Ends :
    (gap : ByteInterval) (end top : ℕ) (gs : List ByteInterval) (here : EndGap) (q : FrameMap)
    → end < top
    → IsHere gap end here
    → AreGaps (suc (interval_of gap here).end) top gs
    → Chains q (interval_of gap here).end gs
    → Ends gap here gs end top q (end_loop end gap here gs q)
unfolding end_loop AreGaps Chains IsHere
end_loop-Ends gap end top [] here q below h v c =
    let succeeds : leb (interval_of gap here).end end ≡ false = ground arith in
    rw succeeds (stay-Ends gap here [] end top q h (omega (arith, v)) v c)
end_loop-Ends gap end top (next ∷ rest) here q below h v c =
    let o = (interval_of gap here).end in
    let from = here_from gap end here h in
    let P : EndSearch → Type 0 = Ends gap here (next ∷ rest) end top q in
    let after : Chains (erase q o) next.end rest =
      Chains-same q (erase q o) next.end rest
        (λ k k_from. erase_other q o k (λ e. omega (arith, v.0, v.1))) (suc next.end) top
        (omega arith) v.2 c.1 in
    if_cases P (ltb end o) _ _
      (λ t. stay-Ends gap here (next ∷ rest) end top q h (ground arith) v c)
      (λ t.
        if_cases P (leb end next.start) _ _
          (λ u.
            break-Ends gap here next rest end top q (standing here)
              (stops_before gap end here h (ground arith)) (standing_interval gap here) h
              (ground arith) v c)
          (λ u.
            let low : next.start < end = ground arith in
            further-Ends gap here next rest end top q _ h low v (
              end_loop-Ends gap end top rest (kept next) (erase q o) below
                (omega (arith, v.0), v.1, low) v.2 after)))
