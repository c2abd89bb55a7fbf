-- ===== src/Sorter/Filling.antt =====
-- The gaps and the frames after Push has put a frame into the gap in which it begins.
use mathlib.Core.Path.{subst}
use agg_deliv.Common.{
  ℕ, suc, ◌+◌, ◌≤◌, ◌<◌, ◌≡◌, not, ◌&&◌, ◌||◌, List, ◌∷◌, ◌++◌, ltb, if◌then◌else◌, if_cases,
  Bool-cases, length, arith, ◌∙◌, inl, inr,
}
use agg_deliv.Wire.StreamFrame.{StreamFrame}
use agg_deliv.Sorter.{
  ByteInterval, FrameMap, store, EndGap, itself, kept, removed, EndSearch, interval_of, fill_gaps,
  min,
}
use agg_deliv.Sorter.Gaps.{
  in_gaps, in_gaps_below, inside, AreGaps, AreGaps-weaken, Chain, done, link, Chain-same, Chains,
  Chains-same, Chains-prefix, store_other, store_self,
}
use agg_deliv.Sorter.Ending.{IsBehind, Ends, behind_from}

-- The part of a gap that is left between two positions, if any.
abbrev pub piece : ℕ → ℕ → List ByteInterval → List ByteInterval
piece a b gs = if ltb a b then (record { start = a; end = b }) ∷ gs else gs

in_piece :
    (x a b : ℕ) (gs : List ByteInterval) → in_gaps x (piece a b gs) ≡ inside a b x || in_gaps x gs
unfolding in_gaps
in_piece x a b gs = ground arith

-- The branches of Push on the two gaps leave what is before the frame of the first gap, and what is behind
-- the frame of the end gap.
pub fill_gaps_lem :
    (gap : ByteInterval) (last : EndGap) (start end : ℕ) (gs : List ByteInterval)
    → IsBehind gap end last
    → (interval_of gap last).start < end
    → gap.start ≤ start
    → start < gap.end
    → start < end
    → fill_gaps gap last start (min end (interval_of gap last).end) ++ gs
      ≡ piece gap.start start (piece end (interval_of gap last).end gs)
unfolding fill_gaps IsBehind
fill_gaps_lem gap itself start end gs b r from to proper = ground arith
fill_gaps_lem gap (kept g) start end gs b r from to proper = ground arith
fill_gaps_lem gap (removed g) start end gs b r from to proper = ground arith

-- The frame is put where it begins, in the gaps and among the frames that the loop leaves.
module _ (gap : ByteInterval) (rest : List ByteInterval) (start end top : ℕ) (q : FrameMap)
    (found : EndSearch) (ends : Ends gap itself rest end top q found) (from : gap.start ≤ start)
    (to : start < gap.end) (proper : start < end) (below : end < top) where
  last : ByteInterval
  last = interval_of gap found.end_gap

  abbrev tail : List ByteInterval
  tail = piece end (interval_of gap found.end_gap).end found.after

  abbrev pub filled : List ByteInterval
  filled = piece gap.start start tail

  tail-AreGaps : (lo : ℕ) → lo ≤ end → AreGaps lo top tail
  unfolding AreGaps
  tail-AreGaps lo h =
      if_cases (AreGaps lo top) (ltb end (interval_of gap found.end_gap).end)
        (record { start = end; end = (interval_of gap found.end_gap).end } ∷ found.after)
        found.after (λ c. (h, ground arith, ends.ordered))
        (λ c.
          elim (AreGaps-weaken end lo top found.after h (omega arith)
            (ends.beyond (ground arith))) [ inl high ↦ absurd (omega arith) | inr v ↦ v ])

  pub filled-AreGaps : (lo : ℕ) → lo ≤ gap.start → AreGaps lo top filled
  unfolding AreGaps
  filled-AreGaps lo h =
      if_cases (AreGaps lo top) (ltb gap.start start)
        (record { start = gap.start; end = start } ∷ tail) tail
        (λ c. (h, ground arith, tail-AreGaps (suc start) (omega arith)))
        (λ c. tail-AreGaps lo (omega arith))

  in_filled_early :
      (x : ℕ)
      → AreGaps (suc gap.end) top rest
      → x < end
      → in_gaps x filled ≡ in_gaps x (gap ∷ rest) && not (inside start end x)
  unfolding in_gaps
  in_filled_early x v early =
      let split = in_piece x gap.start start tail in
      let none_left = in_gaps_below end top x tail (tail-AreGaps end (omega arith)) early in
      elim (Bool-cases (ltb x start)) [
        | inl low ↦
            let none_there = in_gaps_below (suc gap.end) top x rest v (ground arith) in ground arith
        | inr high ↦ ground arith
      ]

  in_filled_late :
      (x : ℕ) → end ≤ x → in_gaps x filled ≡ in_gaps x (gap ∷ rest) && not (inside start end x)
  unfolding in_gaps
  in_filled_late x late =
      let split = in_piece x gap.start start tail in
      let split_tail = in_piece x end (interval_of gap found.end_gap).end found.after in
      let same = ends.same_gaps x late in let reaches = ends.reaches in ground arith

  pub in_filled :
      (x : ℕ)
      → AreGaps (suc gap.end) top rest
      → in_gaps x filled ≡ in_gaps x (gap ∷ rest) && not (inside start end x)
  in_filled x v = elim (Bool-cases (ltb x end)) [
    | inl early ↦ in_filled_early x v (ground arith)
    | inr late ↦ in_filled_late x (ground arith)
  ]

  module _ (f : StreamFrame) (at_start : f.offset ≡ start)
      (size : start + length f.payload ≡ min end (interval_of gap found.end_gap).end) where
    abbrev pub filled_frames : FrameMap
    filled_frames = store found.queued start f

    tail-Chains : Chains filled_frames start tail
    unfolding Chains
    tail-Chains =
        let last_end = (interval_of gap found.end_gap).end in
        let reaches = behind_from gap end found.end_gap ends.behind in
        let behind : start < last_end = omega arith in
        let after : Chains filled_frames last_end found.after =
          Chains-same found.queued filled_frames last_end found.after
            (λ k k_from. store_other found.queued start k f (λ e. omega arith)) (suc last_end) top
            (omega arith) ends.ordered ends.chained in
        let linked : Chain filled_frames (start + length f.payload) start =
          link f (store_self found.queued start f) at_start (ground arith) done in
        if_cases (Chains filled_frames start) (ltb end last_end)
          (record { start = end; end = last_end } ∷ found.after) found.after
          (λ c. (subst (λ k. Chain filled_frames k start) (ground arith) linked, after))
          (λ c.
            Chains-prefix found.after
              (subst (λ k. Chain filled_frames k start) (ground arith) linked) after)

    pub filled-Chains : (pos : ℕ) → Chain q gap.start pos → Chains filled_frames pos filled
    unfolding Chains
    filled-Chains pos c =
        let early : Chain filled_frames gap.start pos =
          Chain-same
            (λ k low high.
              store_other found.queued start k f (λ e. omega arith)
              ∙ ends.untouched k (inl (omega arith)))
            c in
        if_cases (Chains filled_frames pos) (ltb gap.start start)
          (record { start = gap.start; end = start } ∷ tail) tail (λ b. (early, tail-Chains))
          (λ b.
            let same : gap.start ≡ start = ground arith in
            Chains-prefix tail (subst (λ k. Chain filled_frames k pos) same early) tail-Chains)

    pub untouched_before : (k : ℕ) → k < start → filled_frames k ≡ q k
    untouched_before k h =
        store_other found.queued start k f (λ e. omega arith) ∙ ends.untouched k (inl (omega arith))
