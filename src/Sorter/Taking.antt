-- ===== src/Sorter/Taking.antt =====
-- Push behind its searches keeps the invariant.
use mathlib.Core.Path.{subst}
use agg_deliv.Common.{
  true, ℕ, ◌+◌, ◌≤◌, ◌<◌, ◌≡◌, false, not, ◌&&◌, List, ◌∷◌, ◌++◌, none, some, ltb, ◌==◌,
  if◌then◌else◌, if_cases, length, arith, sym, ap, ◌∙◌, inl, inr, Bool-cases, ==_sound,
}
use agg_deliv.Wire.StreamFrame.{StreamFrame}
use agg_deliv.Sorter.Splitting.{in_gaps_at}
use agg_deliv.Sorter.Gaps.{store_other}
use agg_deliv.Sorter.{
  ByteInterval, FrameMap, store, StreamFrameSorter, Pushed, too_many_gaps, itself, EndSearch,
  interval_of, min, fill_gaps, cut_back, push_between, max_stream_frame_sorter_gaps,
}
use agg_deliv.Sorter.Gaps.{in_gaps, inside, in_gaps_below, AreGaps, Chains, Fits}
use agg_deliv.Sorter.Finding.{AreBefore}
use agg_deliv.Sorter.Ending.{Ends, behind_from}
use agg_deliv.Sorter.Filling.{
  fill_gaps_lem, filled, filled-AreGaps, in_filled, filled-Chains, untouched_before,
}
use agg_deliv.Sorter.Splitting.{AreGaps-at, AreGaps-replace, in_gaps_replace, Chains-replace}
use agg_deliv.Sorter.Validity.{Holds, IsNoBug, Takes, cut_back_offset, cut_back_end}

-- A frame, cut at the gap's start, that is put into the gap.
module _ (top : ℕ) (s : StreamFrameSorter) (f : StreamFrame) (start end : ℕ)
    (before : List ByteInterval) (gap : ByteInterval) (after : List ByteInterval)
    (found : EndSearch) (whole : s.gaps ≡ before ++ gap ∷ after) (skipped : AreBefore start before)
    (from : gap.start ≤ f.offset) (late : start ≤ f.offset)
    (cut : (x : ℕ) → start ≤ x → x < f.offset → x < gap.start) (to : f.offset < gap.end)
    (proper : f.offset < end) (below : end < top) (size : f.offset + length f.payload ≡ end)
    (v : Holds top s.queued_frames s.read_position s.gaps)
    (ends : Ends gap itself after end top s.queued_frames found) where
  abbrev remaining_gaps : List ByteInterval
  remaining_gaps =
      before ++ filled gap after f.offset end top s.queued_frames found ends from to proper below

  ordered_whole : AreGaps s.read_position top (before ++ gap ∷ after)
  ordered_whole = subst (AreGaps s.read_position top) whole v.ordered

  ordered_at : AreGaps gap.start top (gap ∷ after)
  ordered_at = AreGaps-at s.read_position top before gap after ordered_whole

  left_here :
      (x : ℕ)
      → in_gaps x
          (filled gap after f.offset end top s.queued_frames found ends from to proper below)
        ≡ in_gaps x (gap ∷ after) && not (inside start end x)
  unfolding AreGaps
  left_here x =
      let filling =
        in_filled gap after f.offset end top s.queued_frames found ends from to proper below x
          ordered_at.2 in
      elim (Bool-cases (inside start f.offset x)) [
        | inl early ↦
            let outside =
              in_gaps_below gap.start top x (gap ∷ after) ordered_at
                (cut x (ground arith) (ground arith)) in
            ground arith
        | inr other ↦ ground arith
      ]

  left_whole : (x : ℕ) → in_gaps x remaining_gaps ≡ in_gaps x s.gaps && not (inside start end x)
  left_whole x =
      subst (λ gs. in_gaps x remaining_gaps ≡ in_gaps x gs && not (inside start end x)) (sym whole)
        (in_gaps_replace start end x before (gap ∷ after)
          (filled gap after f.offset end top s.queued_frames found ends from to proper below)
          skipped (left_here x))

  abbrev last_end : ℕ
  last_end = (interval_of gap found.end_gap).end

  abbrev stored : StreamFrame
  stored = cut_back f end (interval_of gap found.end_gap).end

  stored_at : stored.offset ≡ f.offset
  stored_at = cut_back_offset f end (interval_of gap found.end_gap).end

  stored_size : f.offset + length stored.payload ≡ min end last_end
  stored_size =
      let behind = behind_from gap end found.end_gap ends.behind in
      cut_back_end f end (interval_of gap found.end_gap).end size (omega arith)

  abbrev frames : FrameMap
  frames = store found.queued f.offset stored

  chained_whole : Chains frames s.read_position remaining_gaps
  chained_whole =
      Chains-replace s.queued_frames frames start gap after
        (filled gap after f.offset end top s.queued_frames found ends from to proper below)
        (λ k low.
          untouched_before gap after f.offset end top s.queued_frames found ends from to proper
            below stored stored_at stored_size k (omega arith))
        (filled-Chains gap after f.offset end top s.queued_frames found ends from to proper below
          stored stored_at stored_size)
        s.read_position top s.read_position before skipped ordered_whole
        (subst (Chains s.queued_frames s.read_position) whole v.chained)

  Fits-whole : Fits frames remaining_gaps
  unfolding Fits
  Fits-whole k g =
      let Goal : Type 0 =
        (g.offset ≡ k)
        × ((x : ℕ) → k ≤ x → x < k + length g.payload → in_gaps x remaining_gaps ≡ false) in
      let new : k ≡ f.offset → some stored ≡ some g → Goal = λ same e.
        let equal : stored ≡ g = cc in
        subst
          (λ (h : StreamFrame).
            (h.offset ≡ k)
            × ((x : ℕ) → k ≤ x → x < k + length h.payload → in_gaps x remaining_gaps ≡ false))
          equal
          (
            stored_at ∙ sym same,
            λ x low high.
                let taken = left_whole x in
                let sized = stored_size in
                let least : min end (interval_of gap found.end_gap).end ≤ end = ground arith in
                let bound : x < end = omega arith in ground arith,
          ) in
      let old : found.queued k ≡ some g → Goal = λ e.
        let before_it = v.fits k g (ends.fewer k g e) in
        (
          before_it.0,
          λ x low high.
              let taken = left_whole x in let absent = before_it.1 x low high in ground arith,
        ) in
      if_cases (λ r. r ≡ some g → Goal) (k == f.offset) (some stored) (found.queued k)
        (λ c. new (==_sound k f.offset c)) (λ c. old)

  valid_whole : Holds top frames s.read_position remaining_gaps
  valid_whole = record {
    low = v.low;
    ordered =
        AreGaps-replace top gap after
          (filled gap after f.offset end top s.queued_frames found ends from to proper below)
          (filled-AreGaps gap after f.offset end top s.queued_frames found ends from to proper
            below)
          s.read_position before ordered_whole;
    chained = chained_whole;
    fits = Fits-whole;
  }

  -- A frame before all gaps is not touched.
  kept_found :
      (k : ℕ) (g : StreamFrame)
      → s.queued_frames k ≡ some g
      → ((x : ℕ) → x ≤ k → in_gaps x s.gaps ≡ false)
      → (k < f.offset) × (found.queued k ≡ some g)
  unfolding AreGaps
  kept_found k g e there =
      let early : k < gap.start = elim (Bool-cases (ltb k gap.start)) [
        | inl less ↦ ground arith
        | inr not_less ↦
            let low : gap.start ≤ k = ground arith in
            let clash : true ≡ false =
              sym
                (in_gaps_at gap.start before gap after (omega arith) (omega (arith, ordered_at.1)))
              ∙ sym (ap (in_gaps gap.start) whole)
              ∙ there gap.start low in
            cc
      ] in
      (omega arith, ends.untouched k (inl (omega arith)) ∙ e)

  -- The outcome of Push for a list of gaps and an offset.
  abbrev outcome : List ByteInterval → ℕ → Pushed
  outcome gs o =
      if ltb max_stream_frame_sorter_gaps (length gs)
      then record {
        sorter = record s { gaps = gs; queued_frames = found.queued };
        error = some too_many_gaps;
      }
      else record {
        sorter = record s { gaps = gs; queued_frames = store found.queued o stored };
        error = none;
      }

  outcome-Takes : Takes top s start end (outcome remaining_gaps f.offset)
  unfolding IsNoBug
  outcome-Takes =
      if_cases (Takes top s start end) (ltb max_stream_frame_sorter_gaps (length remaining_gaps)) _
        _
        (λ c. record {
          no_bug = omega arith;
          left = left_whole;
          kept = λ k g e h there. (kept_found k g e there).1;
          valid = λ h. cc;
        })
        (λ c. record {
          no_bug = omega arith;
          left = left_whole;
          kept = λ k g e h there.
              let old = kept_found k g e there in
              let low = old.0 in
              store_other found.queued f.offset k stored (λ same. omega arith) ∙ old.1;
          valid = λ h. valid_whole;
        })

  pub push_between-Takes : Takes top s start end (push_between s f end before gap found)
  unfolding push_between
  push_between-Takes =
      let same : remaining_gaps
          ≡ before ++ (fill_gaps gap found.end_gap f.offset (min end last_end) ++ found.after) =
        ap (◌++◌ before) (
          sym (
            fill_gaps_lem gap found.end_gap f.offset end found.after ends.behind ends.reaches from
              to proper)) in
      let moved =
        subst (λ o. Takes top s start end (outcome remaining_gaps o)) (sym stored_at)
          outcome-Takes in
      let filled_in = subst (λ gs. Takes top s start end (outcome gs stored.offset)) same moved in
      rw (ends.succeeds) filled_in
