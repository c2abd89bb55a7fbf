-- ===== src/Sorter/Finding.antt =====
-- The gap at which the search of Push stops.
use agg_deliv.Common.{
  ℕ, suc, ◌≤◌, ◌<◌, ◌≡◌, false, ◌&&◌, List, [], ◌∷◌, ◌++◌, ltb, leb, if_cases, arith, refl, ap, ◌∙◌,
}
use agg_deliv.Sorter.Gaps.{in_gaps, in_gaps_past, in_gaps_below, AreGaps}
use agg_deliv.Sorter.{ByteInterval, Search, duplicate, nowhere, at, behind, find_gap}

-- The gaps all end before a position.
unfoldable pub AreBefore : ℕ → List ByteInterval → Type 0
AreBefore start [] = 0 ≤ 0
AreBefore start (g ∷ gs) = (g.end < start) × AreBefore start gs

-- What a result of the search tells of the gaps that were searched.
unfoldable pub IsFound : ℕ → ℕ → List ByteInterval → Search → Type 0
unfolding AreBefore
IsFound start end gs duplicate =
    (lo top : ℕ) → AreGaps lo top gs → (x : ℕ) → start ≤ x → x < end → in_gaps x gs ≡ false
IsFound start end gs nowhere = AreBefore start gs
IsFound start end gs (at before gap after) =
    (gs ≡ before ++ gap ∷ after) × AreBefore start before × (gap.start < end) × (start ≤ gap.end)

behind-IsFound :
    (start end : ℕ) (g : ByteInterval) (gs : List ByteInterval) (r : Search)
    → g.end < start
    → IsFound start end gs r
    → IsFound start end (g ∷ gs) (behind g r)
unfolding IsFound AreGaps
behind-IsFound start end g gs duplicate h found =
    λ lo top v x from to. in_gaps_past x g gs (omega arith) ∙ found (suc g.end) top v.2 x from to
behind-IsFound start end g gs nowhere h found = (h, found)
behind-IsFound start end g gs (at before gap after) h (same, ends, reaches, close) =
    (ap (◌∷◌ g) same, (h, ends), reaches, close)

pub find_gap-IsFound :
    (start end : ℕ) (gs : List ByteInterval) → IsFound start end gs (find_gap start end gs)
unfolding find_gap IsFound AreGaps
find_gap-IsFound start end [] = omega arith
find_gap-IsFound start end (g ∷ gs) =
    let later = find_gap-IsFound start end gs in
    if_cases (IsFound start end (g ∷ gs)) (leb end g.start) _ _
      (λ c lo top v x from to.
        in_gaps_below g.start top x (g ∷ gs) (omega arith, v.1, v.2) (ground arith))
      (λ c.
        if_cases (IsFound start end (g ∷ gs)) (ltb g.start end && leb start g.end) _ _
          (λ d. (refl, omega arith, ground arith, ground arith))
          (λ d. behind-IsFound start end g gs (find_gap start end gs) (ground arith) later))
