-- ===== src/Scheduler/Bandwidth.antt =====
-- What the policy by bandwidth chooses.
use agg_deliv.Common.{
  ◌≤◌, ◌≡◌, Bool, true, false, ◌||◌, List, [], ◌∷◌, ◌++◌, Option, none, some, ltb, ◌==◌,
  if◌then◌else◌, length, ◌⊎◌, inl, inr, refl, ap, arith, if_cases,
}
use agg_deliv.Ack.Sent.State.{Congestion}
use agg_deliv.Scheduler.Paths.{PathState, initial_path_id, path_of, skips}
use agg_deliv.Scheduler.Select.{chosen, Weights, alone, bandwidth_loop, select_path_large_bandwidth}

module _ {C : Type 0} (cc : Congestion C) where
  unfoldable pub AreSkipped : Bool → List (PathState C) → Type 0
  AreSkipped has_retransmission [] = 0 ≤ 0
  AreSkipped has_retransmission (p ∷ ps) =
      (skips cc has_retransmission p ≡ true) × AreSkipped has_retransmission ps

  pub alone_many :
      (has_retransmission : Bool) (paths : List (PathState C))
      → (ltb 1 (length paths) || has_retransmission) ≡ true
      → alone cc has_retransmission paths ≡ none
  unfolding alone
  alone_many has_retransmission paths many = rw (alone, many) refl

module _ {C F : Type 0} (cc : Congestion C) (w : Weights F) (has_retransmission : Bool) where
  -- The sum of the probabilities with one path more; the initial path does not count.
  abbrev pub sum_with : F → PathState C → F
  sum_with hist p =
      if p.path_id == initial_path_id then hist else w.add hist (w.probability p.path_id)

  -- Each path is skipped, or the sum up to it does not exceed the threshold.
  unfoldable pub ArePassed : F → List (PathState C) → Type 0
  ArePassed hist [] = 0 ≤ 0
  ArePassed hist (p ∷ ps) =
      ((skips cc has_retransmission p ≡ true) ⊎ (w.more (sum_with hist p) w.thresh ≡ false))
      × ArePassed (sum_with hist p) ps

  unfoldable pub sum_of : F → List (PathState C) → F
  sum_of hist [] = hist
  sum_of hist (p ∷ ps) = sum_of (sum_with hist p) ps

  -- The first path that is not skipped and up to which the probabilities exceed the threshold.
  pub record IsFirst (hist : F) (paths : List (PathState C)) (p : PathState C) : Type 0 where
    pub before : List (PathState C)
    pub after : List (PathState C)
    pub split : paths ≡ before ++ p ∷ after
    pub passed : ArePassed hist before
    pub unskipped : skips cc has_retransmission p ≡ false
    pub exceeds : w.more (sum_with (sum_of hist before) p) w.thresh ≡ true

  -- `r` is the first such path, or `selected` where there is none.
  unfoldable pub IsFirstOr :
      F → Option (PathState C) → List (PathState C) → Option (PathState C) → Type 0
  IsFirstOr hist selected ps r =
      (ArePassed hist ps × (r ≡ selected)) ⊎ ((p : PathState C) × IsFirst hist ps p × (r ≡ some p))

  here :
      (hist : F) (selected : Option (PathState C)) (p : PathState C) (ps : List (PathState C))
      → skips cc has_retransmission p ≡ false
      → w.more (sum_with hist p) w.thresh ≡ true
      → IsFirstOr hist selected (p ∷ ps) (some p)
  unfolding IsFirstOr ArePassed sum_of
  here hist selected p ps free above = inr (
    p,
    record {
      before = [];
      after = ps;
      split = refl;
      passed = omega arith;
      unskipped = free;
      exceeds = above;
    },
    refl,
  )

  further :
      (hist : F) (selected : Option (PathState C)) (p : PathState C) (ps : List (PathState C))
      (r : Option (PathState C))
      → (skips cc has_retransmission p ≡ true) ⊎ (w.more (sum_with hist p) w.thresh ≡ false)
      → IsFirstOr (sum_with hist p) selected ps r
      → IsFirstOr hist selected (p ∷ ps) r
  unfolding IsFirstOr ArePassed sum_of
  further hist selected p ps r over (inl (passed, e)) = inl ((over, passed), e)
  further hist selected p ps r over (inr (q, first, e)) = inr (
    q,
    record {
      before = p ∷ first.before;
      after = first.after;
      split = ap (λ (l : List (PathState C)). p ∷ l) first.split;
      passed = (over, first.passed);
      unskipped = first.unskipped;
      exceeds = first.exceeds;
    },
    e,
  )

  bandwidth_loop_lem :
      (hist : F) (selected : Option (PathState C)) (ps : List (PathState C))
      → IsFirstOr hist selected ps (bandwidth_loop cc w has_retransmission hist selected ps)
  unfolding bandwidth_loop IsFirstOr ArePassed
  bandwidth_loop_lem hist selected [] = inl (omega arith, refl)
  bandwidth_loop_lem hist selected (p ∷ ps) =
      let sum = sum_with hist p in
      let rest = bandwidth_loop_lem sum selected ps in
      let r = bandwidth_loop cc w has_retransmission sum selected ps in
      let Goal = IsFirstOr hist selected (p ∷ ps) in
      if_cases Goal (skips cc has_retransmission p) r (if w.more sum w.thresh then some p else r)
        (λ e. further hist selected p ps r (inl e) rest)
        (λ free.
          if_cases Goal (w.more sum w.thresh) (some p) r
            (λ above. here hist selected p ps free above)
            (λ low. further hist selected p ps r (inr low) rest))

  -- selectPathLargeBandwidth with a retransmission or more than one path, whatever the arithmetic of the
  -- probabilities is: it chooses the first path that is not skipped (not blocked, not potentially failed,
  -- not the initial path) and up to which the probabilities of the paths before and of its own exceed the
  -- threshold; where no path is so, it chooses the initial path.
  pub select_path_large_bandwidth_lem :
      (paths : List (PathState C))
      → (ltb 1 (length paths) || has_retransmission) ≡ true
      → (r : Option (PathState C)) × (select_path_large_bandwidth cc w has_retransmission paths
          ≡ chosen r)
        × IsFirstOr w.zero (path_of initial_path_id paths) paths r
  unfolding select_path_large_bandwidth
  select_path_large_bandwidth_lem paths many = (
    bandwidth_loop cc w has_retransmission w.zero (path_of initial_path_id paths) paths,
    rw (select_path_large_bandwidth, alone_many cc has_retransmission paths many) refl,
    bandwidth_loop_lem w.zero (path_of initial_path_id paths) paths,
  )
