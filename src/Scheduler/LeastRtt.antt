-- ===== src/Scheduler/LeastRtt.antt =====
-- What the policy of low latency chooses among paths whose round trip times are measured.
use mathlib.Core.Path.{subst}
use agg_deliv.Common.{
  ℕ, ◌≤◌, ◌<◌, ◌≡◌, Bool, true, false, List, [], ◌∷◌, Option, none, some, leb, ◌==◌, if◌then◌else◌,
  length, ◌⊎◌, inl, inr, refl, arith, Bool-cases, if_cases, sym,
}
use agg_deliv.Ack.Sent.State.{Congestion}
use agg_deliv.Scheduler.Paths.{PathState, smoothed_rtt, skips}
use agg_deliv.Scheduler.Select.{
  chosen, Quota, is_some, Fastest, fastest_step, fastest_loop, early_choice,
  select_path_low_latency,
}
use agg_deliv.Scheduler.Bandwidth.{alone_many, AreSkipped}
use agg_deliv.Scheduler.LeastQuota.{IsAmong}

module _ {C : Type 0} (cc : Congestion C) (has_retransmission : Bool) where
  -- Every path that is not skipped has a round trip time.
  unfoldable pub AreMeasured : List (PathState C) → Type 0
  AreMeasured [] = 0 ≤ 0
  AreMeasured (p ∷ ps) =
      ((skips cc has_retransmission p ≡ true) ⊎ (0 < smoothed_rtt cc p)) × AreMeasured ps

  -- No path that is not skipped has a smaller one.
  unfoldable pub AreSlower : ℕ → List (PathState C) → Type 0
  AreSlower rtt [] = 0 ≤ 0
  AreSlower rtt (p ∷ ps) =
      ((skips cc has_retransmission p ≡ true) ⊎ (rtt ≤ smoothed_rtt cc p)) × AreSlower rtt ps

  abbrev taking : Fastest C → PathState C → Fastest C
  taking s p = record {
    lower_rtt = smoothed_rtt cc p;
    selected = some p;
    selected_path_id = p.path_id;
    quotas = s.quotas;
  }

  -- One step, once a path is selected, and before.
  step_selected :
      (s : Fastest C) (p : PathState C)
      → 0 < smoothed_rtt cc p
      → 0 < s.lower_rtt
      → is_some s.selected ≡ true
      → fastest_step cc has_retransmission s p ≡ (
          if skips cc has_retransmission p
          then s
          else if leb s.lower_rtt (smoothed_rtt cc p)
          then s
          else taking s p)
  unfolding fastest_step
  step_selected s p measured lower selected =
      let rtt_set : (smoothed_rtt cc p == 0) ≡ false = ground arith in
      let lower_set : (s.lower_rtt == 0) ≡ false = ground arith in
      rw (fastest_step, rtt_set, lower_set, selected) refl

  step_first :
      (s : Fastest C) (p : PathState C)
      → 0 < smoothed_rtt cc p
      → s.lower_rtt ≡ 0
      → fastest_step cc has_retransmission s p
        ≡ (if skips cc has_retransmission p then s else taking s p)
  unfolding fastest_step
  step_first s p measured lower =
      let rtt_set : (smoothed_rtt cc p == 0) ≡ false = ground arith in
      let lower_unset : (s.lower_rtt == 0) ≡ true = ground arith in
      rw (fastest_step, rtt_set, lower_unset) refl

  step_skips :
      (s : Fastest C) (p : PathState C)
      → skips cc has_retransmission p ≡ true
      → fastest_step cc has_retransmission s p ≡ s
  unfolding fastest_step
  step_skips s p e = rw (fastest_step, e) refl

  -- `last` is what a loop over `ps` has found that started with `s` and its selected path.
  pub record Leads (ps : List (PathState C)) (s last : Fastest C) : Type 0 where
    pub same : last.quotas ≡ s.quotas
    pub lower : last.lower_rtt ≤ s.lower_rtt
    pub slower : AreSlower last.lower_rtt ps
    pub selects :
        ((last.selected ≡ s.selected) × (last.lower_rtt ≡ s.lower_rtt))
        ⊎ ((p : PathState C) × (last.selected ≡ some p)
            × IsAmong p ps
            × (skips cc has_retransmission p ≡ false)
            × (smoothed_rtt cc p ≡ last.lower_rtt))

  Leads-pass :
      {p : PathState C} {ps : List (PathState C)} {s last : Fastest C}
      → (skips cc has_retransmission p ≡ true) ⊎ (s.lower_rtt ≤ smoothed_rtt cc p)
      → Leads ps s last
      → Leads (p ∷ ps) s last
  unfolding AreSlower IsAmong
  Leads-pass {p} {ps} {s} {last} over rest = record {
    same = rest.same;
    lower = rest.lower;
    slower = (
      elim over [ inl skipped ↦ inl skipped | inr high ↦ inr (omega (arith, rest.lower)) ],
      rest.slower,
    );
    selects = elim rest.selects [
      | inl kept ↦ inl kept
      | inr (q, e, among, free, count) ↦ inr (q, e, inr among, free, count)
    ];
  }

  Leads-take :
      {p : PathState C} {ps : List (PathState C)} {s last : Fastest C}
      → skips cc has_retransmission p ≡ false
      → smoothed_rtt cc p < s.lower_rtt
      → Leads ps (taking s p) last
      → Leads (p ∷ ps) s last
  unfolding AreSlower IsAmong
  Leads-take {p} {ps} {s} {last} free less rest = record {
    same = rest.same;
    lower = omega (arith, rest.lower);
    slower = (inr rest.lower, rest.slower);
    selects = elim rest.selects [
      | inl (e, kept) ↦ inr (p, e, inl refl, free, sym kept)
      | inr (q, e, among, free', count) ↦ inr (q, e, inr among, free', count)
    ];
  }

  loop_selected :
      (s : Fastest C) (ps : List (PathState C))
      → AreMeasured ps
      → 0 < s.lower_rtt
      → is_some s.selected ≡ true
      → Leads ps s (fastest_loop cc has_retransmission s ps)
  unfolding fastest_loop AreMeasured AreSlower is_some
  loop_selected s [] measured lower selected = record {
    same = refl;
    lower = omega arith;
    slower = omega arith;
    selects = inl (refl, refl);
  }
  loop_selected s (p ∷ ps) (inl skipped, rest) lower selected =
      rw (step_skips s p skipped)
        (Leads-pass (inl skipped) (loop_selected s ps rest lower selected))
  loop_selected s (p ∷ ps) (inr measured, rest) lower selected =
      let Goal : Fastest C → Type 0 =
        λ t. Leads (p ∷ ps) s (fastest_loop cc has_retransmission t ps) in
      let kept = loop_selected s ps rest lower selected in
      let test = leb s.lower_rtt (smoothed_rtt cc p) in
      subst Goal (sym (step_selected s p measured lower selected)) (
        if_cases Goal (skips cc has_retransmission p) s (if test then s else taking s p)
          (λ e. Leads-pass (inl e) kept)
          (λ free.
            if_cases Goal test s (taking s p) (λ high. Leads-pass (inr (ground arith)) kept)
              (λ less.
                Leads-take free (ground arith) (loop_selected (taking s p) ps rest measured refl))))

  -- What is selected from `ps` if nothing was before.
  unfoldable pub IsFastest : List (PathState C) → Option (PathState C) → Type 0
  IsFastest ps selected =
      ((selected ≡ none) × AreSkipped cc has_retransmission ps)
      ⊎ ((p : PathState C) × (selected ≡ some p)
          × IsAmong p ps
          × (skips cc has_retransmission p ≡ false)
          × AreSlower (smoothed_rtt cc p) ps)

  IsFastest-pass :
      (p : PathState C) (ps : List (PathState C)) (selected : Option (PathState C))
      → skips cc has_retransmission p ≡ true
      → IsFastest ps selected
      → IsFastest (p ∷ ps) selected
  unfolding IsFastest AreSlower AreSkipped IsAmong
  IsFastest-pass p ps selected skipped (inl (e, all)) = inl (e, (skipped, all))
  IsFastest-pass p ps selected skipped (inr (q, e, among, free, slower)) =
      inr (q, e, inr among, free, (inl skipped, slower))

  AreSlower-cast : (a b : ℕ) (ps : List (PathState C)) → a ≡ b → AreSlower a ps → AreSlower b ps
  AreSlower-cast a b ps e slower = rw (← e) slower

  IsFastest-take :
      (p : PathState C) (ps : List (PathState C)) (s last : Fastest C)
      → skips cc has_retransmission p ≡ false
      → Leads ps (taking s p) last
      → IsFastest (p ∷ ps) last.selected
  unfolding IsFastest AreSlower IsAmong
  IsFastest-take p ps s last free l = elim l.selects [
    | inl (e, kept) ↦ inr (
      p,
      e,
      inl refl,
      free,
      (inr (omega arith), AreSlower-cast last.lower_rtt (smoothed_rtt cc p) ps kept l.slower),
    )
    | inr (q, e, among, free', count) ↦ inr (
      q,
      e,
      inr among,
      free',
      (
        inr (omega (arith, count, l.lower)),
        AreSlower-cast last.lower_rtt (smoothed_rtt cc q) ps (sym count) l.slower,
      ),
    )
  ]

  -- From `t` the loop ends with what is selected from `p` and `ps`.
  abbrev CarriesOn : Fastest C → PathState C → List (PathState C) → Fastest C → Type 0
  CarriesOn s p ps t =
      ((fastest_loop cc has_retransmission t ps).quotas ≡ s.quotas)
      × IsFastest (p ∷ ps) (fastest_loop cc has_retransmission t ps).selected

  loop_first :
      (s : Fastest C) (ps : List (PathState C))
      → AreMeasured ps
      → s.lower_rtt ≡ 0
      → s.selected ≡ none
      → ((fastest_loop cc has_retransmission s ps).quotas ≡ s.quotas)
        × IsFastest ps (fastest_loop cc has_retransmission s ps).selected
  unfolding fastest_loop AreMeasured AreSkipped IsFastest is_some
  loop_first s [] measured lower selected = (refl, inl (selected, omega arith))
  loop_first s (p ∷ ps) (inl skipped, rest) lower selected =
      let (same, fastest) = loop_first s ps rest lower selected in
      subst (CarriesOn s p ps) (sym (step_skips s p skipped)) (
        same,
        IsFastest-pass p ps (fastest_loop cc has_retransmission s ps).selected skipped fastest,
      )
  loop_first s (p ∷ ps) (inr measured, rest) lower selected =
      let Goal = CarriesOn s p ps in
      let (same, fastest) = loop_first s ps rest lower selected in
      subst Goal (sym (step_first s p measured lower)) (
        if_cases Goal (skips cc has_retransmission p) s (taking s p)
          (λ e. (
            same,
            IsFastest-pass p ps (fastest_loop cc has_retransmission s ps).selected e fastest,
          ))
          (λ free.
            let l = loop_selected (taking s p) ps rest measured refl in
            (
              l.same,
              IsFastest-take p ps s (fastest_loop cc has_retransmission (taking s p) ps) free l,
            )))

  not_early :
      (from : Option (PathState C)) (quotas : List Quota) (paths : List (PathState C))
      → early_choice cc has_retransmission false from quotas paths ≡ none
  unfolding early_choice
  not_early from quotas paths = elim (Bool-cases has_retransmission) [
    | inl e ↦ rw (early_choice, e) refl
    | inr e ↦ rw (early_choice, e) refl
  ]

  -- selectPathLowLatency for more than one path and no retransmission of a stream, where each path that is
  -- not skipped has a round trip time: it chooses no path exactly where all are skipped, and else one of
  -- the paths that is not skipped, such that no other path that is not skipped has a smaller round trip
  -- time. It changes no quota.
  pub select_path_low_latency_lem :
      (from : Option (PathState C)) (quotas : List Quota) (paths : List (PathState C))
      → 1 < length paths
      → AreMeasured paths
      → ((select_path_low_latency cc has_retransmission false from quotas paths).quotas ≡ quotas)
        × (r : Option (PathState C)) × ((select_path_low_latency cc has_retransmission false from
              quotas paths).choice
            ≡ chosen r)
        × IsFastest paths r
  unfolding select_path_low_latency
  select_path_low_latency_lem from quotas paths many measured =
      let start : Fastest C = record {
        lower_rtt = 0;
        selected = none;
        selected_path_id = 255;
        quotas = quotas;
      } in
      let (same, fastest) = loop_first start paths measured refl refl in
      let alone_none = alone_many cc has_retransmission paths (ground arith) in
      let several : leb (length paths) 1 ≡ false = ground arith in
      let late : early_choice cc has_retransmission false from quotas paths ≡ none =
        not_early from quotas paths in
      rw (select_path_low_latency, alone_none, several, late)
        (same, (fastest_loop cc has_retransmission start paths).selected, refl, fastest)
