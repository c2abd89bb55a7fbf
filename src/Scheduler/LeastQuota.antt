-- ===== src/Scheduler/LeastQuota.antt =====
-- What round robin chooses.
use agg_deliv.Common.{
  ℕ, ◌-◌, ◌≤◌, ◌<◌, ◌≡◌, Bool, true, false, List, [], ◌∷◌, none, some, ltb, leb, if◌then◌else◌,
  length, ◌⊎◌, inl, inr, refl, arith, if_cases, u64_mod, sym, ap, ◌∙◌,
}
use agg_deliv.Ack.Sent.State.{Congestion}
use agg_deliv.Scheduler.Paths.{PathState, skips}
use agg_deliv.Scheduler.Select.{
  chosen, Quota, quota_of, note, LeastUsed, least_used_step, least_used_loop,
  select_path_round_robin,
}
use agg_deliv.Scheduler.Bandwidth.{alone_many, AreSkipped}

quota_of-note : (id other : ℕ) (qs : List Quota) → quota_of id (note other qs) ≡ quota_of id qs
unfolding quota_of note
quota_of-note id other [] = ground arith
quota_of-note id other (q ∷ qs) = ground (arith, quota_of-note id other qs)

module _ {C : Type 0} where
  unfoldable pub IsAmong : PathState C → List (PathState C) → Type 0
  IsAmong p [] = 1 ≤ 0
  IsAmong p (q ∷ qs) = (p ≡ q) ⊎ IsAmong p qs

module _ {C : Type 0} (cc : Congestion C) (has_retransmission : Bool) where
  -- No path that is not skipped has a smaller quota.
  unfoldable pub AreUsed : ℕ → List Quota → List (PathState C) → Type 0
  AreUsed least quotas [] = 0 ≤ 0
  AreUsed least quotas (p ∷ ps) =
      ((skips cc has_retransmission p ≡ true) ⊎ (least ≤ quota_of p.path_id quotas))
      × AreUsed least quotas ps

  -- `last` is what a loop over `ps` has found that started with `s`.
  pub record Improves (quotas : List Quota) (ps : List (PathState C)) (s last : LeastUsed C)
      : Type 0 where
    pub same : (id : ℕ) → quota_of id last.quotas ≡ quota_of id quotas
    pub lower : last.lower_quota ≤ s.lower_quota
    pub least : AreUsed last.lower_quota quotas ps
    pub selects :
        ((last.selected ≡ s.selected) × (last.lower_quota ≡ s.lower_quota))
        ⊎ ((p : PathState C) × (last.selected ≡ some p)
            × IsAmong p ps
            × (skips cc has_retransmission p ≡ false)
            × (quota_of p.path_id quotas ≡ last.lower_quota)
            × (last.lower_quota < s.lower_quota))

  -- One step.
  least_used_step_lem :
      (quotas : List Quota) (s : LeastUsed C) (p : PathState C)
      → ((id : ℕ) → quota_of id s.quotas ≡ quota_of id quotas)
      → Improves quotas (p ∷ []) s (least_used_step cc has_retransmission s p)
  unfolding least_used_step AreUsed IsAmong
  least_used_step_lem quotas s p same =
      let current = quota_of p.path_id s.quotas in
      let noted = note p.path_id s.quotas in
      let unchanged : (id : ℕ) → quota_of id noted ≡ quota_of id quotas =
        λ id. quota_of-note id p.path_id s.quotas ∙ same id in
      let taken : LeastUsed C = record {
        lower_quota = current;
        selected = some p;
        quotas = noted;
      } in
      let Goal = Improves quotas (p ∷ []) s in
      if_cases Goal (skips cc has_retransmission p) s
        (if ltb current s.lower_quota then taken else record s { quotas = noted })
        (λ e. record {
          same = same;
          lower = omega arith;
          least = (inl e, omega arith);
          selects = inl (refl, refl);
        })
        (λ free.
          if_cases Goal (ltb current s.lower_quota) taken (record s { quotas = noted })
            (λ less. record {
              same = unchanged;
              lower = ground arith;
              least = (inr (omega (arith, same p.path_id)), omega arith);
              selects = inr (p, refl, inl refl, free, sym (same p.path_id), ground arith);
            })
            (λ more. record {
              same = unchanged;
              lower = omega arith;
              least = (inr (ground (arith, same p.path_id)), omega arith);
              selects = inl (refl, refl);
            }))

  AreUsed-cast :
      {a b : ℕ} (quotas : List Quota) (ps : List (PathState C))
      → a ≡ b
      → AreUsed a quotas ps
      → AreUsed b quotas ps
  AreUsed-cast quotas ps e used = rw (← e) used

  Improves-cons :
      {quotas : List Quota} {p : PathState C} {ps : List (PathState C)} {s mid last : LeastUsed C}
      → Improves quotas (p ∷ []) s mid
      → Improves quotas ps mid last
      → Improves quotas (p ∷ ps) s last
  unfolding AreUsed IsAmong
  Improves-cons {quotas} {p} {ps} {s} {mid} {last} one more = record {
    same = more.same;
    lower = omega (arith, one.lower, more.lower);
    least = (
      elim one.least.0 [ inl skipped ↦ inl skipped | inr high ↦ inr (omega (arith, more.lower)) ],
      more.least,
    );
    selects = elim more.selects [
      | inr (q, e, among, free, count, less) ↦
          inr (q, e, inr among, free, count, omega (arith, one.lower, less))
      | inl (e, kept) ↦ elim one.selects [
        | inl (e', kept') ↦ inl (e ∙ e', kept ∙ kept')
        | inr (q, e', inl first, free, count, less) ↦
            inr (q, e ∙ e', inl first, free, count ∙ sym kept, omega (arith, kept, less))
        | inr (q, e', inr nowhere, free, count, less) ↦ absurd (omega arith)
      ]
    ];
  }

  least_used_loop_lem :
      (quotas : List Quota) (s : LeastUsed C) (ps : List (PathState C))
      → ((id : ℕ) → quota_of id s.quotas ≡ quota_of id quotas)
      → Improves quotas ps s (least_used_loop cc has_retransmission s ps)
  unfolding least_used_loop AreUsed
  least_used_loop_lem quotas s [] same = record {
    same = same;
    lower = omega arith;
    least = omega arith;
    selects = inl (refl, refl);
  }
  least_used_loop_lem quotas s (p ∷ ps) same =
      let one = least_used_step_lem quotas s p same in
      Improves-cons one
        (least_used_loop_lem quotas (least_used_step cc has_retransmission s p) ps one.same)

  AreUsed-AreSkipped :
      (least : ℕ) (quotas : List Quota) (ps : List (PathState C))
      → AreUsed least quotas ps
      → ((id : ℕ) → quota_of id quotas < least)
      → AreSkipped cc has_retransmission ps
  unfolding AreUsed AreSkipped
  AreUsed-AreSkipped least quotas [] used below = used
  AreUsed-AreSkipped least quotas (p ∷ ps) (inl skipped, rest) below =
      (skipped, AreUsed-AreSkipped least quotas ps rest below)
  AreUsed-AreSkipped least quotas (p ∷ ps) (inr high, rest) below =
      let low = below p.path_id in
      (absurd (omega arith), AreUsed-AreSkipped least quotas ps rest below)

  -- selectPathRoundRobin for more than one path, with quotas below 2 ^ 64 - 1: it chooses no path exactly
  -- where all are skipped, and else one of the paths that is not skipped, such that no other path that is
  -- not skipped has a smaller quota. It changes no path's quota.
  pub select_path_round_robin_lem :
      (quotas : List Quota) (paths : List (PathState C))
      → 1 < length paths
      → ((id : ℕ) → quota_of id quotas < u64_mod - 1)
      → ((id : ℕ)
          → quota_of id (select_path_round_robin cc has_retransmission quotas paths).quotas
            ≡ quota_of id quotas)
        × (((select_path_round_robin cc has_retransmission quotas paths).choice ≡ chosen none)
              × AreSkipped cc has_retransmission paths
            ⊎ ((p : PathState C) × ((select_path_round_robin cc has_retransmission quotas
                    paths).choice
                  ≡ chosen (some p))
                × IsAmong p paths
                × (skips cc has_retransmission p ≡ false)
                × AreUsed (quota_of p.path_id quotas) quotas paths))
  unfolding select_path_round_robin
  select_path_round_robin_lem quotas paths many below =
      let start : LeastUsed C = record {
        lower_quota = u64_mod - 1;
        selected = none;
        quotas = quotas;
      } in
      let i = least_used_loop_lem quotas start paths (λ id. refl) in
      let alone_none = alone_many cc has_retransmission paths (ground arith) in
      let several : leb (length paths) 1 ≡ false = ground arith in
      rw (select_path_round_robin, alone_none, several)
        (
          i.same,
          elim i.selects [
            | inl (e, kept) ↦ inl (
              ap chosen e,
              AreUsed-AreSkipped (u64_mod - 1) quotas paths (AreUsed-cast quotas paths kept i.least)
                  below,
            )
            | inr (p, e, among, free, count, less) ↦
                inr (p, ap chosen e, among, free, AreUsed-cast quotas paths (sym count) i.least)
          ],
        )
