-- ===== src/Scheduler/Select.antt =====
-- The policies: by bandwidth (selectPathLargeBandwidth, which selectPath uses), round robin and low latency.
use agg_deliv.Common.{
  ℕ, ◌-◌, Bool, true, false, not, ◌&&◌, ◌||◌, List, [], ◌∷◌, Option, none, some, ltb, leb, ◌==◌,
  if◌then◌else◌, length, u64_mod,
}
use agg_deliv.Ack.Sent.State.{Congestion}
use agg_deliv.Scheduler.Paths.{
  PathState, initial_path_id, path_of, sending_allowed, smoothed_rtt, skips,
}

-- A method of a path that is nil panics.
pub data Choice (C : Type 0) : Type 0 where
  chosen : Option (PathState C) → Choice C
  panics : Choice C

-- float64, and what the policy by bandwidth reads: the probabilities of the session, 0 for a path without
-- one, and the random threshold.
pub record Weights (F : Type 0) : Type 0 where
  pub zero : F
  pub add : F → F → F
  pub more : F → F → Bool
  pub probability : ℕ → F
  pub thresh : F

-- An entry of `sch.quotas`.
pub record Quota : Type 0 where
  pub path_id : ℕ
  pub count : ℕ

-- A missing entry reads as 0.
unfoldable pub quota_of : ℕ → List Quota → ℕ
quota_of id [] = 0
quota_of id (q ∷ qs) = if q.path_id == id then q.count else quota_of id qs

-- `if !ok { sch.quotas[pathID] = 0 }`
unfoldable pub note : ℕ → List Quota → List Quota
note id [] = (record { path_id = id; count = 0 }) ∷ []
note id (q ∷ qs) = let rest = note id qs in if q.path_id == id then q ∷ qs else q ∷ rest

unfoldable pub is_some : {A : Type 0} → Option A → Bool
is_some none = false
is_some (some a) = true

module _ {C : Type 0} (cc : Congestion C) where
  -- The test for a session of one path, and what it returns.
  unfoldable pub alone : Bool → List (PathState C) → Option (Choice C)
  unfolding path_of sending_allowed
  alone has_retransmission paths =
      if ltb 1 (length paths) || has_retransmission
      then none
      else elim (path_of initial_path_id paths) [
        | none ↦ some panics
        | some p ↦ if sending_allowed cc p then none else some (chosen none)
      ]

  -- The loop of selectPathLargeBandwidth, with the sum of the probabilities so far.
  unfoldable pub bandwidth_loop :
      {F : Type 0}
      → Weights F
      → Bool
      → F
      → Option (PathState C)
      → List (PathState C)
      → Option (PathState C)
  unfolding skips
  bandwidth_loop w has_retransmission hist selected [] = selected
  bandwidth_loop w has_retransmission hist selected (p ∷ ps) =
      let sum =
        if p.path_id == initial_path_id then hist else w.add hist (w.probability p.path_id) in
      let rest = bandwidth_loop w has_retransmission sum selected ps in
      if skips cc has_retransmission p then rest else if w.more sum w.thresh then some p else rest

  unfoldable pub select_path_large_bandwidth :
      {F : Type 0} → Weights F → Bool → List (PathState C) → Choice C
  unfolding alone bandwidth_loop path_of
  select_path_large_bandwidth w has_retransmission paths = elim (alone has_retransmission paths) [
    | some c ↦ c
    | none ↦
        chosen (bandwidth_loop w has_retransmission w.zero (path_of initial_path_id paths) paths)
  ]

  unfoldable pub select_path : {F : Type 0} → Weights F → Bool → List (PathState C) → Choice C
  unfolding select_path_large_bandwidth
  select_path w has_retransmission paths = select_path_large_bandwidth w has_retransmission paths

-- What selectPathRoundRobin has found so far.
pub record LeastUsed (C : Type 0) : Type 0 where
  pub lower_quota : ℕ
  pub selected : Option (PathState C)
  pub quotas : List Quota

-- What selectPathLowLatency has found so far.
pub record Fastest (C : Type 0) : Type 0 where
  pub lower_rtt : ℕ
  pub selected : Option (PathState C)
  pub selected_path_id : ℕ
  pub quotas : List Quota

pub record Selection (C : Type 0) : Type 0 where
  pub choice : Choice C
  pub quotas : List Quota

module _ {C : Type 0} (cc : Congestion C) where
  -- A path in the loop of selectPathRoundRobin.
  unfoldable pub least_used_step : Bool → LeastUsed C → PathState C → LeastUsed C
  unfolding skips quota_of note
  least_used_step has_retransmission s p =
      let current_quota = quota_of p.path_id s.quotas in
      let noted = note p.path_id s.quotas in
      if skips cc has_retransmission p
      then s
      else if ltb current_quota s.lower_quota
      then record { lower_quota = current_quota; selected = some p; quotas = noted }
      else record s { quotas = noted }

  unfoldable pub least_used_loop : Bool → LeastUsed C → List (PathState C) → LeastUsed C
  unfolding least_used_step
  least_used_loop has_retransmission s [] = s
  least_used_loop has_retransmission s (p ∷ ps) =
      least_used_loop has_retransmission (least_used_step has_retransmission s p) ps

  unfoldable pub select_path_round_robin : Bool → List Quota → List (PathState C) → Selection C
  unfolding alone path_of least_used_loop
  select_path_round_robin has_retransmission quotas paths =
      elim (alone cc has_retransmission paths) [
        | some c ↦ record { choice = c; quotas = quotas }
        | none ↦
            if leb (length paths) 1
            then record { choice = chosen (path_of initial_path_id paths); quotas = quotas }
            else let start : LeastUsed C = record {
              lower_quota = u64_mod - 1;
              selected = none;
              quotas = quotas;
            } in
              let last = least_used_loop has_retransmission start paths in
              record { choice = chosen last.selected; quotas = last.quotas }
      ]

  -- The loop that looks for a path that was used less than the path of a retransmission.
  unfoldable pub less_used : ℕ → List Quota → List (PathState C) → Option (PathState C)
  unfolding quota_of
  less_used from quotas [] = none
  less_used from quotas (p ∷ ps) =
      let rest = less_used from quotas ps in
      if p.path_id == initial_path_id || p.path_id == from
      then rest
      else if ltb (quota_of p.path_id quotas) (quota_of from quotas)
      then some p
      else rest

  -- A path in the loop of selectPathLowLatency.
  unfoldable pub fastest_step : Bool → Fastest C → PathState C → Fastest C
  unfolding skips smoothed_rtt quota_of note is_some
  fastest_step has_retransmission s p =
      let rtt = smoothed_rtt cc p in
      let noted = if rtt == 0 then note p.path_id s.quotas else s.quotas in
      let more_used = ltb (quota_of s.selected_path_id noted) (quota_of p.path_id noted) in
      if skips cc has_retransmission p
      then s
      else if not (s.lower_rtt == 0) && rtt == 0
      then s
      else if rtt == 0 && is_some s.selected && more_used
      then record s { quotas = noted }
      else if not (rtt == 0) && not (s.lower_rtt == 0) && is_some s.selected && leb s.lower_rtt rtt
      then s
      else record {
        lower_rtt = rtt;
        selected = some p;
        selected_path_id = p.path_id;
        quotas = noted;
      }

  unfoldable pub fastest_loop : Bool → Fastest C → List (PathState C) → Fastest C
  unfolding fastest_step
  fastest_loop has_retransmission s [] = s
  fastest_loop has_retransmission s (p ∷ ps) =
      fastest_loop has_retransmission (fastest_step has_retransmission s p) ps

  -- The path for a stream's retransmission while the path that lost it has no round trip time; `from` is
  -- that path, `none` for nil.
  unfoldable pub early_choice :
      Bool → Bool → Option (PathState C) → List Quota → List (PathState C) → Option (Choice C)
  unfolding less_used smoothed_rtt
  early_choice has_retransmission has_stream_retransmission from quotas paths =
      if has_retransmission && has_stream_retransmission
      then elim from [
        | none ↦ some panics
        | some f ↦
            if smoothed_rtt cc f == 0
            then elim (less_used f.path_id quotas paths) [
              | none ↦ none
              | some p ↦ some (chosen (some p))
            ]
            else none
      ]
      else none

  unfoldable pub select_path_low_latency :
      Bool → Bool → Option (PathState C) → List Quota → List (PathState C) → Selection C
  unfolding alone path_of early_choice fastest_loop
  select_path_low_latency has_retransmission has_stream_retransmission from quotas paths =
      elim (alone cc has_retransmission paths) [
        | some c ↦ record { choice = c; quotas = quotas }
        | none ↦
            if leb (length paths) 1
            then record { choice = chosen (path_of initial_path_id paths); quotas = quotas }
            else elim (early_choice has_retransmission has_stream_retransmission from quotas
                paths) [
                  | some c ↦ record { choice = c; quotas = quotas }
                  | none ↦
                      let start : Fastest C = record {
                        lower_rtt = 0;
                        selected = none;
                        selected_path_id = 255;
                        quotas = quotas;
                      } in
                      let last = fastest_loop has_retransmission start paths in
                      record { choice = chosen last.selected; quotas = last.quotas }
                ]
      ]
