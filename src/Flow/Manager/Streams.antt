-- ===== src/Flow/Manager/Streams.antt =====
-- The map from stream IDs to flow controllers, as an association list.
use agg_deliv.Common.{
  ℕ, ◌+◌, ◌≡◌, refl, List, [], ◌∷◌, Option, none, some, ◌==◌, if◌then◌else◌, arith,
}
use agg_deliv.Flow.Controller.{FlowController}

abbrev pub StreamControllers : Type 0
StreamControllers = List (ℕ × FlowController)

unfoldable pub find : ℕ → StreamControllers → Option FlowController
find id [] = none
find id ((k, fc) ∷ rest) = if k == id then some fc else find id rest

-- A write of a key that is there keeps its place.
unfoldable pub put : ℕ → FlowController → StreamControllers → StreamControllers
put id fc [] = (id, fc) ∷ []
put id fc ((k, old) ∷ rest) = if k == id then (k, fc) ∷ rest else (k, old) ∷ put id fc rest

unfoldable pub remove : ℕ → StreamControllers → StreamControllers
remove id [] = []
remove id ((k, fc) ∷ rest) = if k == id then remove id rest else (k, fc) ∷ remove id rest

-- The highest offsets received on the streams that contribute to the connection, added up.
unfoldable pub share : FlowController → ℕ
share fc = if fc.contributes_to_connection then fc.highest_received else 0

unfoldable pub received_sum : StreamControllers → ℕ
received_sum [] = 0
received_sum ((k, fc) ∷ rest) = share fc + received_sum rest

pub find-put :
    (id k : ℕ) (fc : FlowController) (s : StreamControllers)
    → find k (put id fc s) ≡ (if id == k then some fc else find k s)
unfolding find put
find-put id k fc [] = refl
find-put id k fc ((j, old) ∷ rest) = ground (arith, find-put id k fc rest)

pub find-remove :
    (id k : ℕ) (s : StreamControllers) → find k (remove id s) ≡ (if id == k then none else find k s)
unfolding find remove
find-remove id k [] = ground arith
find-remove id k ((j, fc) ∷ rest) = ground (arith, find-remove id k rest)

pub received_sum-put :
    (id : ℕ) (fc old : FlowController) (s : StreamControllers)
    → find id s ≡ some old
    → received_sum (put id fc s) + share old ≡ received_sum s + share fc
unfolding find put received_sum
received_sum-put id fc old [] e = ground arith
received_sum-put id fc old ((j, x) ∷ rest) e = ground (arith, received_sum-put id fc old rest)
