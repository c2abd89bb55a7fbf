-- ===== src/Ack/History/Contents.antt =====
-- The ranges hold exactly the packet numbers that were received and not deleted.
use agg_deliv.Common.{
  ℕ, suc, ◌-◌, ◌<◌, ◌≤◌, ◌≡◌, refl, List, [], ◌∷◌, ◌||◌, ◌==◌, arith, u64_mod, length,
}
use agg_deliv.Ack.History.{PacketInterval, merge_with_prev, received_loop, contains, IsSeparated}

pub IsSeparated-mono :
    (a b : ℕ) (rs : List PacketInterval) → a ≤ b → IsSeparated a rs → IsSeparated b rs
IsSeparated-mono a b [] h v = tt
IsSeparated-mono a b (el ∷ rest) h v = (v.0, omega arith, v.2, v.3)

merge_with_prev-IsSeparated :
    (bound : ℕ) (el : PacketInterval) (rest : List PacketInterval)
    → 0 < el.start
    → el.start ≤ el.end
    → el.end < bound
    → bound < u64_mod
    → IsSeparated el.start rest
    → IsSeparated bound (merge_with_prev el rest)
unfolding merge_with_prev
merge_with_prev-IsSeparated bound el [] pos order below small v = omega arith
merge_with_prev-IsSeparated bound el (prev ∷ rest) pos order below small v = ground arith

contains-merge_with_prev :
    (n : ℕ) (el : PacketInterval) (rest : List PacketInterval)
    → el.start ≤ el.end
    → el.end < u64_mod
    → IsSeparated el.start rest
    → contains n (merge_with_prev el rest) ≡ contains n (el ∷ rest)
unfolding merge_with_prev
contains-merge_with_prev n el [] order small v = refl
contains-merge_with_prev n el (prev ∷ rest) order small v = ground arith

pub received_loop-IsSeparated :
    (bound p : ℕ) (rs : List PacketInterval)
    → 0 < p
    → p < bound
    → bound < u64_mod
    → IsSeparated bound rs
    → IsSeparated bound (received_loop p rs)
unfolding received_loop
received_loop-IsSeparated bound p [] pos below small v = omega arith
received_loop-IsSeparated bound p (el ∷ rest) pos below small v = ground (
  arith,
  received_loop-IsSeparated (el.start - 1) p rest,
  merge_with_prev-IsSeparated bound (record el { end = p }) rest,
  merge_with_prev-IsSeparated bound (record el { start = p }) rest,
  IsSeparated-mono (el.start - 1) el.start rest,
  IsSeparated-mono (el.start - 1) p rest,
)

pub contains-received_loop :
    (n bound p : ℕ) (rs : List PacketInterval)
    → 0 < p
    → p < bound
    → bound < u64_mod
    → IsSeparated bound rs
    → contains n (received_loop p rs) ≡ ((n == p) || contains n rs)
unfolding received_loop
contains-received_loop n bound p [] pos below small v = ground arith
contains-received_loop n bound p (el ∷ rest) pos below small v = ground (
  arith,
  contains-received_loop n (el.start - 1) p rest,
  contains-merge_with_prev n (record el { end = p }) rest,
  contains-merge_with_prev n (record el { start = p }) rest,
  IsSeparated-mono (el.start - 1) el.start rest,
  IsSeparated-mono (el.start - 1) p rest,
)

length-merge_with_prev :
    (el : PacketInterval) (rest : List PacketInterval)
    → length (merge_with_prev el rest) ≤ suc (length rest)
unfolding merge_with_prev
length-merge_with_prev el [] = omega arith
length-merge_with_prev el (prev ∷ rest) = ground arith

pub length-received_loop :
    (p : ℕ) (rs : List PacketInterval) → length (received_loop p rs) ≤ suc (length rs)
unfolding received_loop
length-received_loop p [] = omega arith
length-received_loop p (el ∷ rest) = ground (
  arith,
  length-received_loop p rest,
  length-merge_with_prev (record el { end = p }) rest,
  length-merge_with_prev (record el { start = p }) rest,
)
