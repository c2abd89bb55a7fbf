-- ===== src/Ack/History/Deletion.antt =====
-- The loop of DeleteUpTo removes the packet numbers up to its bound and no others.
use agg_deliv.Common.{
  ℕ, ◌-◌, ◌<◌, ◌≡◌, refl, List, [], ◌∷◌, true, false, ◌&&◌, ltb, arith, u64_mod, ◌≤◌, length,
}
use agg_deliv.Ack.History.{PacketInterval, delete_loop, contains, IsSeparated}
use agg_deliv.Ack.History.Contents.{IsSeparated-mono}

-- The loop returns early only at a range above the bound.
delete_loop_stopped :
    (bound p : ℕ) (rs : List PacketInterval)
    → IsSeparated bound rs
    → (delete_loop p rs).goes_on ≡ false
    → p < bound
unfolding delete_loop
delete_loop_stopped bound p [] v h = ground arith
delete_loop_stopped bound p (el ∷ rest) v h =
    ground (arith, delete_loop_stopped (el.start - 1) p rest)

pub delete_loop-IsSeparated :
    (bound p : ℕ) (rs : List PacketInterval)
    → bound < u64_mod
    → IsSeparated bound rs
    → IsSeparated bound (delete_loop p rs).kept
unfolding delete_loop
delete_loop-IsSeparated bound p [] small v = tt
delete_loop-IsSeparated bound p (el ∷ rest) small v = ground (
  arith,
  delete_loop-IsSeparated (el.start - 1) p rest,
  IsSeparated-mono (el.start - 1) p (delete_loop p rest).kept,
  IsSeparated-mono (el.start - 1) bound (delete_loop p rest).kept,
)

-- Below a separated list there is nothing at or above its bound.
contains_below :
    (n bound : ℕ) (rs : List PacketInterval)
    → IsSeparated bound rs
    → contains n rs ≡ true
    → n < bound
contains_below n bound [] v h = ground arith
contains_below n bound (el ∷ rest) v h = ground (arith, contains_below n (el.start - 1) rest)

pub contains-delete_loop :
    (n bound p : ℕ) (rs : List PacketInterval)
    → bound < u64_mod
    → IsSeparated bound rs
    → contains n (delete_loop p rs).kept ≡ (contains n rs && ltb p n)
unfolding delete_loop
contains-delete_loop n bound p [] small v = refl
contains-delete_loop n bound p (el ∷ rest) small v = ground (
  arith,
  contains-delete_loop n (el.start - 1) p rest,
  contains_below n (el.start - 1) rest,
  delete_loop_stopped (el.start - 1) p rest,
)

pub length-delete_loop :
    (p : ℕ) (rs : List PacketInterval) → length (delete_loop p rs).kept ≤ length rs
unfolding delete_loop
length-delete_loop p [] = omega arith
length-delete_loop p (el ∷ rest) = ground (arith, length-delete_loop p rest)
