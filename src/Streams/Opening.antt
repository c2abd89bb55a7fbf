-- ===== src/Streams/Opening.antt =====
-- Identifiers that a side has opened, and lists of them.
use agg_deliv.Common.{ℕ, ◌%◌, ◌≤◌, ◌≡◌, List, [], ◌∷◌, ◌++◌, ◌==◌, ◌⊎◌, inl, inr, arith, if_cases}
use agg_deliv.Streams.{
  Perspective, perspective_server, perspective_client, Entry, add32, delete, first_for,
}
use agg_deliv.Streams.Closed.{own_parity, WasOpened, AllOpened}

-- An identifier of the peer.
unfoldable pub IsRemote : Perspective → ℕ → Type 0
IsRemote side id = (id % 2 ≡ own_parity side) → 1 ≤ 0

pub WasOpened-mono :
    (side : Perspective) (next next' highest highest' id : ℕ)
    → next ≤ next'
    → highest ≤ highest'
    → WasOpened side next highest id
    → WasOpened side next' highest' id
unfolding WasOpened
WasOpened-mono side next next' highest highest' id a b (inl (own, low)) = inl (own, omega arith)
WasOpened-mono side next next' highest highest' id a b (inr (remote, low)) =
    inr (remote, omega arith)

pub first_for-IsRemote :
    (side : Perspective) (highest : ℕ)
    → (highest ≡ 0) ⊎ ((highest % 2 ≡ own_parity side) → 1 ≤ 0)
    → IsRemote side (first_for side (add32 highest 2))
unfolding first_for IsRemote own_parity
first_for-IsRemote perspective_server highest (inl e) = λ odd. ground arith
first_for-IsRemote perspective_server highest (inr remote) = λ odd. remote (ground arith)
first_for-IsRemote perspective_client highest (inl e) = λ odd. ground arith
first_for-IsRemote perspective_client highest (inr remote) = λ odd. remote (ground arith)

module _ {S : Type 0} (side : Perspective) where
  pub AllOpened-mono :
      (next next' highest highest' : ℕ) (es : List (Entry S))
      → next ≤ next'
      → highest ≤ highest'
      → AllOpened side next highest es
      → AllOpened side next' highest' es
  unfolding AllOpened
  AllOpened-mono next next' highest highest' [] a b all = all
  AllOpened-mono next next' highest highest' (e ∷ es) a b all = (
    WasOpened-mono side next next' highest highest' e.stream_id a b all.0,
    AllOpened-mono next next' highest highest' es a b all.1,
  )

  pub AllOpened-snoc :
      (next highest : ℕ) (es : List (Entry S)) (e : Entry S)
      → AllOpened side next highest es
      → WasOpened side next highest e.stream_id
      → AllOpened side next highest (es ++ e ∷ [])
  unfolding AllOpened
  AllOpened-snoc next highest [] e all opened = (opened, omega arith)
  AllOpened-snoc next highest (x ∷ es) e all opened =
      (all.0, AllOpened-snoc next highest es e all.1 opened)

  pub AllOpened-delete :
      (next highest id : ℕ) (es : List (Entry S))
      → AllOpened side next highest es
      → AllOpened side next highest (delete id es)
  unfolding AllOpened delete
  AllOpened-delete next highest id [] all = all
  AllOpened-delete next highest id (x ∷ es) all =
      let rest = AllOpened-delete next highest id es all.1 in
      if_cases (AllOpened side next highest) (x.stream_id == id) (delete id es) (x ∷ delete id es)
        (λ e. rest) (λ e. (all.0, rest))
