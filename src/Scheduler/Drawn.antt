-- ===== src/Scheduler/Drawn.antt =====
-- The packets that getRetransmission draws from the paths, whose map it visits in some order in each round.
use mathlib.Core.List.{Permᴰ}
use agg_deliv.Common.{
  ◌+◌, ◌≡◌, List, [], ◌∷◌, length, length-append, refl, ap, ◌∙◌, arith, List-cases, inl, inr,
}
use agg_deliv.Ack.Packet.{Packet}
use agg_deliv.Scheduler.Paths.{PathState}
use agg_deliv.Scheduler.Retransmission.{all_queued}
use agg_deliv.Scheduler.Hands.{IsTaken}

module _ {C : Type 0} where
  -- From the paths `ps` to `rs` the packets are drawn one by one, each the first that some path has queued,
  -- where the paths may change their order before each of them.
  pub data IsDrawn : List (PathState C) → List Packet → List (PathState C) → Type 0 where
    stays : {ps : List (PathState C)} → IsDrawn ps [] ps
    draws :
        {ps qs mid rs : List (PathState C)} {x : Packet} {xs : List Packet}
        → Permᴰ ps qs
        → IsTaken qs x mid
        → IsDrawn mid xs rs
        → IsDrawn ps (x ∷ xs) rs

  abbrev queued : PathState C → List Packet
  queued p = p.sent_packet_handler.retransmission_queue

  all_queued-cons :
      (p : PathState C) (ps : List (PathState C))
      → length (all_queued (p ∷ ps)) ≡ length (queued p) + length (all_queued ps)
  unfolding all_queued
  all_queued-cons p ps = length-append (queued p) (all_queued ps)

  -- Every order of the paths has as many packets queued.
  pub all_queued-order :
      (ps qs : List (PathState C)) → Permᴰ ps qs → length (all_queued ps) ≡ length (all_queued qs)
  all_queued-order ps qs Permᴰ.nil = refl
  all_queued-order (p ∷ ps) (q ∷ qs) (Permᴰ.cons e d) =
      let more = all_queued-order ps qs d in
      let same = ap (λ (x : PathState C). length (queued x)) e in
      omega (arith, more, same, all_queued-cons p ps, all_queued-cons q qs)
  all_queued-order (a ∷ b ∷ l) (b' ∷ a' ∷ _) (Permᴰ.swap e e') =
      let same = ap (λ (x : PathState C). length (queued x)) e in
      let same' = ap (λ (x : PathState C). length (queued x)) e' in
      omega (
        arith,
        same,
        same',
        all_queued-cons a (b ∷ l),
        all_queued-cons b l,
        all_queued-cons b' (a' ∷ l),
        all_queued-cons a' l,
      )
  all_queued-order ps qs (Permᴰ.trans {l₂ = mid} d d') =
      all_queued-order ps mid d ∙ all_queued-order mid qs d'

  -- If one order has no packet queued, none has.
  pub none_queued :
      (ps qs : List (PathState C)) → Permᴰ ps qs → all_queued qs ≡ [] → all_queued ps ≡ []
  none_queued ps qs d empty =
      let size = all_queued-order ps qs d in
      elim (List-cases (all_queued ps)) [
        | inl e ↦ e
        | inr (x, xs, e) ↦ absurd (
            omega (
              arith,
              size,
              ap (λ (l : List Packet). length l) empty,
              ap (λ (l : List Packet). length l) e,
            ))
      ]
