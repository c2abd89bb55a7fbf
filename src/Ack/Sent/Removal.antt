-- ===== src/Ack/Sent/Removal.antt =====
-- What the loops over acknowledged and over lost packets do to the handler.
use mathlib.Core.List.{append-nil, append_assoc}
use agg_deliv.Common.{
  ℕ, ◌+◌, ◌-◌, ◌≤◌, ◌<◌, ◌≡◌, Bool, ◌&&◌, List, [], ◌∷◌, ◌++◌, leb, refl, arith, ap, sym, ◌∙◌,
  sub64, u64_mod,
}
use agg_deliv.Ack.Packet.{Packet}
use agg_deliv.Ack.Sent.State.{
  Congestion, SentPacketHandler, on_packet_acked, queue_lost, queue_rto, remove,
}
use agg_deliv.Ack.Sent.Detection.{lost_loop, inflight_loop, is_late}
use agg_deliv.Ack.Sent.Calls.{ack_all, queue_all}
use agg_deliv.Ack.Sent.Packets.{IsIncreasing, keep, remove_all, total}
use agg_deliv.Ack.Sent.Acked.{keep_none}

module _ {C : Type 0} where
  -- From `h` to `h'` the packets `xs` leave the history, and `queued` join the queue.
  pub record Removes (xs queued : List Packet) (h h' : SentPacketHandler C) : Type 0 where
    pub history : h'.packet_history ≡ remove_all xs h.packet_history
    pub queue : h'.retransmission_queue ≡ h.retransmission_queue ++ queued
    pub bytes : h'.bytes_in_flight + total xs ≡ h.bytes_in_flight
    pub last_sent : h'.last_sent_packet_number ≡ h.last_sent_packet_number
    pub largest : h'.largest_acked ≡ h.largest_acked

  Removes-none : (h : SentPacketHandler C) → Removes [] [] h h
  unfolding remove_all total
  Removes-none h = record {
    history = refl;
    queue = sym (append-nil h.retransmission_queue);
    bytes = omega arith;
    last_sent = refl;
    largest = refl;
  }

  Removes-cons :
      {x : Packet} {xs qs rs : List Packet} {h h1 h2 : SentPacketHandler C}
      → Removes (x ∷ []) qs h h1
      → Removes xs rs h1 h2
      → Removes (x ∷ xs) (qs ++ rs) h h2
  unfolding remove_all total
  Removes-cons {x} {xs} {qs} {rs} {h} a b = record {
    history = b.history ∙ ap (remove_all xs) a.history;
    queue =
        b.queue
        ∙ ap (λ (q : List Packet). q ++ rs) a.queue
        ∙ append_assoc h.retransmission_queue qs rs;
    bytes = omega (arith, a.bytes, b.bytes);
    last_sent = b.last_sent ∙ a.last_sent;
    largest = b.largest ∙ a.largest;
  }

  -- One packet leaves the history, and its bytes are subtracted.
  pub Removes-one :
      (x : Packet) (queued : List Packet) (h h' : SentPacketHandler C)
      → x.length ≤ h.bytes_in_flight
      → h.bytes_in_flight < u64_mod
      → h'.packet_history ≡ remove x.packet_number h.packet_history
      → h'.retransmission_queue ≡ h.retransmission_queue ++ queued
      → h'.bytes_in_flight ≡ sub64 h.bytes_in_flight x.length
      → h'.last_sent_packet_number ≡ h.last_sent_packet_number
      → h'.largest_acked ≡ h.largest_acked
      → Removes (x ∷ []) queued h h'
  unfolding remove_all total
  Removes-one x queued h h' fits small e1 e2 e3 e4 e5 = record {
    history = e1;
    queue = e2;
    bytes = omega arith;
    last_sent = e4;
    largest = e5;
  }

module _ {C : Type 0} (cc : Congestion C) where
  pub ack_all-Removes :
      (h : SentPacketHandler C) (xs : List Packet)
      → total xs ≤ h.bytes_in_flight
      → h.bytes_in_flight < u64_mod
      → Removes xs [] h (ack_all cc h xs)
  unfolding ack_all total on_packet_acked
  ack_all-Removes h [] fits small = Removes-none h
  ack_all-Removes h (x ∷ xs) fits small =
      let acked = on_packet_acked h x in
      let next = record acked {
        congestion =
            cc.on_packet_acked x.packet_number x.length acked.bytes_in_flight acked.congestion;
      } in
      let one =
        Removes-one x [] h next (omega arith) small refl (sym (append-nil h.retransmission_queue))
          refl refl refl in
      Removes-cons one
        (ack_all-Removes next xs (omega (arith, one.bytes)) (omega (arith, one.bytes)))

  queue_lost-Removes :
      (h : SentPacketHandler C) (x : Packet)
      → x.length ≤ h.bytes_in_flight
      → h.bytes_in_flight < u64_mod
      → Removes (x ∷ []) (x ∷ []) h (queue_lost cc h x)
  unfolding queue_lost
  queue_lost-Removes h x fits small =
      Removes-one x (x ∷ []) h (queue_lost cc h x) fits small refl refl refl refl refl

  pub queue_rto-Removes :
      (h : SentPacketHandler C) (x : Packet)
      → x.length ≤ h.bytes_in_flight
      → h.bytes_in_flight < u64_mod
      → Removes (x ∷ []) (x ∷ []) h (queue_rto cc h x)
  unfolding queue_rto
  queue_rto-Removes h x fits small =
      Removes-one x (x ∷ []) h (queue_rto cc h x) fits small refl refl refl refl refl

  pub queue_all-Removes :
      (h : SentPacketHandler C) (xs : List Packet)
      → total xs ≤ h.bytes_in_flight
      → h.bytes_in_flight < u64_mod
      → Removes xs xs h (queue_all cc h xs)
  unfolding queue_all total
  queue_all-Removes h [] fits small = Removes-none h
  queue_all-Removes h (x ∷ xs) fits small =
      let one = queue_lost-Removes h x (omega arith) small in
      Removes-cons one (
        queue_all-Removes (queue_lost cc h x) xs (omega (arith, one.bytes))
          (omega (arith, one.bytes)))

-- The test of detectLostPackets.
abbrev pub is_lost : ℕ → ℕ → ℕ → Packet → Bool
is_lost largest now delay p = leb p.packet_number largest && is_late now delay p

pub lost_loop-keep :
    (largest now delay bound loss_time : ℕ) (ps : List Packet)
    → IsIncreasing bound ps
    → (lost_loop largest now delay loss_time ps).lost ≡ keep (is_lost largest now delay) ps
unfolding lost_loop keep IsIncreasing
lost_loop-keep largest now delay bound loss_time [] v = refl
lost_loop-keep largest now delay bound loss_time (p ∷ ps) v =
    let past : largest < p.packet_number → keep (is_lost largest now delay) ps ≡ [] =
      λ h. keep_none (is_lost largest now delay) p.packet_number ps v.1 (λ q above. ground arith) in
    ground (
      arith,
      lost_loop-keep largest now delay p.packet_number loss_time ps,
      lost_loop-keep largest now delay p.packet_number (now + (delay - (now - p.send_time))) ps,
    )

-- The test of SetInflightAsLost.
abbrev pub is_below : ℕ → Packet → Bool
is_below largest p = leb p.packet_number largest

pub inflight_loop-keep :
    (largest bound : ℕ) (ps : List Packet)
    → IsIncreasing bound ps
    → inflight_loop largest ps ≡ keep (is_below largest) ps
unfolding inflight_loop keep IsIncreasing
inflight_loop-keep largest bound [] v = refl
inflight_loop-keep largest bound (p ∷ ps) v =
    let past : largest < p.packet_number → keep (is_below largest) ps ≡ [] =
      λ h. keep_none (is_below largest) p.packet_number ps v.1 (λ q above. ground arith) in
    ground (arith, inflight_loop-keep largest p.packet_number ps)
