-- ===== src/Ack/Sent/Validity/Alarms.antt =====
-- OnAlarm keeps the invariant, and retransmitAllPackets empties the history.
use mathlib.Core.List.{append-nil, append_assoc}
use agg_deliv.Common.{
  ℕ, suc, ◌≤◌, ◌<◌, ◌≡◌, Bool, true, false, not, List, [], ◌∷◌, ◌++◌, Option, none, some, ltb, ◌==◌,
  refl, arith, ap, sym, ◌∙◌, Bool-cases, inl, inr, u64_mod, length, last?,
}
use agg_deliv.Ack.Packet.{Packet}
use agg_deliv.Ack.Sent.State.{
  Congestion, SentPacketHandler, update_loss_detection_alarm, queue_rto,
  queue_packet_for_retransmission, max_tail_loss_probes,
}
use agg_deliv.Ack.Sent.Handler.{any_retransmittable}
use agg_deliv.Ack.Sent.Timeout.{
  queue_back, queue_front, retransmit_tlp, retransmit, path_failed, retransmit_oldest_packet,
  retransmit_oldest_two_packets, retransmit_loop, retransmit_all_packets, alarm_fired, on_alarm,
}
use agg_deliv.Ack.Sent.Packets.{total, keep, has_number, keep-last, total-keep}
use agg_deliv.Ack.Sent.Removal.{Removes-one, queue_rto-Removes, is_lost}
use agg_deliv.Ack.Sent.Validity.{Holds, IsValid, Removes-keep, Removes-front, Removes-last}
use agg_deliv.Ack.Sent.Validity.Operations.{detect_lost_packets-Removes}

last-fits :
    {last_sent bytes : ℕ} {ps : List Packet} (p : Packet)
    → Holds last_sent bytes ps
    → last? ps ≡ some p
    → (p.length ≤ bytes) × (bytes < u64_mod)
unfolding total
last-fits {ps = ps} p v e =
    let one : total (keep (has_number p.packet_number) ps) ≡ total (p ∷ []) =
      ap total (keep-last 0 ps p v.increasing e) in
    let split = total-keep (has_number p.packet_number) ps in
    (omega (arith, one, split, v.counted), omega (arith, v.counted, v.small))

first-fits :
    {last_sent bytes : ℕ} {ps : List Packet} (p : Packet) (rest : List Packet)
    → Holds last_sent bytes ps
    → ps ≡ p ∷ rest
    → (p.length ≤ bytes) × (bytes < u64_mod)
unfolding total
first-fits p rest v e =
    let sum = ap total e in (omega (arith, sum, v.counted), omega (arith, v.counted, v.small))

module _ {C : Type 0} where
  queue_back-IsValid :
      (last : Option Packet) (h : SentPacketHandler C)
      → IsValid h
      → last? h.packet_history ≡ last
      → IsValid (queue_back last h)
  unfolding queue_back queue_packet_for_retransmission
  queue_back-IsValid none h v e = v
  queue_back-IsValid (some p) h v e =
      let (fits, small) = last-fits p v e in
      Removes-last p v e (
        Removes-one p (p ∷ []) h (queue_packet_for_retransmission h p) fits small refl refl refl
          refl refl)

module _ {C : Type 0} (cc : Congestion C) where
  -- The first packet is queued.
  queue_rto_front :
      (h : SentPacketHandler C) (p : Packet) (rest : List Packet)
      → IsValid h
      → h.packet_history ≡ p ∷ rest
      → IsValid (queue_rto cc h p)
        × ((queue_rto cc h p).packet_history ≡ rest)
        × ((queue_rto cc h p).retransmission_queue ≡ h.retransmission_queue ++ p ∷ [])
  queue_rto_front h p rest v e =
      let (fits, small) = first-fits p rest v e in
      let r = queue_rto-Removes cc h p fits small in
      let (valid, left) = Removes-front p rest v e r in (valid, left, r.queue)

  queue_front-IsValid :
      (ps : List Packet) (h : SentPacketHandler C)
      → IsValid h
      → h.packet_history ≡ ps
      → IsValid (queue_front cc ps h)
  unfolding queue_front
  queue_front-IsValid [] h v e = v
  queue_front-IsValid (p ∷ rest) h v e = (queue_rto_front h p rest v e).0

  -- `front` is what the handler's history holds.
  retransmit_loop_round :
      (n : ℕ) (front : List Packet) (h : SentPacketHandler C)
      → h.packet_history ≡ front
      → retransmit_loop cc (suc n) h ≡ retransmit_loop cc n (queue_front cc front h)
  unfolding retransmit_loop
  retransmit_loop_round n front h e =
      ap (λ (ps : List Packet). retransmit_loop cc n (queue_front cc ps h)) e

  retransmit_loop_lem :
      (ps : List Packet) (h : SentPacketHandler C)
      → IsValid h
      → h.packet_history ≡ ps
      → ((retransmit_loop cc (length ps) h).packet_history ≡ [])
        × ((retransmit_loop cc (length ps) h).retransmission_queue ≡ h.retransmission_queue ++ ps)
        × IsValid (retransmit_loop cc (length ps) h)
  unfolding retransmit_loop queue_front
  retransmit_loop_lem [] h v e = (e, sym (append-nil h.retransmission_queue), v)
  retransmit_loop_lem (p ∷ rest) h v e =
      let (valid, left, queue) = queue_rto_front h p rest v e in
      let (empty, all, valid') = retransmit_loop_lem rest (queue_rto cc h p) valid left in
      let joined =
        all
        ∙ ap (λ (q : List Packet). q ++ rest) queue
        ∙ append_assoc h.retransmission_queue (p ∷ []) rest in
      rw (retransmit_loop_round (length rest) (p ∷ rest) h e) (empty, joined, valid')

  -- The loop of retransmitAllPackets ends, from a handler that keeps its invariant: the history is empty,
  -- no byte is in flight, all packets of the history are behind the queue in their order, and the
  -- invariant holds.
  pub retransmit_all_packets_lem :
      (h : SentPacketHandler C)
      → IsValid h
      → ((retransmit_all_packets cc h).packet_history ≡ [])
        × ((retransmit_all_packets cc h).bytes_in_flight ≡ 0)
        × ((retransmit_all_packets cc h).retransmission_queue
            ≡ h.retransmission_queue ++ h.packet_history)
        × IsValid (retransmit_all_packets cc h)
  unfolding retransmit_all_packets total
  retransmit_all_packets_lem h v =
      let (empty, all, valid) = retransmit_loop_lem h.packet_history h v refl in
      let none_left : total (retransmit_loop cc (length h.packet_history) h).packet_history ≡ 0 =
        ap total empty in
      (
        empty,
        valid.counted ∙ none_left,
        all,
        record {
          increasing = valid.increasing;
          sent = valid.sent;
          counted = valid.counted;
          small = valid.small;
        },
      )

  retransmit_oldest_two_packets-IsValid :
      (h : SentPacketHandler C) → IsValid h → IsValid (retransmit_oldest_two_packets cc h)
  unfolding retransmit_oldest_two_packets retransmit_oldest_packet
  retransmit_oldest_two_packets-IsValid h v =
      let one = retransmit_oldest_packet cc h in
      let two =
        queue_front-IsValid one.packet_history one (queue_front-IsValid h.packet_history h v refl)
          refl in
      record {
        increasing = two.increasing;
        sent = two.sent;
        counted = two.counted;
        small = two.small;
      }

  retransmit-IsValid :
      (failed : Bool) (h : SentPacketHandler C) → IsValid h → IsValid (retransmit cc failed h)
  unfolding retransmit
  retransmit-IsValid true h v = (retransmit_all_packets_lem h v).3
  retransmit-IsValid false h v = retransmit_oldest_two_packets-IsValid h v

  alarm_fired-IsValid :
      (callback : Option (ℕ → Bool)) (h : SentPacketHandler C) (now : ℕ)
      → IsValid h
      → IsValid (alarm_fired cc callback h now)
  unfolding alarm_fired retransmit_tlp
  alarm_fired-IsValid callback h now v = elim (Bool-cases (not (h.loss_time == 0))) [
    | inl e ↦ rw e (
        let (delay, r) = detect_lost_packets-Removes cc h now v in
        (Removes-keep (is_lost h.largest_acked now delay) v r).0)
    | inr e ↦ rw e (elim (Bool-cases (ltb h.tlp_count max_tail_loss_probes)) [
      | inl e' ↦ rw e' (
          let probed = queue_back-IsValid (last? h.packet_history) h v refl in
          record {
            increasing = probed.increasing;
            sent = probed.sent;
            counted = probed.counted;
            small = probed.small;
          })
      | inr e' ↦ rw e' (
          let again = retransmit-IsValid (path_failed callback h.last_sent_time) h v in
          record {
            increasing = again.increasing;
            sent = again.sent;
            counted = again.counted;
            small = again.small;
          })
    ])
  ]

  -- OnAlarm keeps the invariant, whichever kind of alarm fires and whatever the callback says.
  pub on_alarm-IsValid :
      (callback : Option (ℕ → Bool)) (h : SentPacketHandler C) (now : ℕ)
      → IsValid h
      → IsValid (on_alarm cc callback h now)
  unfolding on_alarm update_loss_detection_alarm
  on_alarm-IsValid callback h now v =
      elim (Bool-cases (not (any_retransmittable h.packet_history))) [
        | inl e ↦ rw e (record {
          increasing = v.increasing;
          sent = v.sent;
          counted = v.counted;
          small = v.small;
        })
        | inr e ↦ rw e (
            let fired = alarm_fired-IsValid callback h now v in
            record {
              increasing = fired.increasing;
              sent = fired.sent;
              counted = fired.counted;
              small = fired.small;
            })
      ]
