-- ===== src/Ack/Sent/Validity.antt =====
-- The invariant of a sentPacketHandler: the numbers in its history increase up to the last one sent, and
-- the bytes in flight are those of the history.
pub mod Operations
pub mod Received
pub mod Alarms
pub mod Reachable
use agg_deliv.Common.{
  ℕ, zero, suc, ◌+◌, ◌-◌, ◌≤◌, ◌<◌, ◌≡◌, ◌≢◌, Bool, true, false, not, ◌&&◌, ◌||◌, List, [], ◌∷◌,
  ◌++◌, Option, none, some, ltb, leb, ◌==◌, if◌then◌else◌, refl, arith, ap, sym, ◌∙◌, Bool-cases,
  inl, inr, add64, sub64, u64_mod, length, last?,
}
use agg_deliv.Ack.Packet.{Packet}
use agg_deliv.Ack.Sent.State.{SentPacketHandler, remove}
use agg_deliv.Ack.Sent.Packets.{
  IsIncreasing, AreUpTo, total, keep, negate, remove_all, keep-IsIncreasing, keep-AreUpTo,
  IsIncreasing-mono, total-keep, remove_all-keep, remove_front, has_number, keep-last,
}
use agg_deliv.Ack.Sent.Removal.{Removes}

pub record Holds (last_sent bytes : ℕ) (ps : List Packet) : Type 0 where
  pub increasing : IsIncreasing 0 ps
  pub sent : AreUpTo last_sent ps
  pub counted : bytes ≡ total ps
  pub small : total ps < u64_mod

abbrev pub IsValid : {C : Type 0} → SentPacketHandler C → Type 0
IsValid h = Holds h.last_sent_packet_number h.bytes_in_flight h.packet_history

-- A packet behind the others.
IsIncreasing-snoc :
    (bound top : ℕ) (ps : List Packet) (p : Packet)
    → IsIncreasing bound ps
    → AreUpTo top ps
    → bound < p.packet_number
    → top < p.packet_number
    → IsIncreasing bound (ps ++ p ∷ [])
unfolding IsIncreasing AreUpTo
IsIncreasing-snoc bound top [] p v u low high = (low, omega arith)
IsIncreasing-snoc bound top (q ∷ ps) p v u low high =
    (v.0, IsIncreasing-snoc q.packet_number top ps p v.1 u.1 (omega arith) high)

AreUpTo-snoc :
    (top : ℕ) (ps : List Packet) (p : Packet)
    → AreUpTo top ps
    → top < p.packet_number
    → AreUpTo p.packet_number (ps ++ p ∷ [])
unfolding AreUpTo
AreUpTo-snoc top [] p u high = (omega arith, omega arith)
AreUpTo-snoc top (q ∷ ps) p u high = (omega arith, AreUpTo-snoc top ps p u.1 high)

pub AreUpTo-mono : (a b : ℕ) (ps : List Packet) → a ≤ b → AreUpTo a ps → AreUpTo b ps
unfolding AreUpTo
AreUpTo-mono a b [] h u = u
AreUpTo-mono a b (q ∷ ps) h u = (omega arith, AreUpTo-mono a b ps h u.1)

total-snoc : (ps : List Packet) (p : Packet) → total (ps ++ p ∷ []) ≡ total ps + p.length
unfolding total
total-snoc [] p = omega arith
total-snoc (q ∷ ps) p = omega (arith, total-snoc ps p)

pub Holds-snoc :
    {last_sent bytes : ℕ} {ps : List Packet} (p : Packet)
    → Holds last_sent bytes ps
    → last_sent < p.packet_number
    → total ps + p.length < u64_mod
    → Holds p.packet_number (add64 bytes p.length) (ps ++ p ∷ [])
Holds-snoc {last_sent} {bytes} {ps} p v high small = record {
  increasing = IsIncreasing-snoc 0 last_sent ps p v.increasing v.sent (omega arith) high;
  sent = AreUpTo-snoc last_sent ps p v.sent high;
  counted = omega (arith, v.counted, total-snoc ps p);
  small = omega (arith, total-snoc ps p);
}

-- What is left after the packets that a test picks are removed.
pub Removes-keep :
    {C : Type 0} {h h' : SentPacketHandler C} {queued : List Packet} (P : Packet → Bool)
    → IsValid h
    → Removes (keep P h.packet_history) queued h h'
    → IsValid h' × (h'.packet_history ≡ keep (negate P) h.packet_history)
Removes-keep {h = h} {h'} P v r =
    let left = r.history ∙ remove_all-keep P 0 h.packet_history v.increasing in
    let split = total-keep P h.packet_history in
    (
      record {
        increasing = rw left (keep-IsIncreasing (negate P) 0 h.packet_history v.increasing);
        sent =
            rw (left, r.last_sent)
              (keep-AreUpTo (negate P) h.last_sent_packet_number h.packet_history v.sent);
        counted = rw left (omega (arith, r.bytes, split, v.counted));
        small = rw left (omega (arith, split, v.small));
      },
      left,
    )

-- The first packet leaves.
pub Removes-front :
    {C : Type 0} {h h' : SentPacketHandler C} {queued : List Packet} (p : Packet)
    (rest : List Packet)
    → IsValid h
    → h.packet_history ≡ p ∷ rest
    → Removes (p ∷ []) queued h h'
    → IsValid h' × (h'.packet_history ≡ rest)
unfolding IsIncreasing AreUpTo total remove_all remove
Removes-front {h = h} {h'} p rest v e r =
    let inc : IsIncreasing 0 (p ∷ rest) = rw e at v.increasing in
    let up : AreUpTo h.last_sent_packet_number (p ∷ rest) = rw e at v.sent in
    let sum : total h.packet_history ≡ total (p ∷ rest) = ap total e in
    let left : h'.packet_history ≡ rest =
      r.history ∙ ap (remove p.packet_number) e ∙ remove_front p rest in
    (
      record {
        increasing = rw left (IsIncreasing-mono 0 p.packet_number rest (omega arith) inc.1);
        sent = rw (left, r.last_sent) up.1;
        counted = rw left (omega (arith, r.bytes, sum, v.counted));
        small = rw left (omega (arith, sum, v.small));
      },
      left,
    )

-- The last packet leaves.
pub Removes-last :
    {C : Type 0} {h h' : SentPacketHandler C} {queued : List Packet} (p : Packet)
    → IsValid h
    → last? h.packet_history ≡ some p
    → Removes (p ∷ []) queued h h'
    → IsValid h'
Removes-last {h = h} {h'} {queued} p v e r =
    let one = keep-last 0 h.packet_history p v.increasing e in
    let picked : Removes (keep (has_number p.packet_number) h.packet_history) queued h h' =
      rw one r in
    (Removes-keep (has_number p.packet_number) v picked).0
