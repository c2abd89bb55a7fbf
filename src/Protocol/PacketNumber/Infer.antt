-- ===== src/Protocol/PacketNumber/Infer.antt =====
-- Truncated packet numbers are completed to the number that was sent.
use agg_deliv.Common.{ℕ, ◌+◌, ◌*◌, ◌%◌, ◌^◌, ◌≤◌, ◌<◌, ◌≡◌, ◌⊎◌, inl, inr, arith}
use agg_deliv.Protocol.PacketNumber.{
  infer_packet_number, packet_number_length_for_public_header, packet_number_length,
}

-- The lengths that a header can have.
abbrev pub IsPacketNumberLen : ℕ → Type 0
IsPacketNumberLen len = (len ≡ 1) ⊎ (len ≡ 2) ⊎ (len ≡ 4) ⊎ (len ≡ 6)

module _ (last p : ℕ) (last_small : last < 2 ^ 62) (p_small : p < 2 ^ 62) where
  infer_len1 :
      2 * p < 2 * (last + 1) + 2 ^ 8
      → 2 * (last + 1) < 2 * p + 2 ^ 8
      → infer_packet_number 1 last (p % 2 ^ 8) ≡ p
  unfolding infer_packet_number
  infer_len1 lo hi = ground arith

  infer_len2 :
      2 * p < 2 * (last + 1) + 2 ^ 16
      → 2 * (last + 1) < 2 * p + 2 ^ 16
      → infer_packet_number 2 last (p % 2 ^ 16) ≡ p
  unfolding infer_packet_number
  infer_len2 lo hi = ground arith

  infer_len4 :
      2 * p < 2 * (last + 1) + 2 ^ 32
      → 2 * (last + 1) < 2 * p + 2 ^ 32
      → infer_packet_number 4 last (p % 2 ^ 32) ≡ p
  unfolding infer_packet_number
  infer_len4 lo hi = ground arith

  infer_len6 :
      2 * p < 2 * (last + 1) + 2 ^ 48
      → 2 * (last + 1) < 2 * p + 2 ^ 48
      → infer_packet_number 6 last (p % 2 ^ 48) ≡ p
  unfolding infer_packet_number
  infer_len6 lo hi = ground arith

-- A packet number that is cut to `len` bytes is recovered by a receiver whose last packet number is
-- `last`, if it lies less than half of the truncated range from `last + 1`, and both are below 2 ^ 62.
pub infer_packet_number-truncated :
    (len last p : ℕ)
    → IsPacketNumberLen len
    → last < 2 ^ 62
    → p < 2 ^ 62
    → 2 * p < 2 * (last + 1) + 2 ^ (len * 8)
    → 2 * (last + 1) < 2 * p + 2 ^ (len * 8)
    → infer_packet_number len last (p % 2 ^ (len * 8)) ≡ p
infer_packet_number-truncated len last p (inl e) hl hp = rw e (infer_len1 last p hl hp)
infer_packet_number-truncated len last p (inr (inl e)) hl hp = rw e (infer_len2 last p hl hp)
infer_packet_number-truncated len last p (inr (inr (inl e))) hl hp = rw e (infer_len4 last p hl hp)
infer_packet_number-truncated len last p (inr (inr (inr e))) hl hp = rw e (infer_len6 last p hl hp)

public_header_length :
    (p u : ℕ)
    → p < 2 ^ 62
    → u ≤ p
    → p < u + 2 ^ 47
    → IsPacketNumberLen (packet_number_length_for_public_header p u)
      × (2 ^ 16 ≤ 2 ^ (packet_number_length_for_public_header p u * 8))
      × (2 * p < 2 * u + 2 ^ (packet_number_length_for_public_header p u * 8))
unfolding packet_number_length_for_public_header
public_header_length p u hp below near = ground arith

-- The length that a sender chooses for the public header is enough for every receiver: for any `last`
-- from the number before the least unacknowledged one up to `p` itself, the truncated number is
-- completed to `p`, if `p` is less than 2 ^ 62, the least unacknowledged number is at most `p`, and fewer
-- than 2 ^ 47 packets are unacknowledged.
pub infer-length_for_public_header :
    (p least_unacked last : ℕ)
    → p < 2 ^ 62
    → least_unacked ≤ last + 1
    → last ≤ p
    → p < least_unacked + 2 ^ 47
    → least_unacked ≤ p
    → infer_packet_number
        (packet_number_length_for_public_header p least_unacked)
        last
        (p % 2 ^ (packet_number_length_for_public_header p least_unacked * 8))
      ≡ p
infer-length_for_public_header p u last hp lo hi near below =
    let (range, room, wide) = public_header_length p u hp below near in
    infer_packet_number-truncated (packet_number_length_for_public_header p u) last p range
      (omega arith) hp (omega arith) (omega arith)

packet_number_length_table :
    (p : ℕ)
    → IsPacketNumberLen (packet_number_length p)
      × ((p < 2 ^ 48) → p < 2 ^ (packet_number_length p * 8))
      × ((p < 2 ^ 8) → packet_number_length p ≤ 1)
      × ((p < 2 ^ 16) → packet_number_length p ≤ 2)
      × ((p < 2 ^ 32) → packet_number_length p ≤ 4)
      × (packet_number_length p ≤ 6)
unfolding packet_number_length
packet_number_length_table p = (
  ground arith,
  λ h. ground arith,
  λ h. ground arith,
  λ h. ground arith,
  λ h. ground arith,
  ground arith,
)

-- For a packet number that some header length holds, the length that GetPacketNumberLength chooses is a
-- header length, holds it too, and is no longer.
pub packet_number_length-least :
    (p len : ℕ)
    → IsPacketNumberLen len
    → p < 2 ^ (len * 8)
    → IsPacketNumberLen (packet_number_length p)
      × (p < 2 ^ (packet_number_length p * 8))
      × (packet_number_length p ≤ len)
packet_number_length-least p len (inl e) h =
    let (range, holds, le1, le2, le4, le6) = packet_number_length_table p in
    let small : p < 2 ^ 8 = rw e at h in (range, holds (omega arith), rw e (le1 small))
packet_number_length-least p len (inr (inl e)) h =
    let (range, holds, le1, le2, le4, le6) = packet_number_length_table p in
    let small : p < 2 ^ 16 = rw e at h in (range, holds (omega arith), rw e (le2 small))
packet_number_length-least p len (inr (inr (inl e))) h =
    let (range, holds, le1, le2, le4, le6) = packet_number_length_table p in
    let small : p < 2 ^ 32 = rw e at h in (range, holds (omega arith), rw e (le4 small))
packet_number_length-least p len (inr (inr (inr e))) h =
    let (range, holds, le1, le2, le4, le6) = packet_number_length_table p in
    let small : p < 2 ^ 48 = rw e at h in (range, holds small, rw e le6)
