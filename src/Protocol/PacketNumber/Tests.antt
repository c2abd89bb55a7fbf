-- ===== src/Protocol/PacketNumber/Tests.antt =====
-- Runs of the packet number functions, and the theorems at concrete inputs.
use agg_deliv.Common.{◌*◌, ◌%◌, ◌^◌, ◌<◌, ◌≤◌, ◌≡◌, inl, inr, refl, arith}
use agg_deliv.Protocol.PacketNumber.{
  infer_packet_number, packet_number_length, packet_number_length_for_public_header,
}
use agg_deliv.Protocol.PacketNumber.Infer.{
  IsPacketNumberLen, infer_packet_number-truncated, infer-length_for_public_header,
  packet_number_length-least,
}

infer_next_epoch : infer_packet_number 1 0x1fe 0x03 ≡ 0x203
unfolding infer_packet_number
infer_next_epoch = refl

infer_first_epoch : infer_packet_number 2 3 5 ≡ 5
unfolding infer_packet_number
infer_first_epoch = refl

header_length : packet_number_length_for_public_header 40000 2 ≡ 4
unfolding packet_number_length_for_public_header
header_length = refl

infer_packet_number-truncated_run : infer_packet_number 1 0x1fe (0x203 % 2 ^ (1 * 8)) ≡ 0x203
infer_packet_number-truncated_run =
    infer_packet_number-truncated 1 0x1fe 0x203 (inl refl) (omega arith) (omega arith) (omega arith)
      (omega arith)

infer-length_for_public_header_example :
    infer_packet_number
      (packet_number_length_for_public_header 70000 69000)
      69500
      (70000 % 2 ^ (packet_number_length_for_public_header 70000 69000 * 8))
    ≡ 70000
infer-length_for_public_header_example =
    infer-length_for_public_header 70000 69000 69500 (omega arith) (omega arith) (omega arith)
      (omega arith) (omega arith)

packet_number_length-least_run :
    IsPacketNumberLen (packet_number_length 300)
    × (300 < 2 ^ (packet_number_length 300 * 8))
    × (packet_number_length 300 ≤ 4)
packet_number_length-least_run =
    packet_number_length-least 300 4 (inr (inr (inl refl))) (omega arith)
