-- ===== src/Wire/Control/StopWaiting.antt =====
-- mpquic_trans/internal/wire/stop_waiting_frame.go: the STOP_WAITING frame.
use agg_deliv.Common.{
  ℕ, ◌+◌, ◌%◌, ◌^◌, [], ◌∷◌, ◌++◌, Option, none, some, ltb, leb, ◌==◌, if◌then◌else◌, sub64,
}
use agg_deliv.Protocol.Version.{VersionNumber}
use agg_deliv.Wire.Reader.{Reader, ◌>>=◌, ◌>>◌, return, fail, read_byte, invalid_stop_waiting_data}
use agg_deliv.Wire.ByteOrder.{get_byte_order, read_uint_n, write_uint16, write_uint32, write_uint48}
use agg_deliv.Wire.Control.{
  Written, done, refused, panic, packet_number_not_set, least_unacked_higher_than_packet_number,
  packet_number_len_not_set,
}

pub record StopWaitingFrame : Type 0 where
  pub least_unacked : ℕ
  pub packet_number_len : ℕ
  pub packet_number : ℕ

-- The difference, in the number of bytes that the packet number has.
unfoldable pub write_delta : ℕ → VersionNumber → ℕ → Written
write_delta len version delta =
    if len == 1
    then done (0x06 ∷ delta % 2 ^ 8 ∷ [])
    else if len == 2
    then done ((0x06 ∷ []) ++ write_uint16 (get_byte_order version) (delta % 2 ^ 16))
    else if len == 4
    then done ((0x06 ∷ []) ++ write_uint32 (get_byte_order version) (delta % 2 ^ 32))
    else if len == 6
    then elim (write_uint48 (get_byte_order version) (delta % 2 ^ 48)) [
      | some bytes ↦ done ((0x06 ∷ []) ++ bytes)
      | none ↦ panic
    ]
    else refused packet_number_len_not_set (0x06 ∷ [])

unfoldable pub write : StopWaitingFrame → VersionNumber → Written
write f version =
    if f.packet_number == 0
    then refused packet_number_not_set []
    else if ltb f.packet_number f.least_unacked
    then refused least_unacked_higher_than_packet_number []
    else write_delta f.packet_number_len version (sub64 f.packet_number f.least_unacked)

-- The parsed frame has no packet number and no length of it.
unfoldable pub parse : ℕ → ℕ → VersionNumber → Reader StopWaitingFrame
unfolding read_byte
parse packet_number packet_number_len version = do
  read_byte
  least_unacked_delta ← read_uint_n (get_byte_order version) packet_number_len
  if leb packet_number least_unacked_delta
      then fail invalid_stop_waiting_data
      else return (record {
        least_unacked = sub64 packet_number least_unacked_delta;
        packet_number_len = 0;
        packet_number = 0;
      })

unfoldable pub min_length : StopWaitingFrame → Option ℕ
min_length f = if f.packet_number_len == 0 then none else some (1 + f.packet_number_len)
