-- ===== src/Wire/Control/RoundTrip.antt =====
-- Every control frame that is written is parsed back, with the bytes that follow it, and has the length
-- that MinLength tells.
use agg_deliv.Common.{
  ℕ, ◌-◌, ◌*◌, ◌%◌, ◌^◌, ◌<◌, ◌≤◌, ◌≡◌, inl, inr, ap, List, [], ◌∷◌, ◌++◌, some, arith, length,
  u64_mod,
}
use native.Mathlib.Nat.{mod-eq_of_lt}
use agg_deliv.Protocol.Version.{VersionNumber}
use agg_deliv.Wire.Reader.{ok, read_full-append}
use agg_deliv.Wire.ByteOrder.{
  get_byte_order, read_uint16, read_uint32, read_uint64, write_uint16, write_uint32, write_uint64,
}
use agg_deliv.Wire.Control.{done, max_packet_size}
use agg_deliv.Wire.Control.WindowUpdate
use agg_deliv.Wire.Control.WindowUpdate.{WindowUpdateFrame}
use agg_deliv.Wire.Control.Blocked
use agg_deliv.Wire.Control.Blocked.{BlockedFrame}
use agg_deliv.Wire.Control.RstStream
use agg_deliv.Wire.Control.RstStream.{RstStreamFrame}
use agg_deliv.Wire.Control.Goaway
use agg_deliv.Wire.Control.Goaway.{GoawayFrame}
use agg_deliv.Wire.Control.ConnectionClose
use agg_deliv.Wire.Control.ConnectionClose.{ConnectionCloseFrame}
use agg_deliv.Wire.Control.StopWaiting
use agg_deliv.Wire.Control.StopWaiting.{StopWaitingFrame}
use agg_deliv.Wire.ByteOrder.UintN.{
  uint_bytes, read_uint_n-write, length-uint_bytes, write_uint8_lem, write_uint16_lem,
  write_uint32_lem, write_uint48_lem,
}
use agg_deliv.Protocol.PacketNumber.Infer.{IsPacketNumberLen}

-- A WINDOW_UPDATE frame with a 32-bit stream ID and a 64-bit offset is parsed back from its bytes, which
-- are as many as MinLength says.
pub window_update-round_trip :
    (f : WindowUpdateFrame) (version : VersionNumber) (rest : List ℕ)
    → f.stream_id < 2 ^ 32
    → f.byte_offset < 2 ^ 64
    → (WindowUpdate.parse version (WindowUpdate.write f version ++ rest) ≡ ok (f, rest))
      × (length (WindowUpdate.write f version) ≡ WindowUpdate.min_length f)
unfolding WindowUpdate.parse WindowUpdate.write WindowUpdate.min_length read_uint32 read_uint64
    write_uint32 write_uint64
window_update-round_trip f version rest hs ho = ground arith

-- A BLOCKED frame with a 32-bit stream ID is parsed back from its bytes, which are as many as MinLength
-- says.
pub blocked-round_trip :
    (f : BlockedFrame) (version : VersionNumber) (rest : List ℕ)
    → f.stream_id < 2 ^ 32
    → (Blocked.parse version (Blocked.write f version ++ rest) ≡ ok (f, rest))
      × (length (Blocked.write f version) ≡ Blocked.min_length f)
unfolding Blocked.parse Blocked.write Blocked.min_length read_uint32 write_uint32
blocked-round_trip f version rest hs = ground arith

-- A RST_STREAM frame whose fields have their widths is parsed back from its bytes, which are as many as
-- MinLength says.
pub rst_stream-round_trip :
    (f : RstStreamFrame) (version : VersionNumber) (rest : List ℕ)
    → f.stream_id < 2 ^ 32
    → f.error_code < 2 ^ 32
    → f.byte_offset < 2 ^ 64
    → (RstStream.parse version (RstStream.write f version ++ rest) ≡ ok (f, rest))
      × (length (RstStream.write f version) ≡ RstStream.min_length f)
unfolding RstStream.parse RstStream.write RstStream.min_length read_uint32 read_uint64 write_uint32
    write_uint64
rst_stream-round_trip f version rest hs he ho = ground arith

-- A GOAWAY frame whose fields have their widths and whose reason phrase has at most MaxPacketSize bytes
-- is parsed back from its bytes, which are as many as MinLength says.
pub goaway-round_trip :
    (f : GoawayFrame) (version : VersionNumber) (rest : List ℕ)
    → f.error_code < 2 ^ 32
    → f.last_good_stream < 2 ^ 32
    → length f.reason_phrase ≤ max_packet_size
    → (Goaway.parse version (Goaway.write f version ++ rest) ≡ ok (f, rest))
      × (length (Goaway.write f version) ≡ Goaway.min_length f)
unfolding Goaway.parse Goaway.write Goaway.min_length read_uint16 read_uint32 write_uint16
    write_uint32
goaway-round_trip f version rest he hl hp = ground (arith, read_full-append f.reason_phrase rest)

-- A CONNECTION_CLOSE frame whose error code has 32 bits and whose reason phrase has at most
-- MaxPacketSize bytes is written without an error, and parsed back from its bytes, which are as many as
-- MinLength says.
pub connection_close-round_trip :
    (f : ConnectionCloseFrame) (version : VersionNumber) (rest : List ℕ)
    → f.error_code < 2 ^ 32
    → length f.reason_phrase ≤ max_packet_size
    → (bytes : List ℕ) × (ConnectionClose.write f version ≡ done bytes)
      × (ConnectionClose.parse version (bytes ++ rest) ≡ ok (f, rest))
      × (length bytes ≡ ConnectionClose.min_length f)
unfolding ConnectionClose.parse ConnectionClose.write ConnectionClose.min_length read_uint16
    read_uint32 write_uint16 write_uint32
connection_close-round_trip f version rest he hp = (
  (0x02 ∷ [])
      ++ write_uint32 (get_byte_order version) f.error_code
      ++ write_uint16 (get_byte_order version) (length f.reason_phrase % 2 ^ 16)
      ++ f.reason_phrase,
  ground arith,
  ground (arith, read_full-append f.reason_phrase rest),
  ground arith,
)

write_delta_lem :
    (len delta : ℕ) (version : VersionNumber)
    → IsPacketNumberLen len
    → delta < 2 ^ (len * 8)
    → StopWaiting.write_delta len version delta
      ≡ done (0x06 ∷ uint_bytes (get_byte_order version) len delta)
unfolding StopWaiting.write_delta
write_delta_lem len delta version (inl e) h =
    rw e (ap (λ (bs : List ℕ). done (0x06 ∷ bs)) (write_uint8_lem (get_byte_order version) delta))
write_delta_lem len delta version (inr (inl e)) h =
    let whole : delta % 2 ^ 16 ≡ delta = mod-eq_of_lt (rw e at h) in rw (e, whole, write_uint16_lem)
write_delta_lem len delta version (inr (inr (inl e))) h =
    let whole : delta % 2 ^ 32 ≡ delta = mod-eq_of_lt (rw e at h) in rw (e, whole, write_uint32_lem)
write_delta_lem len delta version (inr (inr (inr e))) h =
    let small : delta < 2 ^ 48 = rw e at h in
    let whole : delta % 2 ^ 48 ≡ delta = mod-eq_of_lt small in
    rw (e, whole, write_uint48_lem (get_byte_order version) delta small)

-- A STOP_WAITING frame for packet `p`, whose least unacknowledged number lies above 0 and at most `p` and
-- whose difference fits the length of 1, 2, 4 or 6 bytes, is written without an error, and the parser,
-- told the number and the length of that packet, gives back the least unacknowledged number.
pub stop_waiting-round_trip :
    (f : StopWaitingFrame) (version : VersionNumber) (rest : List ℕ)
    → IsPacketNumberLen f.packet_number_len
    → 0 < f.least_unacked
    → f.least_unacked ≤ f.packet_number
    → f.packet_number < u64_mod
    → f.packet_number - f.least_unacked < 2 ^ (f.packet_number_len * 8)
    → (bytes : List ℕ) × (StopWaiting.write f version ≡ done bytes)
      × (StopWaiting.parse f.packet_number f.packet_number_len version (bytes ++ rest)
          ≡ ok (
            record { least_unacked = f.least_unacked; packet_number_len = 0; packet_number = 0 },
            rest,
          ))
      × (some (length bytes) ≡ StopWaiting.min_length f)
unfolding StopWaiting.parse StopWaiting.write StopWaiting.min_length
stop_waiting-round_trip f version rest shape pos below small fits =
    let delta = f.packet_number - f.least_unacked in
    (
      0x06 ∷ uint_bytes (get_byte_order version) f.packet_number_len delta,
      ground (arith, write_delta_lem f.packet_number_len delta version shape fits),
      ground (
        arith,
        read_uint_n-write (get_byte_order version) f.packet_number_len delta rest (omega arith),
      ),
      ground (arith, length-uint_bytes (get_byte_order version) f.packet_number_len delta),
    )
