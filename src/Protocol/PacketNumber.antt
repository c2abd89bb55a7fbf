-- ===== src/Protocol/PacketNumber.antt =====
-- mpquic_trans/internal/protocol/packet_number.go: lengths of truncated packet numbers, and how the
-- receiver completes them.
pub mod Infer
mod Tests
use agg_deliv.Common.{ℕ, ◌+◌, ◌-◌, ◌*◌, ◌/◌, ◌%◌, ◌^◌, ltb, if◌then◌else◌, u64_mod, add64, sub64}

-- The constants PacketNumberLen1, PacketNumberLen2, PacketNumberLen4 and PacketNumberLen6.
abbrev pub packet_number_len1 : ℕ
packet_number_len1 = 1

abbrev pub packet_number_len2 : ℕ
packet_number_len2 = 2

abbrev pub packet_number_len4 : ℕ
packet_number_len4 = 4

abbrev pub packet_number_len6 : ℕ
packet_number_len6 = 6

unfoldable pub delta : ℕ → ℕ → ℕ
delta a b = if ltb a b then b - a else a - b

unfoldable pub closest_to : ℕ → ℕ → ℕ → ℕ
unfolding delta
closest_to target a b = if ltb (delta target a) (delta target b) then a else b

-- `last & ^(epochDelta - 1)` clears the low bits, since `epochDelta` is a power of two. A shift by 64
-- or more gives 0, and the mask is then 0, as `/ 0` is.
unfoldable pub infer_packet_number : ℕ → ℕ → ℕ → ℕ
unfolding closest_to
infer_packet_number len last wire =
    let epoch_delta = 2 ^ (len * 8 % 256) % u64_mod in
    let epoch = last / epoch_delta * epoch_delta in
    let prev_epoch_begin = sub64 epoch epoch_delta in
    let next_epoch_begin = add64 epoch epoch_delta in
    closest_to (add64 last 1) (add64 epoch wire)
      (closest_to (add64 last 1) (add64 prev_epoch_begin wire) (add64 next_epoch_begin wire))

unfoldable pub packet_number_length_for_public_header : ℕ → ℕ → ℕ
packet_number_length_for_public_header packet_number least_unacked =
    let diff = sub64 packet_number least_unacked in
    if ltb diff (2 * 2 ^ (packet_number_len2 * 8 - 2))
    then packet_number_len2
    else if ltb diff (2 * 2 ^ (packet_number_len4 * 8 - 2))
    then packet_number_len4
    else packet_number_len6

unfoldable pub packet_number_length : ℕ → ℕ
packet_number_length packet_number =
    if ltb packet_number (2 ^ (packet_number_len1 * 8))
    then packet_number_len1
    else if ltb packet_number (2 ^ (packet_number_len2 * 8))
    then packet_number_len2
    else if ltb packet_number (2 ^ (packet_number_len4 * 8))
    then packet_number_len4
    else packet_number_len6
