-- ===== src/Flow/Controller/Laws.antt =====
-- What the methods of a flow controller guarantee.
use agg_deliv.Common.{
  ℕ, ◌+◌, ◌/◌, ◌^◌, ◌<◌, ◌≤◌, ◌≡◌, ◌↔◌, ◌⊎◌, true, ltb, if◌then◌else◌, arith, u64_mod,
}
use agg_deliv.Flow.Controller.{
  FlowController, ConnectionParameters, Timing, get_send_window, add_bytes_sent, send_window_size,
  update_send_window, update_highest_received, maybe_adjust_window_increment, maybe_update_window,
  ensure_minimum_window_increment,
}

-- No more is read than the window allows, and the window grows by at most the maximal increment.
pub record IsValid (c : FlowController) : Type 0 where
  pub read : c.bytes_read ≤ c.receive_window
  pub increment : c.receive_window_increment ≤ c.max_receive_window_increment

-- Sending at most the free part of the window keeps the bytes sent within it, and takes exactly that
-- many bytes from the free part.
pub send_window_size-add_bytes_sent :
    (c : FlowController) (params : ConnectionParameters) (n : ℕ)
    → c.bytes_sent ≤ get_send_window c params
    → get_send_window c params < u64_mod
    → n ≤ send_window_size c params
    → ((add_bytes_sent c n).bytes_sent ≤ get_send_window (add_bytes_sent c n) params)
      × (send_window_size (add_bytes_sent c n) params + n ≡ send_window_size c params)
unfolding send_window_size add_bytes_sent
send_window_size-add_bytes_sent c params n within small free = ground arith

-- A WINDOW_UPDATE raises the stored window to its offset if that is higher, and reports whether it did;
-- the window that counts is then the offset, and else stays.
pub update_send_window_lem :
    (c : FlowController) (params : ConnectionParameters) (offset : ℕ)
    → (c.send_window ≤ (update_send_window c offset).controller.send_window)
      × (offset ≤ (update_send_window c offset).controller.send_window)
      × (((update_send_window c offset).updated ≡ true) ↔ (c.send_window < offset))
      × (get_send_window (update_send_window c offset).controller params
          ≡ (if ltb c.send_window offset then offset else get_send_window c params))
unfolding update_send_window get_send_window
update_send_window_lem c params offset = ground arith

-- Where no WINDOW_UPDATE was received yet, one with an offset above 0 and below the initial window is
-- reported as an update, and makes the window smaller.
pub update_send_window-shrinks :
    (c : FlowController) (params : ConnectionParameters) (offset : ℕ)
    → c.send_window ≡ 0
    → 0 < offset
    → offset < get_send_window c params
    → ((update_send_window c offset).updated ≡ true)
      × (get_send_window (update_send_window c offset).controller params < get_send_window c params)
unfolding update_send_window get_send_window
update_send_window-shrinks c params offset unset pos below = ground arith

-- UpdateHighestReceived raises the highest offset to the new one if that is higher, returns by how much
-- it rose, and reports the error exactly for an offset below the highest one.
pub update_highest_received_lem :
    (c : FlowController) (offset : ℕ)
    → ((update_highest_received c offset).controller.highest_received
        ≡ c.highest_received + (update_highest_received c offset).increment)
      × ((update_highest_received c offset).controller.highest_received
          ≡ (if ltb c.highest_received offset then offset else c.highest_received))
      × (((update_highest_received c offset).smaller_byte_offset ≡ true)
          ↔ (offset < c.highest_received))
unfolding update_highest_received
update_highest_received_lem c offset = ground arith

-- Adjusting changes the increment alone: it does not fall, and stays within the maximum.
maybe_adjust_window_increment_lem :
    (c : FlowController) (t : Timing)
    → c.receive_window_increment ≤ c.max_receive_window_increment
    → c.max_receive_window_increment < 2 ^ 63
    → (c.receive_window_increment ≤ (maybe_adjust_window_increment c t).receive_window_increment)
      × ((maybe_adjust_window_increment c t).receive_window_increment
          ≤ c.max_receive_window_increment)
      × (maybe_adjust_window_increment c t ≡ record c {
        receive_window_increment = (maybe_adjust_window_increment c t).receive_window_increment;
      })
unfolding maybe_adjust_window_increment
maybe_adjust_window_increment_lem c t within small = ground arith

-- MaybeUpdateWindow on a valid controller, below 2 ^ 63: the window and its increment do not fall, the
-- controller stays valid, the offset returned is the new window, at least half an increment is free
-- afterwards, the bytes read are kept, and either an update is
-- reported as necessary or nothing changes.
pub maybe_update_window-grows :
    (c : FlowController) (t : Timing)
    → IsValid c
    → c.receive_window + c.max_receive_window_increment < 2 ^ 63
    → (c.receive_window ≤ (maybe_update_window c t).controller.receive_window)
      × (c.receive_window_increment ≤ (maybe_update_window c t).controller.receive_window_increment)
      × IsValid (maybe_update_window c t).controller
      × ((maybe_update_window c t).offset ≡ (maybe_update_window c t).controller.receive_window)
      × (c.bytes_read + (maybe_update_window c t).controller.receive_window_increment / 2
          ≤ (maybe_update_window c t).controller.receive_window)
      × ((maybe_update_window c t).controller.bytes_read ≡ c.bytes_read)
      × (((maybe_update_window c t).necessary ≡ true) ⊎ ((maybe_update_window c t).controller ≡ c))
unfolding maybe_update_window
maybe_update_window-grows c t v small =
    let (up, within, same) = maybe_adjust_window_increment_lem c t v.increment (omega arith) in
    ground arith

-- EnsureMinimumWindowIncrement reaches the minimum asked for, or the maximum, and never lowers the
-- increment of a valid controller, which stays valid.
pub ensure_minimum_window_increment_lem :
    (c : FlowController) (inc : ℕ)
    → IsValid c
    → IsValid (ensure_minimum_window_increment c inc)
      × (c.receive_window_increment
          ≤ (ensure_minimum_window_increment c inc).receive_window_increment)
      × ((inc ≤ (ensure_minimum_window_increment c inc).receive_window_increment)
          ⊎ ((ensure_minimum_window_increment c inc).receive_window_increment
              ≡ c.max_receive_window_increment))
unfolding ensure_minimum_window_increment
ensure_minimum_window_increment_lem c inc v = ground arith
